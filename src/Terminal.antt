-- ===== src/Terminal.antt =====
-- The terminal's attributes, `term_nonblock_setup` of avbperf/avb_aaf.c.
use tram.Prelude.{ℕ, ◌-◌, ◌∷◌, bit_and}
use tram.Sys.{Termios, Env, Trace, M, ◌>>=◌, ◌>>◌, pure, ask, emit, tc_get, tc_set}

-- on Linux
abbrev pub icanon : ℕ
icanon = 2

-- `c_lflag &= ~ICANON`, on 32 bits, and the two control characters of a read that does not wait
unfoldable pub nonblock : Termios → Termios
nonblock old = record old {
  c_lflag = bit_and old.c_lflag (0xFFFF_FFFF - icanon);
  vmin = 0;
  vtime = 0;
}

-- The attributes found are returned.
unfoldable pub term_nonblock_setup : Env → M Termios
term_nonblock_setup env = do
  term_old_set ← ask env.termios tc_get
  emit (tc_set (nonblock term_old_set))
  pure term_old_set

-- what a setup after `t` finds, and the history after it
abbrev pub found : Env → Trace → Termios
found env t = env.termios (tc_get ∷ t)

abbrev pub after_setup : Env → Trace → Trace
after_setup env t = tc_set (nonblock (found env t)) ∷ tc_get ∷ t
