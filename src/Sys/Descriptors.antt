-- ===== src/Sys/Descriptors.antt =====
-- Which descriptors a history leaves open, how it leaves the terminal, and how often it has read the
-- keyboard.
use tram.Prelude.{
  Option, none, some, ℕ, suc, ℤ, pos, negsuc, Bool, true, false, [], ◌∷◌, ◌≡◌, ◌==◌, if◌then◌else◌,
}
use tram.Sys.{socket, timerfd_create, close, tc_set, Termios, Trace, Env, read_key}

abbrev pub same_fd : ℕ → ℤ → Bool
same_fd k (pos n) = k == n
same_fd k (negsuc n) = false

-- descriptor `k` has been handed out and not closed since
abbrev pub is_open : Env → ℕ → Trace → Bool
is_open env k [] = false
is_open env k (socket p ∷ t) = if same_fd k (env.ret (socket p ∷ t)) then true else is_open env k t
is_open env k (timerfd_create ∷ t) =
    if same_fd k (env.ret (timerfd_create ∷ t)) then true else is_open env k t
is_open env k (close fd ∷ t) = if same_fd k fd then false else is_open env k t
is_open env k (_ ∷ t) = is_open env k t

-- the attributes that the terminal has been given last
abbrev pub attributes : Trace → Option Termios
attributes [] = none
attributes (tc_set new ∷ t) = some new
attributes (_ ∷ t) = attributes t

-- Linux hands out no descriptor that is open.
pub record HandsOutFresh (env : Env) : Type 0 where
  pub socket_fresh :
      (p k : ℕ) (t : Trace) → env.ret (socket p ∷ t) ≡ pos k → is_open env k t ≡ false
  pub timer_fresh :
      (k : ℕ) (t : Trace) → env.ret (timerfd_create ∷ t) ≡ pos k → is_open env k t ≡ false

abbrev pub keys : Trace → ℕ
keys [] = 0
keys (read_key ∷ t) = suc (keys t)
keys (_ ∷ t) = keys t
