-- ===== src/Playout/Armed.antt =====
-- Whether a one-shot timer is set and has not been read since, and what Linux says of it.
use tram.Prelude.{ℕ, ◌≡◌, if◌then◌else◌, Bool, true, false, [], ◌∷◌, ℤ, is_neg}
use tram.Sys.{Env, Trace, timerfd_settime, read_timer, poll}
use tram.Sys.Descriptors.{same_fd}

abbrev pub armed : Env → ℕ → Trace → Bool
armed env k [] = false
armed env k (timerfd_settime fd tspec ∷ t) =
    let set : Bool =
      if is_neg (env.ret (timerfd_settime fd tspec ∷ t)) then armed env k t else true in
    if same_fd k fd then set else armed env k t
armed env k (read_timer fd ∷ t) =
    let unset : Bool = if is_neg (env.ret (read_timer fd ∷ t)) then armed env k t else false in
    if same_fd k fd then unset else armed env k t
armed env k (_ ∷ t) = armed env k t

-- A timer is reported ready only if it is armed; with no interval it has then expired once.
pub record HonestTimer (env : Env) (k : ℕ) : Type 0 where
  pub ready_armed :
      (a b : ℤ) (fd : ℤ) (t : Trace)
      → same_fd k fd ≡ true
      → (env.ready (poll a fd b ∷ t)).timer_ready ≡ true
      → armed env k t ≡ true
  pub expires_once :
      (fd : ℤ) (t : Trace)
      → same_fd k fd ≡ true
      → armed env k t ≡ true
      → is_neg (env.ret (read_timer fd ∷ t)) ≡ false
      → env.expirations (read_timer fd ∷ t) ≡ 1
