-- ===== src/Playout/Deadline.antt =====
-- The time for which a one-shot timer is set, where it has not been read since.
use tram.Prelude.{
  ℕ, if◌then◌else◌, Option, none, some, List, [], ◌∷◌, is_neg, ◌≡◌, false, refl, arith,
}
use tram.Sys.{Timespec, Env, Trace, timerfd_settime, read_timer}
use tram.Sys.Descriptors.{same_fd}
use tram.Playout.{Entry}
use tram.Playout.Armed.{armed}

abbrev pub deadline : Env → ℕ → Trace → Option Timespec
deadline env k [] = none
deadline env k (timerfd_settime fd tspec ∷ t) =
    let set : Option Timespec =
      if is_neg (env.ret (timerfd_settime fd tspec ∷ t)) then deadline env k t else some tspec in
    if same_fd k fd then set else deadline env k t
deadline env k (read_timer fd ∷ t) =
    let unset : Option Timespec =
      if is_neg (env.ret (read_timer fd ∷ t)) then deadline env k t else none in
    if same_fd k fd then unset else deadline env k t
deadline env k (_ ∷ t) = deadline env k t

-- the presentation time of the first entry
abbrev pub first_due : List Entry → Option Timespec
first_due [] = none
first_due (entry ∷ rest) = some entry.tspec

pub unset-unarmed :
    (env : Env) (k : ℕ) (t : Trace) → deadline env k t ≡ none → armed env k t ≡ false
unset-unarmed env k [] unset = refl
unset-unarmed env k (timerfd_settime fd tspec ∷ t) unset = ground (arith, unset-unarmed env k t)
unset-unarmed env k (read_timer fd ∷ t) unset = ground (arith, unset-unarmed env k t)
unset-unarmed env k (_ ∷ t) unset = unset-unarmed env k t unset
