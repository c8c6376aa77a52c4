-- ===== src/Listener/Leaves.antt =====
-- What a round of the listener does with the keyboard.
use tram.Prelude.{ℕ, suc, ◌≡◌, ◌==◌, Bool, true, false, ◌∷◌, is_neg, Bool-cases, inl, inr, ap}
use tram.Sys.{Env, Trace, Outcome, done, exited, faulted, and_then, read_key, poll}
use tram.Sys.Descriptors.{keys}
use tram.Sys.Outcomes.{Gives, keys-Makes}
use tram.Settings.{Settings}
use tram.Avtp.{Avtp}
use tram.Listener.{State, Fds, Next, again, leave, poll_exit, continue_with, step}
use tram.Listener.Calls.{heard-Makes}

module _ (env : Env) where
  -- A round that goes on has read the keyboard once, and not the escape key.
  abbrev pub Read : ℕ → Outcome Next → Type 0
  Read n (done (again st) u) = (keys u ≡ suc n) × ((env.key u == 27) ≡ false)
  Read n (done (leave st) u) = Unit
  Read n (exited c u) = Unit
  Read n (faulted f u) = Unit

  poll_exit-Read :
      (n : ℕ) (ready : Bool) (r : Outcome Next)
      → Gives (λ _ u. keys u ≡ n) r
      → Read n (and_then r (continue_with (poll_exit env ready)))
  unfolding poll_exit
  poll_exit-Read n true (done (again st) t) same = tt
  poll_exit-Read n false (done (again st) t) same =
      elim (Bool-cases (env.key (read_key ∷ t) == 27)) [
        | inl escape ↦ rw escape tt
        | inr other ↦ rw other (ap suc same, other)
      ]
  poll_exit-Read n ready (done (leave st) t) same = tt
  poll_exit-Read n ready (exited c t) same = tt
  poll_exit-Read n ready (faulted f t) same = tt

  pub step-Read :
      (a : Avtp) (fds : Fds) (set : Settings) (recording : Bool) (st : State) (t : Trace)
      → Read (keys t) (step env a fds set recording st t)
  unfolding step
  step-Read a fds set recording st t =
      let u : Trace = poll fds.sk_fd fds.timer_fd fds.session_tim_fd ∷ t in
      let ready = env.ready u in
      elim (Bool-cases (is_neg (env.ret u))) [
        | inl failed ↦ rw failed tt
        | inr polled ↦ rw polled (
            poll_exit-Read (keys t) ready.session_ready _ (
              keys-Makes u _
                (heard-Makes env a fds set recording ready.socket_ready ready.timer_ready st u)))
      ]
