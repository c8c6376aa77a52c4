-- ===== src/Listener/Local.antt =====
-- Which kinds of calls a round of the listener makes, with its calls of poll and the keyboard.
use tram.Prelude.{ℕ, zero, suc, ◌==◌, Bool, true, false, ◌∷◌, is_neg, Bool-cases, inl, inr, refl}
use tram.Sys.{Env, Trace, poll, read_key}
use tram.Sys.Outcomes.{
  is_quiet, here, next, Makes, is_local, is_quiet-is_local, Makes-bind, Makes-after, Makes-weaken,
}
use tram.Settings.{Settings}
use tram.Avtp.{Avtp}
use tram.Listener.{
  State, Fds, again, leave, playback, receive, and_again, continue_with, poll_exit, step, loop,
}
use tram.Listener.Calls.{heard-Makes}

module _ (env : Env) (a : Avtp) (fds : Fds) (set : Settings) where
  poll_exit-Makes :
      (ready : Bool) (st : State) (t : Trace) → Makes is_local t (poll_exit env ready st t)
  unfolding poll_exit
  poll_exit-Makes true st t = here
  poll_exit-Makes false st t = elim (Bool-cases (env.key (read_key ∷ t) == 27)) [
    | inl escape ↦ rw escape (next _ refl here)
    | inr other ↦ rw other (next _ refl here)
  ]

  step-Makes :
      (recording : Bool) (st : State) (t : Trace)
      → Makes is_local t (step env a fds set recording st t)
  unfolding step
  step-Makes recording st t =
      let u : Trace = poll fds.sk_fd fds.timer_fd fds.session_tim_fd ∷ t in
      let ready = env.ready u in
      elim (Bool-cases (is_neg (env.ret u))) [
        | inl failed ↦ rw failed (next _ refl here)
        | inr polled ↦ rw polled (
            Makes-after is_local t u _ (next _ refl here) (
              Makes-bind is_local u
                (and_again (receive env a fds set ready.socket_ready st)
                  (playback env fds set recording ready.timer_ready) u)
                _
                (Makes-weaken is_quiet is_local u _ is_quiet-is_local
                  (heard-Makes env a fds set recording ready.socket_ready ready.timer_ready st u))
                λ n v.
                  elim n
                    as (λ n.
                      Makes is_local v (continue_with (poll_exit env ready.session_ready) n v)) [
                        | again st' ↦ poll_exit-Makes ready.session_ready st' v
                        | leave st' ↦ here
                      ]))
      ]

  pub loop-Makes :
      (recording : Bool) (rounds : ℕ) (st : State) (t : Trace)
      → Makes is_local t (loop env a fds set recording rounds st t)
  unfolding loop
  loop-Makes recording zero st t = here
  loop-Makes recording (suc rounds) st t =
      Makes-bind is_local t (step env a fds set recording st t) _ (step-Makes recording st t) λ n u.
        elim n
          as (λ n. Makes is_local u (continue_with (loop env a fds set recording rounds) n u)) [
            | again st' ↦ loop-Makes recording rounds st' u
            | leave st' ↦ here
          ]
