-- ===== src/Listener/Step.antt =====
-- Each round of the loop keeps the queue, the timer and the playback state in step.
use tram.Prelude.{
  ℕ, zero, suc, ◌≡◌, ◌==◌, Bool, true, false, ◌∷◌, is_neg, refl, Bool-cases, inl, inr,
}
use tram.Sys.{Env, Trace, read_timer, poll, read_key}
use tram.Sys.Descriptors.{same_fd}
use tram.Settings.{Settings}
use tram.Avtp.{Avtp}
use tram.Playout.{aaf_timeout}
use tram.Playout.Armed.{armed, HonestTimer}
use tram.Listener.{
  State, Fds, Next, again, leave, continue_with, playback, receive, poll_exit, step, loop,
}
use tram.Listener.Safe.{Inv, Safe, Safe-bind}
use tram.Listener.Receive.{Received, new_packet-Received}
use tram.Listener.Play.{Continues, again-Continues}

module _ (env : Env) (k : ℕ) (honest : HonestTimer env k) (fds : Fds)
    (ours : same_fd k fds.timer_fd ≡ true) where
  playback-Continues :
      (set : Settings) (recording ready : Bool) (st : State) (t : Trace)
      → Inv env k st t
      → (ready ≡ true → armed env k t ≡ true)
      → Safe env k (Continues env k) (playback env fds set recording ready st t)
  unfolding playback aaf_timeout
  playback-Continues set recording ready st t inv on =
      let u : Trace = read_timer fds.timer_fd ∷ t in
      elim (Bool-cases st.is_running) [
        | inl run ↦ simp run (
            again-Continues env k set recording st t (inv.running_has run)
              (inv.running_unarmed run))
        | inr idle ↦ simp idle (elim (Bool-cases ready) [
          | inr quiet ↦ rw quiet inv
          | inl fired ↦ rw fired (elim (Bool-cases (is_neg (env.ret u))) [
            | inl failed ↦ rw failed tt
            | inr read ↦
                let once : env.expirations u ≡ 1 =
                  honest.expires_once fds.timer_fd t ours (on fired) read in
                rw (read, once)
                  (again-Continues env k set recording (record st { is_running = true }) u
                    (inv.armed_has (on fired)) (rw (ours, read) refl))
          ])
        ])
      ]

  poll_exit-Continues :
      (ready : Bool) (st : State) (t : Trace)
      → Inv env k st t
      → Safe env k (Continues env k) (poll_exit env ready st t)
  unfolding poll_exit
  poll_exit-Continues true st t inv = tt
  poll_exit-Continues false st t inv = elim (Bool-cases (env.key (read_key ∷ t) == 27)) [
    | inl escape ↦ rw escape tt
    | inr other ↦ rw other (record {
      running_has = inv.running_has;
      armed_has = inv.armed_has;
      running_unarmed = inv.running_unarmed;
    })
  ]

  -- after the first part a timer that was armed still is
  abbrev Kept : Trace → Next → Trace → Type 0
  Kept t (again st) u = Inv env k st u × (armed env k t ≡ true → armed env k u ≡ true)
  Kept t (leave st) u = Unit

  receive-Kept :
      (a : Avtp) (set : Settings) (ready : Bool) (st : State) (t : Trace)
      → Inv env k st t
      → Safe env k (Kept t) (receive env a fds set ready st t)
  unfolding receive
  receive-Kept a set true st t inv =
      Safe-bind env k (Received env k t) (Kept t) _ _ (new_packet-Received env k a fds set st t inv)
        λ (r, st') u got. elim (Bool-cases (is_neg r)) [
          | inl failed ↦ rw failed tt
          | inr fine ↦ rw fine (got fine)
        ]
  receive-Kept a set false st t inv = (inv, λ on. on)

  played :
      (set : Settings) (recording ready : Bool) (t : Trace)
      → (ready ≡ true → armed env k t ≡ true)
      → (n : Next) (u : Trace) → Kept t n u
      → Safe env k (Continues env k) (continue_with (playback env fds set recording ready) n u)
  played set recording ready t on (again st) u (inv, kept) =
      playback-Continues set recording ready st u inv (λ e. kept (on e))
  played set recording ready t on (leave st) u _ = tt

  ended :
      (ready : Bool) (n : Next) (u : Trace)
      → Continues env k n u
      → Safe env k (Continues env k) (continue_with (poll_exit env ready) n u)
  ended ready (again st) u inv = poll_exit-Continues ready st u inv
  ended ready (leave st) u _ = tt

  pub step-Continues :
      (a : Avtp) (set : Settings) (recording : Bool) (st : State) (t : Trace)
      → Inv env k st t
      → Safe env k (Continues env k) (step env a fds set recording st t)
  unfolding step
  step-Continues a set recording st t inv =
      let u : Trace = poll fds.sk_fd fds.timer_fd fds.session_tim_fd ∷ t in
      let ready = env.ready u in
      let inv' : Inv env k st u = record {
        running_has = inv.running_has;
        armed_has = inv.armed_has;
        running_unarmed = inv.running_unarmed;
      } in
      elim (Bool-cases (is_neg (env.ret u))) [
        | inl failed ↦ rw failed tt
        | inr polled ↦ rw polled (
            Safe-bind env k (Continues env k) (Continues env k) _ _
              (Safe-bind env k (Kept u) (Continues env k) _ _
                (receive-Kept a set ready.socket_ready st u inv')
                (played set recording ready.timer_ready u
                  (honest.ready_armed fds.sk_fd fds.session_tim_fd fds.timer_fd t ours)))
              (ended ready.session_ready))
      ]

  pub loop-Continues :
      (a : Avtp) (set : Settings) (recording : Bool) (rounds : ℕ) (st : State) (t : Trace)
      → Inv env k st t
      → Safe env k (Continues env k) (loop env a fds set recording rounds st t)
  unfolding loop
  loop-Continues a set recording zero st t inv = inv
  loop-Continues a set recording (suc rounds) st t inv =
      Safe-bind env k (Continues env k) (Continues env k) _ _
        (step-Continues a set recording st t inv)
        λ n u.
          elim n
            as (λ n.
              Continues env k n u
              → Safe env k (Continues env k)
                  (continue_with (loop env a fds set recording rounds) n u)) [
                    | again st' ↦ λ inv'. loop-Continues a set recording rounds st' u inv'
                    | leave st' ↦ λ _. tt
                  ]
