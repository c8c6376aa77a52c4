-- ===== src/Listener/Rule.antt =====
-- What every part of a round keeps, the loop keeps.
use tram.Prelude.{
  ℕ, zero, suc, ◌≡◌, ◌==◌, Bool, true, false, ◌∷◌, is_neg, Bool-cases, inl, inr, refl,
}
use tram.Sys.{
  Env, Trace, Outcome, done, exited, faulted, M, and_then, ◌>>=◌, pure, read_timer, read_key, poll,
}
use tram.Sys.Outcomes.{Ends, Ends-bind, Gives, Gives-bind}
use tram.Settings.{Settings}
use tram.Avtp.{Avtp}
use tram.Playout.{aaf_timeout}
use tram.Listener.{
  State, Fds, Next, again, leave, new_packet, play, playback, poll_exit, receive, continue_with,
  step, loop,
}

-- A further part of a round keeps what holds of the result of those before.
pub continue-Ends :
    (Otherwise : Type 0) (Q : Next → Trace → Type 0) (f : State → M Next) (r : Outcome Next)
    → Ends Otherwise Q r
    → ((st : State) (u : Trace) → Q (again st) u → Ends Otherwise Q (f st u))
    → Ends Otherwise Q (and_then r (continue_with f))
continue-Ends Otherwise Q f (done (again st) u) q g = g st u q
continue-Ends Otherwise Q f (done (leave st) u) q g = q
continue-Ends Otherwise Q f (exited c u) q g = q
continue-Ends Otherwise Q f (faulted x u) q g = q

-- the call that a round starts with
abbrev pub polled : Fds → Trace → Trace
polled fds t = poll fds.sk_fd fds.timer_fd fds.session_tim_fd ∷ t

module _ (env : Env) (fds : Fds) (set : Settings) (Q : Next → Trace → Type 0)
    (left : (st : State) (t : Trace) → Q (again st) t → Q (leave st) t) where
  -- the socket, from what `new_packet` keeps
  pub receive-Ends :
      (Otherwise : Type 0) (a : Avtp) (ready : Bool) (st : State) (t : Trace)
      → Q (again st) t
      → (ready ≡ true
          → Ends Otherwise (λ (r, st') u. Q (again st') u) (new_packet env a fds set st t))
      → Ends Otherwise Q (receive env a fds set ready st t)
  unfolding receive
  receive-Ends Otherwise a false st t q takes = q
  receive-Ends Otherwise a true st t q takes =
      Ends-bind Otherwise (λ (r, st') u. Q (again st') u) Q (new_packet env a fds set st t) _
        (takes refl)
        λ (r, st') u q. elim (Bool-cases (is_neg r)) [
          | inl failed ↦ rw failed (left st' u q)
          | inr fine ↦ rw fine q
        ]

  module _ (recording : Bool)
      (plays : (st : State) (t : Trace)
        → Q (again st) t
        → Gives (λ st' u. Q (again st') u) (play env set recording st t))
      (starts : (st : State) (t : Trace)
        → Q (again st) t
        → Q (again (record st { is_running = true })) (read_timer fds.timer_fd ∷ t)) where
    play-Gives :
        (st : State) (t : Trace)
        → Q (again st) t
        → Gives Q ((play env set recording st >>= λ st'. pure (again st')) t)
    play-Gives st t q =
        Gives-bind (λ st' u. Q (again st') u) Q (play env set recording st t) _ (plays st t q)
          λ st' u q. q

    -- playback, from what `play` keeps
    pub playback-Gives :
        (ready : Bool) (st : State) (t : Trace)
        → Q (again st) t
        → Gives Q (playback env fds set recording ready st t)
    unfolding playback aaf_timeout
    playback-Gives ready st t q =
        let u : Trace = read_timer fds.timer_fd ∷ t in
        let begun : State = record st { is_running = true } in
        elim (Bool-cases st.is_running) [
          | inl run ↦ simp run (play-Gives st t q)
          | inr idle ↦ simp idle (elim (Bool-cases ready) [
            | inr quiet ↦ rw quiet q
            | inl fired ↦ rw fired (elim (Bool-cases (is_neg (env.ret u))) [
              | inl failed ↦ rw failed (left begun u (starts st t q))
              | inr read ↦ rw read (elim (Bool-cases (env.expirations u == 1)) [
                | inr more ↦ rw more tt
                | inl once ↦ rw once (play-Gives begun u (starts st t q))
              ])
            ])
          ])
        ]

module _ (env : Env) (a : Avtp) (fds : Fds) (set : Settings) (recording : Bool) (Otherwise : Type 0)
    (Q : Next → Trace → Type 0) (left : (st : State) (t : Trace) → Q (again st) t → Q (leave st) t)
    (polls : (st : State) (t : Trace) → Q (again st) t → Q (again st) (polled fds t))
    (keyed : (st : State) (t : Trace) → Q (again st) t → Q (again st) (read_key ∷ t))
    (receives : (st : State) (t : Trace)
      → Q (again st) (polled fds t)
      → Ends Otherwise Q
          (receive env a fds set (env.ready (polled fds t)).socket_ready st (polled fds t)))
    (plays : (before : State) (t : Trace)
      → Q (again before) t
      → (st : State) (u : Trace) → Q (again st) u
      → Ends Otherwise Q
          (playback env fds set recording (env.ready (polled fds t)).timer_ready st u)) where
  poll_exit-Ends :
      (ready : Bool) (st : State) (t : Trace)
      → Q (again st) t
      → Ends Otherwise Q (poll_exit env ready st t)
  unfolding poll_exit
  poll_exit-Ends true st t q = left st t q
  poll_exit-Ends false st t q = elim (Bool-cases (env.key (read_key ∷ t) == 27)) [
    | inl escape ↦ rw escape (left st (read_key ∷ t) (keyed st t q))
    | inr other ↦ rw other (keyed st t q)
  ]

  step-Ends :
      (st : State) (t : Trace)
      → Q (again st) t
      → Ends Otherwise Q (step env a fds set recording st t)
  unfolding step
  step-Ends st t q =
      let u : Trace = polled fds t in
      let ready = env.ready u in
      elim (Bool-cases (is_neg (env.ret u))) [
        | inl failed ↦ rw failed (left st u (polls st t q))
        | inr fine ↦ rw fine (
            continue-Ends Otherwise Q (poll_exit env ready.session_ready)
              (and_then (receive env a fds set ready.socket_ready st u)
                (continue_with (playback env fds set recording ready.timer_ready)))
              (continue-Ends Otherwise Q (playback env fds set recording ready.timer_ready)
                (receive env a fds set ready.socket_ready st u) (receives st t (polls st t q))
                (plays st t q))
              (poll_exit-Ends ready.session_ready))
      ]

  pub loop-Ends :
      (rounds : ℕ) (st : State) (t : Trace)
      → Q (again st) t
      → Ends Otherwise Q (loop env a fds set recording rounds st t)
  unfolding loop
  loop-Ends zero st t q = q
  loop-Ends (suc rounds) st t q =
      continue-Ends Otherwise Q (loop env a fds set recording rounds)
        (step env a fds set recording st t) (step-Ends st t q) (loop-Ends rounds)
