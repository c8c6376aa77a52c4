-- ===== src/Listener/Refines.antt =====
-- The listener's loop runs the player.
use tram.Prelude.{
  ℕ, zero, suc, ◌≡◌, ◌==◌, Bool, true, false, List, [], ◌∷◌, is_neg, Bool-cases, inl, inr, refl,
}
use tram.Sys.{
  Env, Trace, Outcome, done, exited, faulted, M, and_then, read_key, poll, pcm_writei, read_timer,
  ◌>>=◌, pure,
}
use tram.Settings.{Settings}
use tram.Avtp.{Avtp}
use tram.Alsa
use tram.Playout.{Entry, play_fragment, aaf_timeout}
use tram.Listener.{
  State, Fds, Next, again, leave, new_packet, play, playback, poll_exit, receive, continue_with,
  step, loop,
}
use tram.Listener.Player.{Player, hand_over, here, next, InOrder, Reach-InOrder, nothing}
use tram.Listener.View.{
  heard, played, view, state_of, Fits, payload, Shows, Runs, Runs-bind, beside, queue_of,
  queue_after,
}
use tram.Listener.Loop.{initial}
use tram.Listener.Heard.{new_packet-Runs}

module _ (env : Env) (a : Avtp) (set : Settings) (p : Player) where
  module _ (fds : Fds) where
    play_fragment-Runs :
        (samples : List Entry) (frames : ℕ) (recording : Bool) (t : Trace)
        → Shows env a set p samples t
        → Runs env a set p (λ s. s) (play_fragment env samples frames recording t)
    unfolding play_fragment Alsa.write
    play_fragment-Runs [] frames recording t shows = ([], shows)
    play_fragment-Runs (x ∷ xs) frames recording t shows =
        let after = next shows (hand_over (view env (x ∷ xs) t) x.pcm_sample _ refl) in
        elim (Bool-cases (Alsa.is_epipe (env.ret (pcm_writei x.pcm_sample frames ∷ t)))) [
          | inl under ↦
              rw under
                (elim (Bool-cases recording) [ inl on ↦ rw on after | inr off ↦ rw off after ])
          | inr fine ↦
              rw fine
                (elim (Bool-cases recording) [ inl on ↦ rw on after | inr off ↦ rw off after ])
        ]

    module _ (recording : Bool) where
      play-Runs :
          (st : State) (t : Trace)
          → Shows env a set p st.samples t
          → Runs env a set p queue_of (play env set recording st t)
      unfolding play
      play-Runs st t shows =
          Runs-bind env a set p (λ s. s) queue_of _ _
            (play_fragment-Runs st.samples set.frames_per_pdu recording t shows)
            λ rest u shows. shows

      again-Runs :
          (st : State) (t : Trace)
          → Shows env a set p st.samples t
          → Runs env a set p queue_after ((play env set recording st >>= λ st'. pure (again st')) t)
      again-Runs st t shows =
          Runs-bind env a set p queue_of queue_after (play env set recording st t) _
            (play-Runs st t shows) λ st' u shows. shows

      playback-Runs :
          (ready : Bool) (st : State) (t : Trace)
          → Shows env a set p st.samples t
          → Runs env a set p queue_after (playback env fds set recording ready st t)
      unfolding playback aaf_timeout
      playback-Runs ready st t shows =
          let u : Trace = read_timer fds.timer_fd ∷ t in
          elim (Bool-cases st.is_running) [
            | inl run ↦ simp run (again-Runs st t shows)
            | inr idle ↦ simp idle (elim (Bool-cases ready) [
              | inr quiet ↦ rw quiet shows
              | inl fired ↦ rw fired (elim (Bool-cases (is_neg (env.ret u))) [
                | inl failed ↦ rw failed shows
                | inr read ↦ rw read (elim (Bool-cases (env.expirations u == 1)) [
                  | inr more ↦ rw more (st.samples, shows)
                  | inl once ↦ rw once (again-Runs (record st { is_running = true }) u shows)
                ])
              ])
            ])
          ]

      continue-Runs :
          (f : State → M Next) (r : Outcome Next)
          → Runs env a set p queue_after r
          → ((st : State) (u : Trace)
              → Shows env a set p st.samples u
              → Runs env a set p queue_after (f st u))
          → Runs env a set p queue_after (and_then r (continue_with f))
      continue-Runs f (done (again st) u) h g = g st u h
      continue-Runs f (done (leave st) u) h g = h
      continue-Runs f (exited c u) h g = h
      continue-Runs f (faulted x u) h g = h

      receive-Runs :
          (ready : Bool) (st : State) (t : Trace)
          → Shows env a set p st.samples t
          → Runs env a set p queue_after (receive env a fds set ready st t)
      unfolding receive
      receive-Runs false st t shows = shows
      receive-Runs true st t shows =
          Runs-bind env a set p (beside queue_of) queue_after (new_packet env a fds set st t) _
            (new_packet-Runs env a set p fds st t shows)
            λ (r, st') u shows. elim (Bool-cases (is_neg r)) [
              | inl failed ↦ rw failed shows
              | inr fine ↦ rw fine shows
            ]

      poll_exit-Runs :
          (ready : Bool) (st : State) (t : Trace)
          → Shows env a set p st.samples t
          → Runs env a set p queue_after (poll_exit env ready st t)
      unfolding poll_exit
      poll_exit-Runs true st t shows = shows
      poll_exit-Runs false st t shows = elim (Bool-cases (env.key (read_key ∷ t) == 27)) [
        | inl escape ↦ rw escape shows
        | inr other ↦ rw other shows
      ]

      step-Runs :
          (st : State) (t : Trace)
          → Shows env a set p st.samples t
          → Runs env a set p queue_after (step env a fds set recording st t)
      unfolding step
      step-Runs st t shows =
          let u : Trace = poll fds.sk_fd fds.timer_fd fds.session_tim_fd ∷ t in
          let ready = env.ready u in
          elim (Bool-cases (is_neg (env.ret u))) [
            | inl failed ↦ rw failed shows
            | inr polled ↦ rw polled (
                continue-Runs (poll_exit env ready.session_ready) _
                  (continue-Runs (playback env fds set recording ready.timer_ready)
                    (receive env a fds set ready.socket_ready st u)
                    (receive-Runs ready.socket_ready st u shows) (playback-Runs ready.timer_ready))
                  (poll_exit-Runs ready.session_ready))
          ]

      loop-Runs :
          (rounds : ℕ) (st : State) (t : Trace)
          → Shows env a set p st.samples t
          → Runs env a set p (λ n. (state_of n).samples) (loop env a fds set recording rounds st t)
      unfolding loop
      loop-Runs zero st t shows = shows
      loop-Runs (suc rounds) st t shows =
          continue-Runs (loop env a fds set recording rounds) (step env a fds set recording st t)
            (step-Runs st t shows) (loop-Runs rounds)

module _ (env : Env) (a : Avtp) (fds : Fds) (set : Settings) (recording : Bool) (rounds : ℕ) where
  -- From any state and history, and in any number of rounds, the listener's loop makes only the
  -- steps of the player: a PDU received whole is passed over or, only if it is of the stream and
  -- the format, has its samples queued last; and the samples in front of the queue are handed to
  -- the sound card. This holds of the calls made and the queue left where the loop is left or the
  -- rounds are used up, and of the calls made, with some queue, at an exit or a fault.
  pub loop-Reach :
      (st : State) (t : Trace)
      → Runs env a set
          (view env st.samples t)
          queue_after
          (loop env a fds set recording rounds st t)
  loop-Reach st t = loop-Runs env a set (view env st.samples t) fds recording rounds st t here

  -- The samples handed over and those queued are in order, at the end of a run.
  abbrev pub Ordered : Outcome Next → Type 0
  Ordered (done n u) = InOrder (Fits a set) (payload set) (view env (queue_after n) u)
  Ordered (exited c u) =
      (samples : List Entry) × InOrder (Fits a set) (payload set) (view env samples u)
  Ordered (faulted f u) =
      (samples : List Entry) × InOrder (Fits a set) (payload set) (view env samples u)

  Runs-Ordered :
      (p : Player) (r : Outcome Next)
      → InOrder (Fits a set) (payload set) p
      → Runs env a set p queue_after r
      → Ordered r
  Runs-Ordered p (done n u) ordered run = Reach-InOrder _ _ run ordered
  Runs-Ordered p (exited c u) ordered (samples, run) = (samples, Reach-InOrder _ _ run ordered)
  Runs-Ordered p (faulted f u) ordered (samples, run) = (samples, Reach-InOrder _ _ run ordered)

  -- Where no PDU has been received and nothing handed to the sound card before, then after any
  -- number of rounds of the listener's loop from its initial state the buffers handed to the sound
  -- card, followed by those queued, are the samples of some of the PDUs received whole, all of the
  -- stream and the format, in the order of their arrival and each once; at an exit or a fault this
  -- holds with some queue.
  pub loop-Ordered :
      (t : Trace)
      → heard env t ≡ []
      → played t ≡ []
      → Ordered (loop env a fds set recording rounds initial t)
  loop-Ordered t unheard unplayed =
      Runs-Ordered (view env initial.samples t) _ (rw (unheard, unplayed) nothing)
        (loop-Reach initial t)
