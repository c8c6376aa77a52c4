-- ===== src/Listener/Rounds.antt =====
-- The listener's loop plays each packet recorded once.
use tram.Prelude.{ℕ, suc, ◌+◌, ◌≡◌, Bool, List, [], ◌∷◌, length, ℤ, refl, arith}
use tram.Sys.{Timespec, Pdu, Env, Trace, malloc}
use tram.Settings.{Settings}
use tram.Stats.{push, sizeof_node, add_dropped}
use tram.Avtp.{Avtp}
use tram.Playout.{Entry, sizeof_entry, arm_first, schedule_sample}
use tram.Listener.{State, Fds, accept, note_drops, loop}
use tram.Listener.Packets.{Healthy}
use tram.Listener.Loop.{initial}
use tram.Listener.Balance.{writes, Balanced, Even, length-snoc, play-Balanced}
use tram.Listener.Intake.{new_packet-Ends}
use tram.Listener.Rule.{polled, receive-Ends, playback-Gives, loop-Ends}
use tram.Sys.Outcomes.{Gives, Gives-bind}

module _ (env : Env) (healthy : Healthy env) where
  -- the queue has one more entry, and nothing has been played
  abbrev Queued : List Entry → Trace → ℤ × List Entry → Trace → Type 0
  Queued samples t (r, samples') u =
      (writes u ≡ writes t) × (length samples' ≡ suc (length samples))

  schedule_sample-writes :
      (fd : ℤ) (tspec : Timespec) (pcm : List ℕ) (samples : List Entry) (len : ℕ) (t : Trace)
      → Gives (Queued samples t) (schedule_sample env fd tspec pcm samples len t)
  unfolding schedule_sample arm_first
  schedule_sample-writes fd tspec pcm [] len t =
      rw
        (
          healthy.room (malloc sizeof_entry ∷ t),
          healthy.room (malloc len ∷ malloc sizeof_entry ∷ t),
          healthy.timers fd tspec (malloc len ∷ malloc sizeof_entry ∷ t),
        )
        (refl, refl)
  schedule_sample-writes fd tspec pcm (x ∷ xs) len t =
      rw
        (
          healthy.room (malloc sizeof_entry ∷ t),
          healthy.room (malloc len ∷ malloc sizeof_entry ∷ t),
        )
        (refl, length-snoc (x ∷ xs) _)

  -- a state that is balanced, with any status
  abbrev Kept : ℤ × State → Trace → Type 0
  Kept (r, st) u = Balanced st u

  module _ (fds : Fds) (set : Settings) (pdu : Pdu) where
    accept-Balanced :
        (arrival presentation : Timespec) (st : State) (t : Trace)
        → Balanced st t
        → Gives Kept (accept env fds set pdu arrival presentation st t)
    unfolding accept push
    accept-Balanced arrival presentation st t even = rw (healthy.room (malloc sizeof_node ∷ t)) (
        Gives-bind (Queued st.samples t) Kept
          (schedule_sample env fds.timer_fd presentation pdu.avtp_payload st.samples set.data_len
            (malloc sizeof_node ∷ t))
          _
          (schedule_sample-writes fds.timer_fd presentation pdu.avtp_payload st.samples set.data_len
            (malloc sizeof_node ∷ t))
          λ (r, samples) u (same, more).
            let e : suc (length st.stats.stack) ≡ writes u + length samples =
              omega (arith, even, same, more) in
            e)

  note_drops-Balanced :
      (seq : ℕ) (st : State) (t : Trace) → Balanced st t → Balanced (note_drops seq st) t
  unfolding note_drops add_dropped
  note_drops-Balanced seq st t even = ground arith

  module _ (a : Avtp) (fds : Fds) (set : Settings) where
    loop_from :
        (recording : Bool) (rounds : ℕ) (st : State) (t : Trace)
        → Balanced st t
        → Gives Even (loop env a fds set recording rounds st t)
    loop_from recording =
        loop-Ends env a fds set recording Unit Even (λ st t even. even) (λ st t even. even)
          (λ st t even. even)
          (λ st t even.
            receive-Ends env fds set Even (λ st t even. even) Unit a
              (env.ready (polled fds t)).socket_ready st (polled fds t) even
              λ _.
                new_packet-Ends env fds set Unit Balanced (λ st t even. even) (λ st t even. even)
                  (λ seq st t even. even) note_drops-Balanced (accept-Balanced fds set) a st
                  (polled fds t) even)
          (λ before t _.
            playback-Gives env fds set Even (λ st t even. even) recording
              (play-Balanced env set recording) (λ st t even. even)
              (env.ready (polled fds t)).timer_ready)

    -- If memory can be allocated and timers can be set, and no fragment has been played before,
    -- then whenever the listener's loop, from its initial state, uses up its rounds or leaves for
    -- its end, as many packets are recorded in the statistics as fragments have been handed to the
    -- sound card or are still queued.
    pub loop-Even :
        (recording : Bool) (rounds : ℕ) (t : Trace)
        → writes t ≡ 0
        → Gives Even (loop env a fds set recording rounds initial t)
    loop-Even recording rounds t none_yet = loop_from recording rounds initial t (rw none_yet refl)
