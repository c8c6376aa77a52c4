-- ===== src/Listener/Owned.antt =====
-- The memory that the listener's loop holds.
use tram.Prelude.{ℕ, suc, ◌+◌, ◌*◌, ◌≡◌, Bool, List, [], ◌∷◌, length, ℤ, refl, arith}
use tram.Sys.{Timespec, Pdu, Env, Trace, malloc, free}
use tram.Sys.Outcomes.{Gives, Gives-bind}
use tram.Settings.{Settings}
use tram.Stats.{push, sizeof_node, add_dropped}
use tram.Avtp.{Avtp}
use tram.Alsa
use tram.Playout.{Entry, sizeof_entry, arm_first, schedule_sample, play_fragment}
use tram.Listener.{State, Fds, Next, again, leave, accept, note_drops, play, loop}
use tram.Listener.Packets.{Healthy}
use tram.Listener.Balance.{length-snoc}
use tram.Listener.Rule.{polled, receive-Ends, playback-Gives, loop-Ends}
use tram.Listener.Intake.{new_packet-Ends}

abbrev pub mallocs : Trace → ℕ
mallocs [] = 0
mallocs (malloc size ∷ t) = suc (mallocs t)
mallocs (_ ∷ t) = mallocs t

abbrev pub freed : Trace → ℕ
freed [] = 0
freed (free ∷ t) = suc (freed t)
freed (_ ∷ t) = freed t

-- What has been allocated and not freed is two blocks for each entry queued, and one for each
-- packet recorded.
abbrev pub Owns : State → Trace → Type 0
Owns st t = mallocs t ≡ freed t + (2 * length st.samples + length st.stats.stack)

-- both ways out of a round
abbrev pub Owned : Next → Trace → Type 0
Owned (again st) u = Owns st u
Owned (leave st) u = Owns st u

module _ (env : Env) (healthy : Healthy env) where
  -- one more entry, in two blocks
  abbrev Queued : List Entry → Trace → ℤ × List Entry → Trace → Type 0
  Queued samples t (r, samples') u =
      (mallocs u ≡ suc (suc (mallocs t)))
      × (freed u ≡ freed t)
      × (length samples' ≡ suc (length samples))

  schedule_sample-Queued :
      (fd : ℤ) (tspec : Timespec) (pcm : List ℕ) (samples : List Entry) (len : ℕ) (t : Trace)
      → Gives (Queued samples t) (schedule_sample env fd tspec pcm samples len t)
  unfolding schedule_sample arm_first
  schedule_sample-Queued fd tspec pcm [] len t =
      rw
        (
          healthy.room (malloc sizeof_entry ∷ t),
          healthy.room (malloc len ∷ malloc sizeof_entry ∷ t),
          healthy.timers fd tspec (malloc len ∷ malloc sizeof_entry ∷ t),
        )
        (refl, refl, refl)
  schedule_sample-Queued fd tspec pcm (x ∷ xs) len t =
      rw
        (
          healthy.room (malloc sizeof_entry ∷ t),
          healthy.room (malloc len ∷ malloc sizeof_entry ∷ t),
        )
        (refl, refl, length-snoc (x ∷ xs) _)

  accept-Owns :
      (fds : Fds) (set : Settings) (pdu : Pdu) (arrival presentation : Timespec) (st : State)
      (t : Trace)
      → Owns st t
      → Gives (λ (r, st') u. Owns st' u) (accept env fds set pdu arrival presentation st t)
  unfolding accept push
  accept-Owns fds set pdu arrival presentation st t owns =
      rw (healthy.room (malloc sizeof_node ∷ t)) (
        Gives-bind (Queued st.samples (malloc sizeof_node ∷ t)) (λ (r, st') u. Owns st' u)
          (schedule_sample env fds.timer_fd presentation pdu.avtp_payload st.samples set.data_len
            (malloc sizeof_node ∷ t))
          _
          (schedule_sample-Queued fds.timer_fd presentation pdu.avtp_payload st.samples set.data_len
            (malloc sizeof_node ∷ t))
          λ (r, samples) u (two, same, more).
            let e : mallocs u ≡ freed u + (2 * length samples + suc (length st.stats.stack)) =
              omega (arith, owns, two, same, more) in
            e)

  note_drops-Owns : (seq : ℕ) (st : State) (t : Trace) → Owns st t → Owns (note_drops seq st) t
  unfolding note_drops add_dropped
  note_drops-Owns seq st t owns = ground arith

  play_fragment-Frees :
      (samples : List Entry) (frames : ℕ) (recording : Bool) (t : Trace)
      → Gives
          (λ rest u.
            (mallocs u ≡ mallocs t) × (freed u + 2 * length rest ≡ freed t + 2 * length samples))
          (play_fragment env samples frames recording t)
  unfolding play_fragment Alsa.write
  play_fragment-Frees [] frames recording t = tt
  play_fragment-Frees (x ∷ xs) frames recording t = ground arith

  play-Owns :
      (set : Settings) (recording : Bool) (st : State) (t : Trace)
      → Owns st t
      → Gives Owns (play env set recording st t)
  unfolding play
  play-Owns set recording st t owns =
      Gives-bind
        (λ rest u.
          (mallocs u ≡ mallocs t) × (freed u + 2 * length rest ≡ freed t + 2 * length st.samples))
        Owns _ _ (play_fragment-Frees st.samples set.frames_per_pdu recording t)
        λ rest u (same, less). omega (arith, owns, same, less)

  module _ (a : Avtp) (fds : Fds) (set : Settings) (recording : Bool) where
    -- If memory can be allocated and timers can be set, then whenever the listener's loop, from a
    -- state where the blocks allocated and not freed are two for each entry queued and one for
    -- each packet recorded, uses up its rounds or leaves for its end, they are so again.
    pub loop-Owned :
        (rounds : ℕ) (st : State) (t : Trace)
        → Owns st t
        → Gives Owned (loop env a fds set recording rounds st t)
    loop-Owned =
        loop-Ends env a fds set recording Unit Owned (λ st t owns. owns) (λ st t owns. owns)
          (λ st t owns. owns)
          (λ st t owns.
            receive-Ends env fds set Owned (λ st t owns. owns) Unit a
              (env.ready (polled fds t)).socket_ready st (polled fds t) owns
              λ _.
                new_packet-Ends env fds set Unit Owns (λ st t owns. owns) (λ st t owns. owns)
                  (λ seq st t owns. owns) note_drops-Owns (accept-Owns fds set) a st (polled fds t)
                  owns)
          (λ before t _.
            playback-Gives env fds set Owned (λ st t owns. owns) recording (play-Owns set recording)
              (λ st t owns. owns) (env.ready (polled fds t)).timer_ready)
