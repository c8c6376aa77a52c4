-- ===== src/Listener/Deaf.antt =====
-- The listener's loop on packets of other streams.
use tram.Prelude.{ℕ, ◌≡◌, true, false, Bool, [], ◌∷◌, is_neg, ap, refl, Bool-cases, inl, inr}
use tram.Sys.{Env, Trace, clock_gettime}
use tram.Sys.Outcomes.{Returns}
use tram.Sys.Descriptors.{same_fd}
use tram.Settings.{Settings}
use tram.Avtp.{Avtp}
use tram.Packet.Accept.{InStream}
use tram.Playout.Armed.{armed, HonestTimer}
use tram.Listener.{State, Fds, Next, again, received, new_packet, playback, loop}
use tram.Listener.Packets.{after_recv}
use tram.Listener.Passed.{new_packet-foreign}
use tram.Listener.View.{state_of, played}
use tram.Listener.Loop.{initial}
use tram.Listener.Rule.{polled, receive-Ends, loop-Ends}

-- A packet that comes whole is of another stream.
abbrev pub IsForeign : Env → Avtp → Fds → Settings → Trace → Type 0
IsForeign env a fds set t =
    received (env.ret (after_recv fds set t)) set.pdu_size ≡ true
    → ¬ InStream a (env.packet (after_recv fds set t)).header set

module _ (env : Env) (a : Avtp) (fds : Fds) (set : Settings) (k : ℕ) where
  -- nothing has been recorded, queued or played, and the packet timer is not armed
  abbrev pub Untouched : Next → Trace → Type 0
  Untouched n t = (state_of n ≡ initial) × (played t ≡ []) × (armed env k t ≡ false)

  -- A packet of another stream leaves all as it is.
  new_packet-Untouched :
      (st : State) (t : Trace)
      → IsForeign env a fds set t
      → Untouched (again st) t
      → Returns (λ (r, st') u. Untouched (again st') u) (new_packet env a fds set st t)
  unfolding new_packet
  new_packet-Untouched st t foreign (fresh, unplayed, unarmed) =
      elim (Bool-cases (is_neg (env.ret (clock_gettime ∷ t)))) [
        | inl failed ↦ rw failed (fresh, unplayed, unarmed)
        | inr stamped ↦ elim (Bool-cases (received (env.ret (after_recv fds set t)) set.pdu_size)) [
          | inr short ↦ rw (stamped, short) (fresh, unplayed, unarmed)
          | inl whole ↦
              rw
                (new_packet-foreign env a fds set st t
                  (record { clock_read = stamped; whole = whole }) (foreign whole))
                (fresh, unplayed, unarmed)
        ]
      ]

  module _ (honest : HonestTimer env k) (ours : same_fd k fds.timer_fd ≡ true) (recording : Bool)
      (foreign : (t : Trace)
        → (env.ready (polled fds t)).socket_ready ≡ true
        → IsForeign env a fds set (polled fds t)) where
    -- the timer is not reported ready
    playback-Untouched :
        (t : Trace) (st : State) (u : Trace)
        → armed env k t ≡ false
        → Untouched (again st) u
        → Returns Untouched
            (playback env fds set recording (env.ready (polled fds t)).timer_ready st u)
    unfolding playback
    playback-Untouched t st u unarmed q = elim (Bool-cases (env.ready (polled fds t)).timer_ready) [
      | inl fired ↦
          cc (honest.ready_armed fds.sk_fd fds.session_tim_fd fds.timer_fd t ours fired, unarmed)
      | inr quiet ↦ simp (quiet, ap (λ s. s.is_running) q.0) q
    ]

    -- Where every packet that comes whole is of another stream, and the packet timer is reported
    -- ready only if it is armed: the listener's loop, from its initial state with the timer unarmed
    -- and nothing played before, returns in any number of rounds, and has then recorded and queued
    -- nothing, expects the number 0 as before, and has handed nothing to the sound card.
    pub loop-Untouched :
        (rounds : ℕ) (t : Trace)
        → played t ≡ []
        → armed env k t ≡ false
        → Returns Untouched (loop env a fds set recording rounds initial t)
    loop-Untouched rounds t unplayed unarmed =
        loop-Ends env a fds set recording ⊥ Untouched (λ st t q. q) (λ st t q. q) (λ st t q. q)
          (λ st t q.
            receive-Ends env fds set Untouched (λ st t q. q) ⊥ a
              (env.ready (polled fds t)).socket_ready st (polled fds t) q
              λ ready. new_packet-Untouched st (polled fds t) (foreign t ready) q)
          (λ before t q st u. playback-Untouched t st u q.2) rounds initial t
          (refl, unplayed, unarmed)
