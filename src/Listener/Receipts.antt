-- ===== src/Listener/Receipts.antt =====
-- How many packets the listener has asked for, and what its calls show of them.
use mathlib.Core.List.{append_assoc}
use tram.Prelude.{
  ℕ, suc, ◌≡◌, ◌++◌, ◌∙◌, map, ◌==◌, Bool, List, [], ◌∷◌, ℤ, pos, negsuc, is_empty, ◌&&◌,
  Bool-cases, Option-cases, inl, inr, refl, arith,
}
use tram.Sys.{Timespec, Pdu, Env, Trace, Outcome, malloc, recv, clock_gettime}
use tram.Sys.Outcomes.{Gives, Gives-bind, Gives-map}
use tram.Settings.{Settings}
use tram.Stats.{push, sizeof_node}
use tram.Avtp.{Avtp, timestamp}
use tram.Packet.{is_valid_packet}
use tram.Alsa
use tram.Playout.{Entry, arm_first, schedule_sample, play_fragment}
use tram.Listener.{State, Fds, accept, note_drops, take_timed, take_packet, new_packet}
use tram.Listener.Packets.{Delivered, after_recv}
use tram.Listener.View.{heard, played}

-- how many packets have been asked for
abbrev pub receipts : Trace → ℕ
receipts [] = 0
receipts (recv fd size ∷ t) = suc (receipts t)
receipts (_ ∷ t) = receipts t

-- the samples of a queue
abbrev pub pcm : List Entry → List (List ℕ)
pcm samples = map (λ e. e.pcm_sample) samples

-- from `t` to `u` no packet was asked for and nothing handed to the sound card
abbrev pub Same : Env → Trace → Trace → Type 0
Same env t u = (receipts u ≡ receipts t) × (heard env u ≡ heard env t) × (played u ≡ played t)

-- from `t` to `u` one whole packet was asked for, and nothing handed to the sound card
abbrev pub Heard : Env → Pdu → Trace → Trace → Type 0
Heard env pdu t u =
    (receipts u ≡ suc (receipts t))
    × (heard env u ≡ heard env t ++ (pdu ∷ []))
    × (played u ≡ played t)

abbrev Quiet : Env → {A : Type 0} → Trace → Outcome A → Type 0
Quiet env t r = Gives (λ _ u. Same env t u) r

pub none_heard : (env : Env) (t : Trace) → receipts t ≡ 0 → heard env t ≡ []
none_heard env [] none_yet = refl
none_heard env (recv fd size ∷ t) none_yet = absurd (omega (arith, none_yet))
none_heard env (_ ∷ t) none_yet = none_heard env t none_yet

module _ (env : Env) where
  schedule_sample-Quiet :
      (fd : ℤ) (tspec : Timespec) (pcm : List ℕ) (samples : List Entry) (len : ℕ) (t : Trace)
      → Quiet env t (schedule_sample env fd tspec pcm samples len t)
  unfolding schedule_sample arm_first
  schedule_sample-Quiet fd tspec pcm samples len t = ground arith

  accept-Quiet :
      (fds : Fds) (set : Settings) (pdu : Pdu) (arrival presentation : Timespec) (st : State)
      (t : Trace)
      → Quiet env t (accept env fds set pdu arrival presentation st t)
  unfolding accept push
  accept-Quiet fds set pdu arrival presentation st t =
      elim (Bool-cases (env.allocated (malloc sizeof_node ∷ t))) [
        | inr failed ↦ rw failed (refl, refl, refl)
        | inl got ↦ rw got (
            Gives-bind (λ _ u. Same env t u) (λ _ u. Same env t u) _ _
              (schedule_sample-Quiet fds.timer_fd presentation pdu.avtp_payload st.samples
                set.data_len (malloc sizeof_node ∷ t))
              λ r u e. e)
      ]

  take_timed-Quiet :
      (fds : Fds) (set : Settings) (pdu : Pdu) (arrival : Timespec) (seq : ℕ) (st : State)
      (timed : ℤ × Timespec) (t : Trace)
      → Quiet env t (take_timed env fds set pdu arrival seq st timed t)
  unfolding take_timed
  take_timed-Quiet fds set pdu arrival seq st (pos n, presentation) t =
      elim (Bool-cases ((n == 1) && is_empty st.samples)) [
        | inl late ↦ rw late (refl, refl, refl)
        | inr timely ↦
            rw timely (accept-Quiet fds set pdu arrival presentation (note_drops seq st) t)
      ]
  take_timed-Quiet fds set pdu arrival seq st (negsuc n, presentation) t = (refl, refl, refl)

  take_packet-Quiet :
      (a : Avtp) (fds : Fds) (set : Settings) (pdu : Pdu) (arrival : Timespec) (seq : ℕ)
      (st : State) (t : Trace)
      → Quiet env t (take_packet env a fds set pdu arrival seq st t)
  unfolding take_packet
  take_packet-Quiet a fds set pdu arrival seq st t =
      elim (Option-cases (a.aaf_get pdu.header timestamp)) [
        | inl e ↦ rw (e, take_packet) (refl, refl, refl)
        | inr (stamp, e) ↦ rw (e, take_packet) (take_timed-Quiet fds set pdu arrival seq st _ t)
      ]

  module _ (fds : Fds) (set : Settings) (t : Trace) (delivered : Delivered env fds set t) where
    after_recv-Heard :
        (u : Trace)
        → Same env (after_recv fds set t) u
        → Heard env (env.packet (after_recv fds set t)) t u
    after_recv-Heard u (asked, heard_is, played_is) =
        (asked, heard_is ∙ rw (delivered.whole) refl, played_is)

    pub new_packet-Heard :
        (a : Avtp) (st : State)
        → Gives
            (λ _ u. Heard env (env.packet (after_recv fds set t)) t u)
            (new_packet env a fds set st t)
    unfolding new_packet
    new_packet-Heard a st =
        let pdu : Pdu = env.packet (after_recv fds set t) in
        let verdict = is_valid_packet a pdu.header set st.expected_seq in
        rw (delivered.clock_read, delivered.whole)
          (Gives-map (λ _ u. Same env (after_recv fds set t) u) _ (λ _. after_recv-Heard) _
            (elim (Bool-cases verdict.0) [
              | inr bad ↦ rw bad (refl, refl, refl)
              | inl good ↦ rw good (
                  take_packet-Quiet a fds set pdu (env.clock (clock_gettime ∷ t)) st.expected_seq
                    (record st { expected_seq = verdict.1 }) (after_recv fds set t))
            ]))

  -- What is played leaves the front of the queue.
  pub play_fragment-Plays :
      (samples : List Entry) (frames : ℕ) (recording : Bool) (t : Trace)
      → Gives
          (λ rest u.
            (receipts u ≡ receipts t)
            × (heard env u ≡ heard env t)
            × (played u ++ pcm rest ≡ played t ++ pcm samples))
          (play_fragment env samples frames recording t)
  unfolding play_fragment Alsa.write
  play_fragment-Plays [] frames recording t = tt
  play_fragment-Plays (x ∷ xs) frames recording t =
      ground (arith, append_assoc (played t) (x.pcm_sample ∷ []) (pcm xs))
