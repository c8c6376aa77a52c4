-- ===== src/Listener/Heard.antt =====
-- Receiving a packet runs the player.
use tram.Prelude.{
  ℕ, ◌≡◌, ◌==◌, List, [], ◌∷◌, ◌++◌, map, ℤ, pos, negsuc, is_neg, is_empty, ◌&&◌, Bool-cases,
  Option-cases, inl, inr, refl, ap, arith,
}
use tram.Sys.{Timespec, Pdu, Env, Trace, malloc, recv, clock_gettime, timerfd_settime}
use tram.Settings.{Settings}
use tram.Stats.{push, sizeof_node}
use tram.Avtp.{Avtp, timestamp}
use tram.Packet.{is_valid_packet}
use tram.Packet.Accept.{is_valid_packet_iff}
use tram.Playout.{Entry, sizeof_entry, arm_first, schedule_sample}
use tram.Listener.{State, Fds, accept, note_drops, take_timed, take_packet, received, new_packet}
use tram.Listener.Packets.{sample}
use tram.Listener.Player.{Player, ignore, enter, next}
use tram.Listener.View.{Shows, Runs, Runs-bind, beside, queue_of}

map-snoc :
    (xs : List Entry) (e : Entry)
    → map (λ e. e.pcm_sample) (xs ++ (e ∷ [])) ≡ map (λ e. e.pcm_sample) xs ++ (e.pcm_sample ∷ [])
map-snoc [] e = refl
map-snoc (x ∷ xs) e = ap (λ ys. x.pcm_sample ∷ ys) (map-snoc xs e)

module _ (env : Env) (a : Avtp) (set : Settings) (p : Player) where
  arm_first-Runs :
      (fd : ℤ) (tspec : Timespec) (samples : List Entry) (entry : Entry) (t : Trace)
      → Shows env a set p samples t
      → Shows env a set p (samples ++ (entry ∷ [])) t
      → Runs env a set p (beside (λ s. s)) (arm_first env fd tspec samples entry t)
  unfolding arm_first
  arm_first-Runs fd tspec [] entry t skipped kept =
      elim (Bool-cases (is_neg (env.ret (timerfd_settime fd tspec ∷ t)))) [
        | inl failed ↦ rw failed skipped
        | inr set ↦ rw set kept
      ]
  arm_first-Runs fd tspec (x ∷ xs) entry t skipped kept = kept

  module _ (pdu : Pdu) (st : State) (t : Trace) (skipped : Shows env a set p st.samples t)
      (kept : (tspec : Timespec)
        → Shows env a set p (st.samples ++ (sample set pdu tspec ∷ [])) t) where
    schedule_sample-Runs :
        (fd : ℤ) (tspec : Timespec)
        → Runs env a set p (beside (λ s. s)) (
            schedule_sample env fd tspec pdu.avtp_payload st.samples set.data_len
              (malloc sizeof_node ∷ t))
    unfolding schedule_sample
    schedule_sample-Runs fd tspec =
        let u : Trace = malloc sizeof_entry ∷ malloc sizeof_node ∷ t in
        let v : Trace = malloc set.data_len ∷ u in
        elim (Bool-cases (env.allocated u)) [
          | inl got ↦ rw got (elim (Bool-cases (env.allocated v)) [
            | inl copied ↦ rw copied (arm_first-Runs fd tspec st.samples _ v skipped (kept tspec))
            | inr failed ↦ rw failed (st.samples, skipped)
          ])
          | inr failed ↦ rw failed skipped
        ]

    accept-Runs :
        (fds : Fds) (arrival presentation : Timespec)
        → Runs env a set p (beside queue_of) (accept env fds set pdu arrival presentation st t)
    unfolding accept push
    accept-Runs fds arrival presentation =
        elim (Bool-cases (env.allocated (malloc sizeof_node ∷ t))) [
          | inr failed ↦ rw failed skipped
          | inl got ↦ rw got (
              Runs-bind env a set p (beside (λ s. s)) (beside queue_of) _ _
                (schedule_sample-Runs fds.timer_fd presentation) λ (r, samples) u shows. shows)
        ]

    note_drops-samples : (seq : ℕ) → (note_drops seq st).samples ≡ st.samples
    unfolding note_drops
    note_drops-samples seq = ground arith

  module _ (fds : Fds) where
    take_timed-Runs :
        (pdu : Pdu) (arrival : Timespec) (seq : ℕ) (st : State) (timed : ℤ × Timespec) (t : Trace)
        → Shows env a set p st.samples t
        → ((tspec : Timespec) → Shows env a set p (st.samples ++ (sample set pdu tspec ∷ [])) t)
        → Runs env a set p (beside queue_of) (take_timed env fds set pdu arrival seq st timed t)
    unfolding take_timed
    take_timed-Runs pdu arrival seq st (pos n, presentation) t skipped kept =
        let same = note_drops-samples pdu st t skipped kept seq in
        elim (Bool-cases ((n == 1) && is_empty st.samples)) [
          | inl late ↦ rw late skipped
          | inr timely ↦ rw timely (
              accept-Runs pdu (note_drops seq st) t (rw same skipped)
                (λ tspec. rw same (kept tspec)) fds arrival presentation)
        ]
    take_timed-Runs pdu arrival seq st (negsuc n, presentation) t skipped kept = skipped

    take_packet-Runs :
        (pdu : Pdu) (arrival : Timespec) (seq : ℕ) (st : State) (t : Trace)
        → Shows env a set p st.samples t
        → ((tspec : Timespec) → Shows env a set p (st.samples ++ (sample set pdu tspec ∷ [])) t)
        → Runs env a set p (beside queue_of) (take_packet env a fds set pdu arrival seq st t)
    unfolding take_packet
    take_packet-Runs pdu arrival seq st t skipped kept =
        elim (Option-cases (a.aaf_get pdu.header timestamp)) [
          | inl e ↦ rw (e, take_packet) skipped
          | inr (stamp, e) ↦
              rw (e, take_packet) (take_timed-Runs pdu arrival seq st _ t skipped kept)
        ]

    pub new_packet-Runs :
        (st : State) (t : Trace)
        → Shows env a set p st.samples t
        → Runs env a set p (beside queue_of) (new_packet env a fds set st t)
    unfolding new_packet
    new_packet-Runs st t shows =
        let u : Trace = clock_gettime ∷ t in
        let v : Trace = recv fds.sk_fd set.pdu_size ∷ u in
        let pdu : Pdu = env.packet v in
        let verdict = is_valid_packet a pdu.header set st.expected_seq in
        elim (Bool-cases (is_neg (env.ret u))) [
          | inl failed ↦ rw failed shows
          | inr stamped ↦ rw stamped (elim (Bool-cases (received (env.ret v) set.pdu_size)) [
            | inr short ↦ rw short (rw short shows)
            | inl whole ↦
                let skipped : Shows env a set p st.samples v =
                  rw whole (next shows (ignore _ pdu)) in
                rw whole (elim (Bool-cases verdict.0) [
                  | inr bad ↦ rw bad skipped
                  | inl good ↦
                      let (stream, format, seq) =
                        (is_valid_packet_iff a pdu.header set st.expected_seq).0 good in
                      rw good (
                        take_packet-Runs pdu (env.clock u) st.expected_seq
                          (record st { expected_seq = verdict.1 }) v skipped
                          λ tspec.
                            rw (whole, map-snoc st.samples (sample set pdu tspec))
                              (next shows (enter _ pdu (stream, format))))
                ])
          ])
        ]
