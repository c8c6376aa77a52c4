-- ===== src/Listener/Intake.antt =====
-- What queueing a packet keeps, `new_packet` keeps.
use tram.Prelude.{
  ℕ, ◌==◌, ◌∷◌, ℤ, pos, negsuc, is_neg, is_empty, ◌&&◌, Bool-cases, Option-cases, inl, inr,
}
use tram.Sys.{Timespec, Pdu, Env, Trace, clock_gettime, recv}
use tram.Sys.Outcomes.{Ends}
use tram.Settings.{Settings}
use tram.Avtp.{Avtp, timestamp}
use tram.Packet.{is_valid_packet}
use tram.Listener.{State, Fds, accept, note_drops, take_timed, take_packet, received, new_packet}
use tram.Listener.Packets.{after_recv}

module _ (env : Env) (fds : Fds) (set : Settings) (Otherwise : Type 0) (P : State → Trace → Type 0)
    (asks : (st : State) (t : Trace) → P st t → P st (clock_gettime ∷ t))
    (hears : (st : State) (t : Trace) → P st t → P st (after_recv fds set t))
    (expects : (seq : ℕ) (st : State) (t : Trace) → P st t → P (record st { expected_seq = seq }) t)
    (counts : (seq : ℕ) (st : State) (t : Trace) → P st t → P (note_drops seq st) t)
    (accepts : (pdu : Pdu) (arrival presentation : Timespec) (st : State) (t : Trace)
      → P st t
      → Ends Otherwise
          (λ (r, st') u. P st' u)
          (accept env fds set pdu arrival presentation st t)) where
  -- with any status
  abbrev Kept : ℤ × State → Trace → Type 0
  Kept (r, st) u = P st u

  take_timed-Ends :
      (pdu : Pdu) (arrival : Timespec) (seq : ℕ) (st : State) (timed : ℤ × Timespec) (t : Trace)
      → P st t
      → Ends Otherwise Kept (take_timed env fds set pdu arrival seq st timed t)
  unfolding take_timed
  take_timed-Ends pdu arrival seq st (pos n, presentation) t p =
      elim (Bool-cases ((n == 1) && is_empty st.samples)) [
        | inl late ↦ rw late p
        | inr timely ↦
            rw timely (accepts pdu arrival presentation (note_drops seq st) t (counts seq st t p))
      ]
  take_timed-Ends pdu arrival seq st (negsuc n, presentation) t p = p

  take_packet-Ends :
      (a : Avtp) (pdu : Pdu) (arrival : Timespec) (seq : ℕ) (st : State) (t : Trace)
      → P st t
      → Ends Otherwise Kept (take_packet env a fds set pdu arrival seq st t)
  unfolding take_packet
  take_packet-Ends a pdu arrival seq st t p = elim (Option-cases (a.aaf_get pdu.header timestamp)) [
    | inl e ↦ rw (e, take_packet) p
    | inr (stamp, e) ↦ rw (e, take_packet) (take_timed-Ends pdu arrival seq st _ t p)
  ]

  pub new_packet-Ends :
      (a : Avtp) (st : State) (t : Trace)
      → P st t
      → Ends Otherwise (λ (r, st') u. P st' u) (new_packet env a fds set st t)
  unfolding new_packet
  new_packet-Ends a st t p =
      let u : Trace = clock_gettime ∷ t in
      let v : Trace = recv fds.sk_fd set.pdu_size ∷ u in
      let verdict = is_valid_packet a (env.packet v).header set st.expected_seq in
      let judged = expects verdict.1 st v (hears st t p) in
      elim (Bool-cases (is_neg (env.ret u))) [
        | inl failed ↦ rw failed (asks st t p)
        | inr stamped ↦ rw stamped (elim (Bool-cases (received (env.ret v) set.pdu_size)) [
          | inr short ↦ rw short (hears st t p)
          | inl whole ↦ rw whole (elim (Bool-cases verdict.0) [
            | inr bad ↦ rw bad judged
            | inl good ↦ rw good (
                take_packet-Ends a (env.packet v) (env.clock u) st.expected_seq
                  (record st { expected_seq = verdict.1 }) v judged)
          ])
        ])
      ]
