-- ===== src/Listener/Receive.antt =====
-- A packet received leaves the queue and the timer in step.
use tram.Prelude.{
  ℕ, ◌≡◌, ◌==◌, true, false, List, [], ◌∷◌, ◌++◌, is_empty, ℤ, pos, negsuc, is_neg, ◌&&◌, ◌∙◌, sym,
  arith, refl, Bool-cases, Option-cases, inl, inr,
}
use tram.Sys.{Timespec, Pdu, Env, Trace, malloc, timerfd_settime, clock_gettime, recv}
use tram.Settings.{Settings}
use tram.Stats.{push, sizeof_node}
use tram.Packet.{is_valid_packet}
use tram.Avtp.{Avtp, timestamp}
use tram.Playout.{Entry, sizeof_entry, arm_first, schedule_sample}
use tram.Playout.Armed.{armed}
use tram.Listener.{State, Fds, accept, note_drops, take_timed, take_packet, new_packet, received}
use tram.Listener.Safe.{Inv, Safe, Safe-bind}

module _ (env : Env) (k : ℕ) where
  -- What a result other than an error leaves of the queue and the timer.
  abbrev Scheduled : List Entry → Trace → ℤ × List Entry → Trace → Type 0
  Scheduled samples t (r, samples') u =
      is_neg r ≡ false
      → (is_empty samples' ≡ false) × (is_empty samples ≡ false → armed env k u ≡ armed env k t)

  is_empty-snoc : (xs : List Entry) (x : Entry) → is_empty (xs ++ (x ∷ [])) ≡ false
  is_empty-snoc [] x = refl
  is_empty-snoc (y ∷ xs) x = refl

  arm_first-Scheduled :
      (fd : ℤ) (tspec : Timespec) (samples : List Entry) (entry : Entry) (t v : Trace)
      → armed env k v ≡ armed env k t
      → Safe env k (Scheduled samples t) (arm_first env fd tspec samples entry v)
  unfolding arm_first
  arm_first-Scheduled fd tspec [] entry t v same =
      elim (Bool-cases (is_neg (env.ret (timerfd_settime fd tspec ∷ v)))) [
        | inl failed ↦ rw failed (λ h. cc)
        | inr set ↦ rw set (λ _. (refl, λ h. cc))
      ]
  arm_first-Scheduled fd tspec (x ∷ xs) entry t v same = λ _. (refl, λ _. same)

  schedule_sample-Scheduled :
      (fd : ℤ) (tspec : Timespec) (pcm : List ℕ) (samples : List Entry) (len : ℕ) (t v : Trace)
      → armed env k v ≡ armed env k t
      → Safe env k (Scheduled samples t) (schedule_sample env fd tspec pcm samples len v)
  unfolding schedule_sample
  schedule_sample-Scheduled fd tspec pcm samples len t v same =
      let u : Trace = malloc sizeof_entry ∷ v in
      elim (Bool-cases (env.allocated u)) [
        | inl got ↦ rw got (elim (Bool-cases (env.allocated (malloc len ∷ u))) [
          | inl copied ↦ rw copied (arm_first-Scheduled fd tspec samples _ t (malloc len ∷ u) same)
          | inr failed ↦ rw failed (refl, failed)
        ])
        | inr failed ↦ rw failed (λ h. cc)
      ]

  -- What a round's first part leaves, unless it fails.
  abbrev pub Received : Trace → ℤ × State → Trace → Type 0
  Received t (r, st) u =
      is_neg r ≡ false → Inv env k st u × (armed env k t ≡ true → armed env k u ≡ true)

  unchanged :
      {st : State} {t v : Trace}
      → Inv env k st t
      → armed env k v ≡ armed env k t
      → Inv env k st v × (armed env k t ≡ true → armed env k v ≡ true)
  unchanged inv same = (
    record {
      running_has = inv.running_has;
      armed_has = λ on. inv.armed_has (sym same ∙ on);
      running_unarmed = λ run. same ∙ inv.running_unarmed run;
    },
    λ on. same ∙ on,
  )

  note_drops-Inv :
      (seq : ℕ) (st : State) (t : Trace) → Inv env k st t → Inv env k (note_drops seq st) t
  unfolding note_drops
  note_drops-Inv seq st t inv = ground arith

  module _ (a : Avtp) (fds : Fds) (set : Settings) where
    accept-Received :
        (pdu : Pdu) (arrival presentation : Timespec) (st : State) (t v : Trace)
        → Inv env k st t
        → armed env k v ≡ armed env k t
        → Safe env k (Received t) (accept env fds set pdu arrival presentation st v)
    unfolding accept push
    accept-Received pdu arrival presentation st t v inv same =
        elim (Bool-cases (env.allocated (malloc sizeof_node ∷ v))) [
          | inr failed ↦ rw failed (λ h. cc)
          | inl got ↦ rw got (
              Safe-bind env k (Scheduled st.samples t) (Received t) _ _
                (schedule_sample-Scheduled fds.timer_fd presentation pdu.avtp_payload st.samples
                  set.data_len t (malloc sizeof_node ∷ v) same)
                λ (r, samples) u sch h.
                  let (has, kept) = sch (ground arith) in
                  (
                    record {
                      running_has = λ _. has;
                      armed_has = λ _. has;
                      running_unarmed = λ run. kept (inv.running_has run) ∙ inv.running_unarmed run;
                    },
                    λ on. kept (inv.armed_has on) ∙ on,
                  ))
        ]

    take_timed-Received :
        (pdu : Pdu) (arrival : Timespec) (seq : ℕ) (st : State) (timed : ℤ × Timespec) (t v : Trace)
        → Inv env k st t
        → armed env k v ≡ armed env k t
        → Safe env k (Received t) (take_timed env fds set pdu arrival seq st timed v)
    unfolding take_timed
    take_timed-Received pdu arrival seq st (pos n, presentation) t v inv same =
        elim (Bool-cases ((n == 1) && is_empty st.samples)) [
          | inl late ↦ rw late (λ _. unchanged inv same)
          | inr timely ↦ rw timely (
              accept-Received pdu arrival presentation (note_drops seq st) t v
                (note_drops-Inv seq st t inv) same)
        ]
    take_timed-Received pdu arrival seq st (negsuc n, presentation) t v inv same = λ h. cc

    take_packet-Received :
        (pdu : Pdu) (arrival : Timespec) (seq : ℕ) (st : State) (t v : Trace)
        → Inv env k st t
        → armed env k v ≡ armed env k t
        → Safe env k (Received t) (take_packet env a fds set pdu arrival seq st v)
    unfolding take_packet
    take_packet-Received pdu arrival seq st t v inv same =
        elim (Option-cases (a.aaf_get pdu.header timestamp)) [
          | inl e ↦ rw (e, take_packet) (λ h. cc)
          | inr (stamp, e) ↦
              rw (e, take_packet) (take_timed-Received pdu arrival seq st _ t v inv same)
        ]

    pub new_packet-Received :
        (st : State) (t : Trace)
        → Inv env k st t
        → Safe env k (Received t) (new_packet env a fds set st t)
    unfolding new_packet
    new_packet-Received st t inv =
        let u : Trace = clock_gettime ∷ t in
        let v : Trace = recv fds.sk_fd set.pdu_size ∷ u in
        let verdict = is_valid_packet a (env.packet v).header set st.expected_seq in
        let st' : State = record st { expected_seq = verdict.1 } in
        let inv' : Inv env k st' t = record {
          running_has = inv.running_has;
          armed_has = inv.armed_has;
          running_unarmed = inv.running_unarmed;
        } in
        elim (Bool-cases (is_neg (env.ret u))) [
          | inl failed ↦ rw failed (λ h. cc)
          | inr stamped ↦ rw stamped (elim (Bool-cases (received (env.ret v) set.pdu_size)) [
            | inr short ↦ rw short (λ h. cc)
            | inl whole ↦ rw whole (elim (Bool-cases verdict.0) [
              | inr bad ↦ rw bad (λ _. unchanged inv' refl)
              | inl good ↦ rw good (
                  take_packet-Received (env.packet v) (env.clock u) st.expected_seq st' t v inv'
                    refl)
            ])
          ])
        ]
