-- ===== src/Listener/Due.antt =====
-- For which time the packet timer is set, and what a packet received does to it.
use tram.Prelude.{
  ℕ, ◌≡◌, ◌==◌, ◌&&◌, Bool, true, false, none, List, [], ◌∷◌, ◌++◌, is_empty, ℤ, pos, negsuc,
  is_neg, Bool-cases, Option-cases, inl, inr, refl, arith, ◌∙◌,
}
use tram.Sys.{Timespec, Pdu, Env, Trace, malloc, timerfd_settime, clock_gettime, recv}
use tram.Sys.Outcomes.{Gives, Gives-bind}
use tram.Sys.Descriptors.{same_fd}
use tram.Settings.{Settings}
use tram.Stats.{push, sizeof_node}
use tram.Avtp.{Avtp, timestamp}
use tram.Packet.{is_valid_packet}
use tram.Playout.{Entry, sizeof_entry, arm_first, schedule_sample}
use tram.Playout.Deadline.{deadline, first_due}
use tram.Listener.{
  State, Fds, Next, again, leave, accept, note_drops, take_timed, take_packet, new_packet, received,
  receive,
}

module _ (env : Env) (k : ℕ) where
  -- While playback runs, the timer is not set and there is more to play; otherwise it is set for
  -- the first of the queue.
  abbrev pub InTime : (is_running : Bool) → List Entry → Trace → Type 0
  InTime true samples t = (deadline env k t ≡ none) × (is_empty samples ≡ false)
  InTime false samples t = deadline env k t ≡ first_due samples

  abbrev pub Due : Next → Trace → Type 0
  Due (again st) t = InTime st.is_running st.samples t
  Due (leave st) t = Unit

  -- what a part with a status leaves, unless it fails
  abbrev Scheduled : (is_running : Bool) → ℤ × List Entry → Trace → Type 0
  Scheduled run (r, samples) u = is_neg r ≡ false → InTime run samples u

  abbrev Received : ℤ × State → Trace → Type 0
  Received (r, st) u = is_neg r ≡ false → InTime st.is_running st.samples u

  -- calls that leave the timer alone
  pub kept :
      (run : Bool) (samples : List Entry) (t u : Trace)
      → deadline env k u ≡ deadline env k t
      → InTime run samples t
      → InTime run samples u
  kept true samples t u same (unset, has) = (same ∙ unset, has)
  kept false samples t u same due = same ∙ due

  queued :
      (run : Bool) (x : Entry) (xs : List Entry) (entry : Entry) (t : Trace)
      → InTime run (x ∷ xs) t
      → InTime run ((x ∷ xs) ++ (entry ∷ [])) t
  queued true x xs entry t due = due
  queued false x xs entry t due = due

  module _ (fd : ℤ) (ours : same_fd k fd ≡ true) where
    arm_first-Scheduled :
        (run : Bool) (tspec : Timespec) (samples : List Entry) (pcm_sample : List ℕ) (t : Trace)
        → InTime run samples t
        → Gives
            (Scheduled run)
            (arm_first env fd tspec samples (record { tspec = tspec; pcm_sample = pcm_sample }) t)
    unfolding arm_first
    arm_first-Scheduled true tspec [] pcm_sample t (unset, has) = absurd cc
    arm_first-Scheduled false tspec [] pcm_sample t due =
        elim (Bool-cases (is_neg (env.ret (timerfd_settime fd tspec ∷ t)))) [
          | inl failed ↦ rw failed (λ h. cc)
          | inr set ↦ rw set (λ h. rw (ours, set) refl)
        ]
    arm_first-Scheduled run tspec (x ∷ xs) pcm_sample t due = λ h. queued run x xs _ t due

    schedule_sample-Scheduled :
        (run : Bool) (tspec : Timespec) (pcm : List ℕ) (samples : List Entry) (len : ℕ) (t : Trace)
        → InTime run samples t
        → Gives (Scheduled run) (schedule_sample env fd tspec pcm samples len t)
    unfolding schedule_sample
    schedule_sample-Scheduled run tspec pcm samples len t due =
        let u : Trace = malloc sizeof_entry ∷ t in
        elim (Bool-cases (env.allocated u)) [
          | inl got ↦ rw got (elim (Bool-cases (env.allocated (malloc len ∷ u))) [
            | inl copied ↦ rw copied (
                arm_first-Scheduled run tspec samples _ (malloc len ∷ u)
                  (kept run samples t (malloc len ∷ u) refl due))
            | inr failed ↦ rw failed tt
          ])
          | inr failed ↦ rw failed (λ h. cc)
        ]

  module _ (a : Avtp) (fds : Fds) (ours : same_fd k fds.timer_fd ≡ true) (set : Settings) where
    accept-Received :
        (pdu : Pdu) (arrival presentation : Timespec) (st : State) (t : Trace)
        → InTime st.is_running st.samples t
        → Gives Received (accept env fds set pdu arrival presentation st t)
    unfolding accept push
    accept-Received pdu arrival presentation st t due =
        let u : Trace = malloc sizeof_node ∷ t in
        elim (Bool-cases (env.allocated u)) [
          | inr failed ↦ rw failed (λ h. cc)
          | inl got ↦ rw got (
              Gives-bind (Scheduled st.is_running) Received _ _
                (schedule_sample-Scheduled fds.timer_fd ours st.is_running presentation
                  pdu.avtp_payload st.samples set.data_len u
                  (kept st.is_running st.samples t u refl due))
                λ (r, samples) v due h. due (ground arith))
        ]

    noted-InTime :
        (seq : ℕ) (st : State) (t : Trace)
        → InTime st.is_running st.samples t
        → InTime (note_drops seq st).is_running (note_drops seq st).samples t
    unfolding note_drops
    noted-InTime seq st t due = ground arith

    take_timed-Received :
        (pdu : Pdu) (arrival : Timespec) (seq : ℕ) (st : State) (timed : ℤ × Timespec) (t : Trace)
        → InTime st.is_running st.samples t
        → Gives Received (take_timed env fds set pdu arrival seq st timed t)
    unfolding take_timed
    take_timed-Received pdu arrival seq st (pos n, presentation) t due =
        elim (Bool-cases ((n == 1) && is_empty st.samples)) [
          | inl late ↦ rw late (λ h. due)
          | inr timely ↦ rw timely (
              accept-Received pdu arrival presentation (note_drops seq st) t
                (noted-InTime seq st t due))
        ]
    take_timed-Received pdu arrival seq st (negsuc n, presentation) t due = λ h. cc

    take_packet-Received :
        (pdu : Pdu) (arrival : Timespec) (seq : ℕ) (st : State) (t : Trace)
        → InTime st.is_running st.samples t
        → Gives Received (take_packet env a fds set pdu arrival seq st t)
    unfolding take_packet
    take_packet-Received pdu arrival seq st t due =
        elim (Option-cases (a.aaf_get pdu.header timestamp)) [
          | inl e ↦ rw (e, take_packet) (λ h. cc)
          | inr (stamp, e) ↦ rw (e, take_packet) (take_timed-Received pdu arrival seq st _ t due)
        ]

    new_packet-Received :
        (st : State) (t : Trace)
        → InTime st.is_running st.samples t
        → Gives Received (new_packet env a fds set st t)
    unfolding new_packet
    new_packet-Received st t due =
        let u : Trace = clock_gettime ∷ t in
        let v : Trace = recv fds.sk_fd set.pdu_size ∷ u in
        let verdict = is_valid_packet a (env.packet v).header set st.expected_seq in
        let due' : InTime st.is_running st.samples v = kept st.is_running st.samples t v refl due in
        elim (Bool-cases (is_neg (env.ret u))) [
          | inl failed ↦ rw failed (λ h. cc)
          | inr stamped ↦ rw stamped (elim (Bool-cases (received (env.ret v) set.pdu_size)) [
            | inr short ↦ rw short (λ h. cc)
            | inl whole ↦ rw whole (elim (Bool-cases verdict.0) [
              | inr bad ↦ rw bad (λ h. due')
              | inl good ↦ rw good (
                  take_packet-Received (env.packet v) (env.clock u) st.expected_seq
                    (record st { expected_seq = verdict.1 }) v due')
            ])
          ])
        ]

    pub receive-Due :
        (ready : Bool) (st : State) (t : Trace)
        → InTime st.is_running st.samples t
        → Gives Due (receive env a fds set ready st t)
    unfolding receive
    receive-Due false st t due = due
    receive-Due true st t due =
        Gives-bind Received Due (new_packet env a fds set st t) _ (new_packet-Received st t due)
          λ (r, st') u got. elim (Bool-cases (is_neg r)) [
            | inl failed ↦ rw failed tt
            | inr fine ↦ rw fine (got fine)
          ]
