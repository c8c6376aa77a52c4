-- ===== src/Listener/Calls.antt =====
-- Which kinds of calls the parts of a round of the listener make.
use tram.Prelude.{
  ℕ, ◌==◌, Bool, true, false, List, [], ◌∷◌, ℤ, pos, negsuc, is_neg, is_empty, ◌&&◌, Bool-cases,
  Option-cases, inl, inr, refl,
}
use tram.Sys.{
  Timespec, Pdu, Env, Trace, malloc, clock_gettime, recv, read_timer, timerfd_settime, ◌>>=◌, pure,
}
use tram.Sys.Outcomes.{is_quiet, here, next, Makes, Makes-bind, Makes-after}
use tram.Settings.{Settings}
use tram.Stats.{push, sizeof_node}
use tram.Avtp.{Avtp, timestamp}
use tram.Packet.{is_valid_packet}
use tram.Alsa
use tram.Alsa.Calls.{write-Makes}
use tram.Playout.{Entry, sizeof_entry, arm_first, schedule_sample, play_fragment, aaf_timeout}
use tram.Listener.{
  State, Fds, again, leave, accept, note_drops, take_timed, take_packet, received, new_packet, play,
  playback, receive, and_again, continue_with,
}

module _ (env : Env) where
  arm_first-Makes :
      (fd : ℤ) (tspec : Timespec) (samples : List Entry) (entry : Entry) (t : Trace)
      → Makes is_quiet t (arm_first env fd tspec samples entry t)
  unfolding arm_first
  arm_first-Makes fd tspec [] entry t =
      elim (Bool-cases (is_neg (env.ret (timerfd_settime fd tspec ∷ t)))) [
        | inl failed ↦ rw failed (next _ refl (next _ refl here))
        | inr set ↦ rw set (next _ refl here)
      ]
  arm_first-Makes fd tspec (x ∷ xs) entry t = here

  schedule_sample-Makes :
      (fd : ℤ) (tspec : Timespec) (pcm : List ℕ) (samples : List Entry) (len : ℕ) (t : Trace)
      → Makes is_quiet t (schedule_sample env fd tspec pcm samples len t)
  unfolding schedule_sample
  schedule_sample-Makes fd tspec pcm samples len t =
      let u : Trace = malloc sizeof_entry ∷ t in
      let v : Trace = malloc len ∷ u in
      elim (Bool-cases (env.allocated u)) [
        | inl got ↦ rw got (elim (Bool-cases (env.allocated v)) [
          | inl copied ↦ rw copied (
              Makes-after is_quiet t v _ (next _ refl (next _ refl here))
                (arm_first-Makes fd tspec samples _ v))
          | inr failed ↦ rw failed (next _ refl (next _ refl here))
        ])
        | inr failed ↦ rw failed (next _ refl here)
      ]

  play_fragment-Makes :
      (samples : List Entry) (frames : ℕ) (recording : Bool) (t : Trace)
      → Makes is_quiet t (play_fragment env samples frames recording t)
  unfolding play_fragment
  play_fragment-Makes [] frames recording t = here
  play_fragment-Makes (x ∷ xs) frames true t =
      Makes-bind is_quiet t (Alsa.write env x.pcm_sample frames t) _
        (write-Makes env x.pcm_sample frames t) λ _ u. next _ refl (next _ refl (next _ refl here))
  play_fragment-Makes (x ∷ xs) frames false t =
      Makes-bind is_quiet t (Alsa.write env x.pcm_sample frames t) _
        (write-Makes env x.pcm_sample frames t) λ _ u. next _ refl (next _ refl here)

  play-Makes :
      (set : Settings) (recording : Bool) (st : State) (t : Trace)
      → Makes is_quiet t (play env set recording st t)
  unfolding play
  play-Makes set recording st t =
      Makes-bind is_quiet t _ _ (play_fragment-Makes st.samples set.frames_per_pdu recording t)
        λ rest u. here

  again-Makes :
      (set : Settings) (recording : Bool) (st : State) (t : Trace)
      → Makes is_quiet t ((play env set recording st >>= λ st'. pure (again st')) t)
  again-Makes set recording st t =
      Makes-bind is_quiet t (play env set recording st t) _ (play-Makes set recording st t)
        λ st' u. here

  pub playback-Makes :
      (fds : Fds) (set : Settings) (recording ready : Bool) (st : State) (t : Trace)
      → Makes is_quiet t (playback env fds set recording ready st t)
  unfolding playback aaf_timeout
  playback-Makes fds set recording ready st t =
      let u : Trace = read_timer fds.timer_fd ∷ t in
      elim (Bool-cases st.is_running) [
        | inl run ↦ simp run (again-Makes set recording st t)
        | inr idle ↦ simp idle (elim (Bool-cases ready) [
          | inr quiet ↦ rw quiet here
          | inl fired ↦ rw fired (elim (Bool-cases (is_neg (env.ret u))) [
            | inl failed ↦ rw failed (next _ refl here)
            | inr read ↦ rw read (elim (Bool-cases (env.expirations u == 1)) [
              | inr more ↦ rw more (next _ refl here)
              | inl once ↦ rw once (
                  Makes-after is_quiet t u _ (next _ refl here)
                    (again-Makes set recording (record st { is_running = true }) u))
            ])
          ])
        ])
      ]

  module _ (fds : Fds) (set : Settings) (pdu : Pdu) where
    accept-Makes :
        (arrival presentation : Timespec) (st : State) (t : Trace)
        → Makes is_quiet t (accept env fds set pdu arrival presentation st t)
    unfolding accept push
    accept-Makes arrival presentation st t =
        let u : Trace = malloc sizeof_node ∷ t in
        elim (Bool-cases (env.allocated u)) [
          | inr failed ↦ rw failed (next _ refl here)
          | inl got ↦ rw got (
              Makes-after is_quiet t u _ (next _ refl here) (
                Makes-bind is_quiet u
                  (schedule_sample env fds.timer_fd presentation pdu.avtp_payload st.samples
                    set.data_len u)
                  _
                  (schedule_sample-Makes fds.timer_fd presentation pdu.avtp_payload st.samples
                    set.data_len u)
                  λ r v. here))
        ]

    take_timed-Makes :
        (arrival : Timespec) (seq : ℕ) (st : State) (timed : ℤ × Timespec) (t : Trace)
        → Makes is_quiet t (take_timed env fds set pdu arrival seq st timed t)
    unfolding take_timed
    take_timed-Makes arrival seq st (pos n, presentation) t =
        elim (Bool-cases ((n == 1) && is_empty st.samples)) [
          | inl late ↦ rw late here
          | inr timely ↦ rw timely (accept-Makes arrival presentation (note_drops seq st) t)
        ]
    take_timed-Makes arrival seq st (negsuc n, presentation) t = here

    take_packet-Makes :
        (a : Avtp) (arrival : Timespec) (seq : ℕ) (st : State) (t : Trace)
        → Makes is_quiet t (take_packet env a fds set pdu arrival seq st t)
    unfolding take_packet
    take_packet-Makes a arrival seq st t = elim (Option-cases (a.aaf_get pdu.header timestamp)) [
      | inl e ↦ rw (e, take_packet) here
      | inr (stamp, e) ↦ rw (e, take_packet) (take_timed-Makes arrival seq st _ t)
    ]

  module _ (a : Avtp) (fds : Fds) (set : Settings) where
    new_packet-Makes : (st : State) (t : Trace) → Makes is_quiet t (new_packet env a fds set st t)
    unfolding new_packet
    new_packet-Makes st t =
        let u : Trace = clock_gettime ∷ t in
        let v : Trace = recv fds.sk_fd set.pdu_size ∷ u in
        let verdict = is_valid_packet a (env.packet v).header set st.expected_seq in
        elim (Bool-cases (is_neg (env.ret u))) [
          | inl failed ↦ rw failed (next _ refl here)
          | inr stamped ↦ rw stamped (elim (Bool-cases (received (env.ret v) set.pdu_size)) [
            | inr short ↦ rw short (next _ refl (next _ refl here))
            | inl whole ↦ rw whole (elim (Bool-cases verdict.0) [
              | inr bad ↦ rw bad (next _ refl (next _ refl here))
              | inl good ↦ rw good (
                  Makes-after is_quiet t v _ (next _ refl (next _ refl here)) (
                    take_packet-Makes fds set (env.packet v) a (env.clock u) st.expected_seq
                      (record st { expected_seq = verdict.1 }) v))
            ])
          ])
        ]

    pub receive-Makes :
        (ready : Bool) (st : State) (t : Trace)
        → Makes is_quiet t (receive env a fds set ready st t)
    unfolding receive
    receive-Makes false st t = here
    receive-Makes true st t =
        Makes-bind is_quiet t (new_packet env a fds set st t) _ (new_packet-Makes st t)
          λ (r, st') u. elim (Bool-cases (is_neg r)) [
            | inl failed ↦ rw failed here
            | inr fine ↦ rw fine here
          ]

    -- the part of a round before the keyboard
    pub heard-Makes :
        (recording socket_ready timer_ready : Bool) (st : State) (t : Trace)
        → Makes is_quiet t (
            and_again
              (receive env a fds set socket_ready st)
              (playback env fds set recording timer_ready)
              t)
    heard-Makes recording socket_ready timer_ready st t =
        Makes-bind is_quiet t (receive env a fds set socket_ready st t) _
          (receive-Makes socket_ready st t)
          λ n u.
            elim n
              as (λ n.
                Makes is_quiet u (continue_with (playback env fds set recording timer_ready) n u)) [
                  | again st' ↦ playback-Makes fds set recording timer_ready st' u
                  | leave st' ↦ here
                ]
