-- ===== src/Listener/Kept.antt =====
-- A packet that is valid and not passed over is queued, recorded and counted.
use tram.Prelude.{
  ℕ, ◌+◌, ◌^◌, ◌<◌, ◌≡◌, ◌==◌, ◌&&◌, ◌∙◌, u8, true, false, some, [], ◌∷◌, ◌++◌, is_empty, ℤ, pos,
  refl, ap,
}
use tram.Sys.{Timespec, Pdu, Env, Trace, Outcome, done, malloc, clock_gettime}
use tram.Settings.{Settings}
use tram.Time.{get_presentation_time}
use tram.Stats.{push, sizeof_node}
use tram.Stats.Stack.{entry}
use tram.Avtp.{Avtp, seq_num, timestamp}
use tram.Packet.{is_valid_packet}
use tram.Packet.Accept.{InStream, HasFormat, is_valid_packet_iff, is_valid_packet-seq}
use tram.Playout.{Entry}
use tram.Listener.{State, Fds, accept, note_drops, take_timed, take_packet, new_packet}
use tram.Listener.Packets.{
  sample, after_recv, Delivered, Healthy, schedule_sample_lem, drops_after, note_drops-count,
  note_drops-rest,
}

-- `st'` is `st` with the entry queued and recorded.
pub record Took (st : State) (dropped next : ℕ) (e : Entry) (arrival : Timespec) (st' : State)
    : Type 0 where
  pub queued : st'.samples ≡ st.samples ++ (e ∷ [])
  pub recorded : st'.stats.stack ≡ entry arrival e.tspec ∷ st.stats.stack
  pub counted : st'.stats.dropped_packets ≡ dropped
  pub expects : st'.expected_seq ≡ next
  pub playback : st'.is_running ≡ st.is_running
  pub deltas : st'.stats.delta_cap ≡ st.stats.delta_cap
  pub travels : st'.stats.travel ≡ st.stats.travel

-- a run that returns 0 and such a state
abbrev pub Takes : State → (dropped next : ℕ) → Entry → Timespec → Outcome (ℤ × State) → Type 0
Takes st dropped next e arrival r =
    (st' : State) × (u : Trace) × (r ≡ done (pos 0, st') u) × Took st dropped next e arrival st'

module _ (env : Env) (healthy : Healthy env) (fds : Fds) (set : Settings) where
  accept-Takes :
      (pdu : Pdu) (arrival pres : Timespec) (st : State) (t : Trace)
      → Takes st st.stats.dropped_packets st.expected_seq
          (sample set pdu pres)
          arrival
          (accept env fds set pdu arrival pres st t)
  unfolding accept push
  accept-Takes pdu arrival pres st t =
      let v : Trace = malloc sizeof_node ∷ t in
      let (r, u, e, fine) =
        schedule_sample_lem env healthy fds.timer_fd pres pdu.avtp_payload st.samples set.data_len
          v in
      (
        record st {
          samples = st.samples ++ (sample set pdu pres ∷ []);
          stats = record st.stats { stack = entry arrival pres ∷ st.stats.stack };
        },
        u,
        rw (healthy.room v, e, fine),
        record {
          queued = refl;
          recorded = refl;
          counted = refl;
          expects = refl;
          playback = refl;
          deltas = refl;
          travels = refl;
        },
      )

  module _ (a : Avtp) (st : State) (t : Trace) (delivered : Delivered env fds set t) where
    abbrev pdu : Pdu
    pdu = env.packet (after_recv fds set t)

    abbrev arrival : Timespec
    arrival = env.clock (clock_gettime ∷ t)

    -- what is left of `new_packet` once the packet has been found valid
    new_packet-valid :
        (is_valid_packet a pdu.header set st.expected_seq).0 ≡ true
        → new_packet env a fds set st t
          ≡ take_packet env a fds set pdu arrival st.expected_seq
              (record st { expected_seq = (is_valid_packet a pdu.header set st.expected_seq).1 })
              (after_recv fds set t)
    unfolding new_packet
    new_packet-valid good = rw (delivered.clock_read, delivered.whole, good)

    module _ (in_stream : InStream a pdu.header set) (has_format : HasFormat a pdu.header set)
        (seq stamp : ℕ) (numbered : a.aaf_get pdu.header seq_num ≡ some seq)
        (stamped : a.aaf_get pdu.header timestamp ≡ some stamp) (seq_lt : seq < 2 ^ 8) where
      good : (is_valid_packet a pdu.header set st.expected_seq).0 ≡ true
      good =
          (is_valid_packet_iff a pdu.header set st.expected_seq).1
            (in_stream, has_format, (seq, numbered))

      next : (is_valid_packet a pdu.header set st.expected_seq).1 ≡ u8 (seq + 1)
      next = is_valid_packet-seq a pdu.header set st.expected_seq seq in_stream numbered seq_lt

      -- the state once the sequence number has been taken note of
      abbrev counted_on : State
      counted_on = record st { expected_seq = u8 (seq + 1) }

      new_packet-timed :
          new_packet env a fds set st t
          ≡ take_timed env fds set pdu arrival st.expected_seq counted_on
              (get_presentation_time stamp arrival)
              (after_recv fds set t)
      unfolding take_packet
      new_packet-timed =
          new_packet-valid good
          ∙ (ap
                (λ n.
                  take_packet env a fds set pdu arrival st.expected_seq
                    (record st { expected_seq = n }) (after_recv fds set t))
                next
              ∙ rw (stamped, take_packet) refl)

      -- With memory and timers available, a whole packet of the stream and the format, with an
      -- 8-bit number, that is not late, or is late while the queue is not empty, makes
      -- `new_packet` return 0; the samples are queued last with their presentation time, both
      -- times are recorded, the 32-bit count of drops grows by the gap to the 8-bit number
      -- expected if a packet had been recorded before, and the successor of the packet's number is
      -- expected.
      pub new_packet-Takes :
          (n : ℕ) (pres : Timespec)
          → get_presentation_time stamp arrival ≡ (pos n, pres)
          → ((n == 1) && is_empty st.samples) ≡ false
          → st.expected_seq < 2 ^ 8
          → st.stats.dropped_packets < 2 ^ 32
          → Takes st
              (drops_after st.stats st.expected_seq seq)
              (u8 (seq + 1))
              (sample set pdu pres)
              arrival
              (new_packet env a fds set st t)
      unfolding take_timed
      new_packet-Takes n pres timed kept expected_lt counted_lt =
          let noted : State = note_drops st.expected_seq counted_on in
          let (st', u, e, took) = accept-Takes pdu arrival pres noted (after_recv fds set t) in
          let (stack_is, samples_are, seq_is, running_is, deltas_are, travels_are) =
            note_drops-rest st.expected_seq seq counted_on expected_lt seq_lt counted_lt refl in
          (
            st',
            u,
            new_packet-timed ∙ rw (timed, kept) e,
            record {
              queued = took.queued ∙ ap (λ s. s ++ (sample set pdu pres ∷ [])) samples_are;
              recorded = took.recorded ∙ ap (λ s. entry arrival pres ∷ s) stack_is;
              counted =
                  took.counted
                  ∙ note_drops-count st.expected_seq seq counted_on expected_lt seq_lt counted_lt
                      refl;
              expects = took.expects ∙ seq_is;
              playback = took.playback ∙ running_is;
              deltas = took.deltas ∙ deltas_are;
              travels = took.travels ∙ travels_are;
            },
          )

      -- With memory and timers available, a whole packet of the stream and the format, with an
      -- 8-bit number, that is late while the queue is empty is passed over: `new_packet` returns 1
      -- and changes only the number expected, which becomes the successor of the packet's.
      pub new_packet-late :
          (pres : Timespec)
          → get_presentation_time stamp arrival ≡ (pos 1, pres)
          → is_empty st.samples ≡ true
          → new_packet env a fds set st t ≡ done (pos 1, counted_on) (after_recv fds set t)
      unfolding take_timed
      new_packet-late pres timed empty = new_packet-timed ∙ rw (timed, empty)
