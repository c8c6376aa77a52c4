-- ===== src/Network/Times.antt =====
-- What the times that the listener keeps of a packet say of the talker's clock.
use tram.Prelude.{ℕ, ◌+◌, ◌/◌, ◌^◌, ◌<◌, ◌≤◌, ◌≡◌, ◌∙◌, some, ltb, false, ◌∷◌, pos, refl, arith}
use tram.Sys.{Timespec, Env, Trace, done, clock_gettime}
use tram.Sys.Outcomes.{Returns}
use tram.Settings.{Settings, Floats, hwlatency_to_ns}
use tram.Time.{timespec_to_ns, ns_to_timespec, calculate_avtp_time, get_presentation_time}
use tram.Time.Presentation.{
  sent_ns, get_presentation_time-calculate_avtp_time, timespec_to_ns-ns_to_timespec,
}
use tram.Stats.{DataNode, travel_time}
use tram.Stats.Capture.{capture, capture_lem, travel_time_lem}
use tram.Avtp.{Avtp, seq_num, timestamp}
use tram.Packet.Accept.{InStream, HasFormat}
use tram.Listener.{State, Fds, new_packet}
use tram.Listener.Packets.{Healthy, Delivered, after_recv}
use tram.Listener.Kept.{new_packet-Takes}

-- The times of `node` are those of a packet stamped at `sent` and received at `received`, on clocks
-- that agree.
pub record Measures (fl : Floats) (set : Settings) (sent received : ℕ) (node : DataNode)
    : Type 0 where
  pub travels : travel_time set node + sent ≡ received
  pub captured : hwlatency_to_ns fl set ≤ sent → capture fl set node + hwlatency_to_ns fl set ≡ sent

module _ (talking : Env) (fl : Floats) (set : Settings) (stamp : ℕ) (t t' : Trace)
    (sent : calculate_avtp_time talking set.max_transit_time t ≡ done (some stamp) t')
    (fits : sent_ns talking set.max_transit_time t' < 2 ^ 64) where
  -- the talker's clock when it made the stamp, and the presentation time
  abbrev clocked : ℕ
  clocked = timespec_to_ns (talking.clock t')

  abbrev due_at : ℕ
  due_at = sent_ns talking set.max_transit_time t'

  presented-Measures :
      (now : Timespec)
      → clocked ≤ timespec_to_ns now
      → Measures fl set clocked
          (timespec_to_ns now)
          (record { arrival = now; presentation = ns_to_timespec due_at })
  presented-Measures now after =
      let node : DataNode = record { arrival = now; presentation = ns_to_timespec due_at } in
      let (presented, _) = timespec_to_ns-ns_to_timespec due_at fits in
      record {
        travels = travel_time_lem set node clocked presented after;
        captured = λ h.
            omega (arith, (capture_lem fl set node (omega (arith, presented, h))).0, presented);
      }

  module _ (env : Env) (healthy : Healthy env) (fds : Fds) (a : Avtp) (st : State) (u : Trace)
      (delivered : Delivered env fds set u)
      (in_stream : InStream a (env.packet (after_recv fds set u)).header set)
      (has_format : HasFormat a (env.packet (after_recv fds set u)).header set) (seq : ℕ)
      (numbered : a.aaf_get (env.packet (after_recv fds set u)).header seq_num ≡ some seq)
      (stamped : a.aaf_get (env.packet (after_recv fds set u)).header timestamp ≡ some stamp)
      (seq_lt : seq < 2 ^ 8) where
    -- Let `calculate_avtp_time` have returned a timestamp that a whole packet of the stream and
    -- the format carries, with an 8-bit number, and memory and timers be available to the
    -- listener. If the presentation time is below 2 ^ 64 ns, and the clock that `new_packet` reads
    -- has the same high word as it, has not passed it, and is not before the talker's clock of the
    -- stamp, then `new_packet` returns, and has put an entry on the stack of the statistics whose
    -- travel time is the time from the talker's clock to the listener's, and whose capture time,
    -- where the talker's clock is at least the hardware latency, is the talker's clock less that
    -- latency.
    pub new_packet-Measures :
        let now = env.clock (clock_gettime ∷ u) in
        timespec_to_ns now / 2 ^ 32 ≡ due_at / 2 ^ 32
        → clocked ≤ timespec_to_ns now
        → timespec_to_ns now ≤ due_at
        → st.expected_seq < 2 ^ 8
        → st.stats.dropped_packets < 2 ^ 32
        → Returns
            (λ (r, st') v.
              (node : DataNode) × (st'.stats.stack ≡ node ∷ st.stats.stack)
              × Measures fl set clocked (timespec_to_ns now) node)
            (new_packet env a fds set st u)
    new_packet-Measures window after early expected_lt counted_lt =
        let now : Timespec = env.clock (clock_gettime ∷ u) in
        let on_time : ltb due_at (timespec_to_ns now) ≡ false = ground arith in
        let recovered : get_presentation_time stamp now ≡ (pos 0, ns_to_timespec due_at) =
          get_presentation_time-calculate_avtp_time talking set.max_transit_time stamp t t' sent
            fits now window
          ∙ rw on_time refl in
        let (st', v, e, took) =
          new_packet-Takes env healthy fds set a st u delivered in_stream has_format seq stamp
            numbered stamped seq_lt 0 (ns_to_timespec due_at) recovered refl expected_lt
            counted_lt in
        rw e (
          record { arrival = now; presentation = ns_to_timespec due_at },
          took.recorded,
          presented-Measures now after,
        )
