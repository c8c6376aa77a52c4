-- ===== src/Stats/Capture.antt =====
-- Capture times and travel times.
use tram.Prelude.{ℕ, ◌+◌, ◌*◌, ◌≤◌, ◌<◌, ◌≡◌, u64, sub64, List, [], ◌∷◌, length, arith, refl}
use tram.Settings.{Settings, Floats, hwlatency_to_ns, nsec_per_msec, nsec_per_sec}
use tram.Time.{timespec_to_ns}
use tram.Stats.{
  DataNode, capture_ns, get_cap_time, find_bottom, travel_time, travel_times, delta_caps,
}
use tram.Stats.Summary.{sum}

module _ (fl : Floats) (set : Settings) where
  -- the capture time of an entry, as the code reads it back
  abbrev pub capture : DataNode → ℕ
  capture node = timespec_to_ns (get_cap_time fl set node)

  pub capture-capture_ns : (node : DataNode) → capture node ≡ capture_ns fl set node
  unfolding get_cap_time capture_ns timespec_to_ns
  capture-capture_ns node = omega arith

  -- If the presentation time is at least the transit time and the hardware latency, the capture
  -- time of an entry, the transit time and the hardware latency add up to its presentation time,
  -- and the capture time has its nanoseconds below a second.
  pub capture_lem :
      (node : DataNode)
      → set.max_transit_time * nsec_per_msec + hwlatency_to_ns fl set
        ≤ timespec_to_ns node.presentation
      → (capture node + set.max_transit_time * nsec_per_msec + hwlatency_to_ns fl set
          ≡ timespec_to_ns node.presentation)
        × ((get_cap_time fl set node).tv_nsec < nsec_per_sec)
  unfolding get_cap_time capture_ns timespec_to_ns
  capture_lem node h = omega arith

  pub length-delta_caps :
      (node : DataNode) (rest : List DataNode) → length (delta_caps fl set node rest) ≡ length rest
  unfolding delta_caps
  length-delta_caps node [] = refl
  length-delta_caps node (next ∷ rest) = omega (arith, length-delta_caps next rest)

  -- The capture deltas of neighbouring entries add up, modulo 2 ^ 64, to the time from the oldest
  -- capture to the newest.
  pub sum-delta_caps :
      (node : DataNode) (rest : List DataNode)
      → u64 (sum (delta_caps fl set node rest))
        ≡ sub64 (capture node) (capture (find_bottom node rest))
  unfolding delta_caps find_bottom
  sum-delta_caps node [] = omega arith
  sum-delta_caps node (next ∷ rest) = omega (arith, sum-delta_caps next rest)

-- If a packet is presented the transit time after `sent`, and has arrived no earlier than `sent`,
-- its travel time is the time from `sent` to the arrival.
pub travel_time_lem :
    (set : Settings) (node : DataNode) (sent : ℕ)
    → timespec_to_ns node.presentation ≡ sent + set.max_transit_time * nsec_per_msec
    → sent ≤ timespec_to_ns node.arrival
    → travel_time set node + sent ≡ timespec_to_ns node.arrival
unfolding travel_time timespec_to_ns
travel_time_lem set node sent h le = omega arith

pub length-travel_times :
    (set : Settings) (nodes : List DataNode) → length (travel_times set nodes) ≡ length nodes
unfolding travel_times
length-travel_times set [] = refl
length-travel_times set (node ∷ rest) = omega (arith, length-travel_times set rest)
