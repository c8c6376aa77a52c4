-- ===== src/Stats.antt =====
-- avbperf/avb_stats.h and avb_stats.c: the stack of packet times that the listener keeps, and the
-- figures that it makes of them. `stack_head` and the `next` pointers are a list, newest first.
pub mod Summary
pub mod Stack
pub mod Capture
pub mod Report
pub mod Order
use tram.Prelude.{
  ℕ, ◌+◌, ◌-◌, ◌*◌, ◌/◌, ◌^◌, u64, u32, sub64, ltb, ◌==◌, if◌then◌else◌, Bool, true, false, Option,
  none, some, List, [], ◌∷◌, length, ℤ, pos, minus_one,
}
use tram.Sys.{
  Timespec, Env, M, ◌>>=◌, ◌>>◌, pure, fault, ask, emit, malloc, free, null_pointer,
  division_by_zero,
}
use tram.Settings.{Settings, Floats, hwlatency_to_ns, nsec_per_msec}
use tram.Time.{timespec_to_ns, ns_to_timespec}

pub record DataNode : Type 0 where
  pub arrival : Timespec
  pub presentation : Timespec

pub record Stat : Type 0 where
  pub min : ℕ
  pub max : ℕ
  pub mean : ℕ
  pub std : ℕ
  pub count : ℕ

pub record Handler : Type 0 where
  pub stack : List DataNode
  pub dropped_packets : ℕ
  pub delta_cap : Stat
  pub travel : Stat

-- `(uint64_t)-1` as the minimum
abbrev pub stat_init : Stat
stat_init = record { min = 2 ^ 64 - 1; max = 0; mean = 0; std = 0; count = 0 }

abbrev pub handler_init : Handler
handler_init = record { stack = []; dropped_packets = 0; delta_cap = stat_init; travel = stat_init }

-- The node is given apart from those behind it: its `next` is read before anything else.
unfoldable pub delete_recursive : DataNode → List DataNode → M (Unit {0})
delete_recursive node [] = emit free
delete_recursive node (next ∷ rest) = delete_recursive next rest >> emit free

-- With an empty stack `node->next` is read through a null pointer.
unfoldable pub clear : Handler → M (Unit {0})
unfolding delete_recursive
clear self = elim self.stack [ [] ↦ fault null_pointer | node ∷ rest ↦ delete_recursive node rest ]

-- Drops before the first packet kept are not counted.
unfoldable pub add_dropped : Handler → (count : ℕ) → Handler
add_dropped self count = elim self.stack [
  | [] ↦ self
  | node ∷ rest ↦ record self { dropped_packets = u32 (self.dropped_packets + count) }
]

abbrev pub sizeof_node : ℕ
sizeof_node = 40

unfoldable pub push : Env → Handler → (arrival presentation : Timespec) → M (ℤ × Handler)
push env self arrival presentation = do
  got ← ask env.allocated (malloc sizeof_node)
  if got
      then pure (
        pos 0,
        record self {
          stack = record { arrival = arrival; presentation = presentation } ∷ self.stack;
        },
      )
      else pure (minus_one, self)

-- the walk to the bottom entry, from a node with those behind it
unfoldable pub find_bottom : DataNode → List DataNode → DataNode
find_bottom node [] = node
find_bottom node (next ∷ rest) = find_bottom next rest

-- `none` is the result -1.
unfoldable pub get_first : Handler → Option DataNode
unfolding find_bottom
get_first self = elim self.stack [ [] ↦ none | node ∷ rest ↦ some (find_bottom node rest) ]

unfoldable pub get_last : Handler → Option DataNode
get_last self = elim self.stack [ [] ↦ none | node ∷ rest ↦ some node ]

-- `capture_ns`: every caller passes three pointers that are not null
unfoldable pub capture_ns : Floats → Settings → DataNode → ℕ
unfolding timespec_to_ns hwlatency_to_ns
capture_ns fl set node =
    sub64 (sub64 (timespec_to_ns node.presentation) (u64 (set.max_transit_time * nsec_per_msec)))
      (hwlatency_to_ns fl set)

unfoldable pub get_cap_time : Floats → Settings → DataNode → Timespec
unfolding capture_ns ns_to_timespec
get_cap_time fl set node = ns_to_timespec (capture_ns fl set node)

-- one round of the first loop of `process_stat`, and the loop
abbrev pub add_sample : ℕ → Stat → Stat
add_sample x stat = record stat {
  max = if ltb stat.max x then x else stat.max;
  min = if ltb x stat.min then x else stat.min;
  mean = u64 (stat.mean + x);
}

unfoldable pub scan : List ℕ → Stat → Stat
scan [] stat = stat
scan (x ∷ xs) stat = scan xs (add_sample x stat)

-- the second loop: what is squared is a difference of unsigned numbers
unfoldable pub deviations : Floats → (mean : ℕ) → List ℕ → (std : ℕ) → ℕ
deviations fl mean [] std = std
deviations fl mean (x ∷ xs) std = deviations fl mean xs (fl.add_square std (sub64 x mean))

-- `count` is the length of the array. The division by it traps at zero.
unfoldable pub process_stat : Floats → List ℕ → Stat → M Stat
unfolding scan deviations
process_stat fl xs stat =
    let count = length xs in
    let scanned = scan xs stat in
    let mean = scanned.mean / count in
    let std = deviations fl mean xs scanned.std in
    if count == 0
    then fault division_by_zero
    else pure (record scanned { count = count; mean = mean; std = fl.sqrt (std / count) })

-- `travel_arr`: the second assignment of the loop is the one that stays
unfoldable pub travel_time : Settings → DataNode → ℕ
unfolding timespec_to_ns
travel_time set node =
    sub64 (timespec_to_ns node.arrival)
      (sub64 (timespec_to_ns node.presentation) (u64 (set.max_transit_time * nsec_per_msec)))

unfoldable pub travel_times : Settings → List DataNode → List ℕ
unfolding travel_time
travel_times set [] = []
travel_times set (node ∷ rest) = travel_time set node ∷ travel_times set rest

-- `delta_cap_arr`: the capture time of each entry less that of the one below it
unfoldable pub delta_caps : Floats → Settings → DataNode → List DataNode → List ℕ
unfolding get_cap_time timespec_to_ns
delta_caps fl set node [] = []
delta_caps fl set node (next ∷ rest) =
    sub64 (timespec_to_ns (get_cap_time fl set node)) (timespec_to_ns (get_cap_time fl set next))
    ∷ delta_caps fl set next rest

-- The arrays are not checked for null: the first is always written, the second if there are two
-- entries or more.
abbrev pub use_arrays : (travel_ok delta_ok : Bool) → (rest : List DataNode) → M (Unit {0})
use_arrays false delta_ok rest = fault null_pointer
use_arrays true true rest = pure tt
use_arrays true false [] = pure tt
use_arrays true false (next ∷ rest) = fault null_pointer

unfoldable pub process_stats : Env → Floats → Settings → Handler → M (ℤ × Handler)
unfolding travel_times delta_caps
process_stats env fl set self = elim self.stack [
  | [] ↦ pure (minus_one, self)
  | node ∷ rest ↦ do
    travel_ok ← ask env.allocated (malloc (8 * length (node ∷ rest)))
    delta_ok ← ask env.allocated (malloc (8 * length (node ∷ rest) - 1))
    use_arrays travel_ok delta_ok rest
    travel ← process_stat fl (travel_times set (node ∷ rest)) self.travel
    delta_cap ← process_stat fl (delta_caps fl set node rest) self.delta_cap
    pure (pos 0, record self { travel = travel; delta_cap = delta_cap })
]
