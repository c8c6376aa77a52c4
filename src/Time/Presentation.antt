-- ===== src/Time/Presentation.antt =====
-- What the listener recovers of the talker's presentation time.
use tram.Prelude.{
  ℕ, ◌+◌, ◌-◌, ◌*◌, ◌/◌, ◌%◌, ◌^◌, ◌<◌, ◌≡◌, ◌∙◌, bit_and, bit_or, or_disjoint, and_high, and_ones,
  ltb, lt→ltb, if◌then◌else◌, pos, some, arith,
}
use tram.Sys.{Timespec, Env, Trace, done}
use tram.Settings.{nsec_per_sec, nsec_per_msec}
use tram.Time.{timespec_to_ns, ns_to_timespec, calculate_avtp_time, get_presentation_time}

-- A number of nanoseconds below 2 ^ 64 survives the conversion to a timespec and back, and the
-- timespec has its nanoseconds below a second.
pub timespec_to_ns-ns_to_timespec :
    (x : ℕ)
    → x < 2 ^ 64
    → (timespec_to_ns (ns_to_timespec x) ≡ x) × ((ns_to_timespec x).tv_nsec < nsec_per_sec)
unfolding timespec_to_ns ns_to_timespec
timespec_to_ns-ns_to_timespec x h = omega arith

-- `(now & 0xFFFFFFFF00000000) | low` puts `low` under the high word of `now`.
mask_lem :
    (now low : ℕ)
    → now < 2 ^ 64
    → low < 2 ^ 32
    → bit_or (bit_and now 0xFFFF_FFFF_0000_0000) low ≡ now / 2 ^ 32 * 2 ^ 32 + low
mask_lem now low h l = rw (high) (or_disjoint 32 (now / 2 ^ 32) low l)
  where
    high : bit_and now 0xFFFF_FFFF_0000_0000 ≡ now / 2 ^ 32 * 2 ^ 32
    high = and_high 32 now (2 ^ 32 - 1) ∙ rw (and_ones 32 (now / 2 ^ 32) (omega arith))

-- For a 32-bit timestamp, `get_presentation_time` stores the time with that low word in the
-- current window of 2 ^ 32 ns, and returns 1 if this is before now and 0 otherwise.
pub get_presentation_time_lem :
    (avtp_time : ℕ) (now : Timespec)
    → avtp_time < 2 ^ 32
    → let n = timespec_to_ns now in
      let p = n / 2 ^ 32 * 2 ^ 32 + avtp_time in
      get_presentation_time avtp_time now ≡ (if ltb p n then pos 1 else pos 0, ns_to_timespec p)
unfolding get_presentation_time timespec_to_ns
get_presentation_time_lem avtp_time now h =
    rw (mask_lem (timespec_to_ns now) avtp_time (omega arith) h)

-- the presentation time that the talker means, read off its clock
abbrev pub sent_ns : Env → (max_transit_time : ℕ) → Trace → ℕ
sent_ns env m t = timespec_to_ns (env.clock t) + m * nsec_per_msec

module _ (env : Env) (m a : ℕ) (t t' : Trace)
    (sent : calculate_avtp_time env m t ≡ done (some a) t') (fits : sent_ns env m t' < 2 ^ 64) where
  -- The packet carries the low word of the presentation time.
  calculate_avtp_time_lem : a ≡ sent_ns env m t' % 2 ^ 32
  unfolding calculate_avtp_time timespec_to_ns
  calculate_avtp_time_lem = ground arith

  -- If `calculate_avtp_time` returns a timestamp and the presentation time it stands for is below
  -- 2 ^ 64 ns, then a listener whose clock has the same high word recovers exactly that
  -- presentation time, and calls the packet late exactly if that time has passed.
  pub get_presentation_time-calculate_avtp_time :
      (now : Timespec)
      → timespec_to_ns now / 2 ^ 32 ≡ sent_ns env m t' / 2 ^ 32
      → get_presentation_time a now ≡ (
        if ltb (sent_ns env m t') (timespec_to_ns now) then pos 1 else pos 0,
        ns_to_timespec (sent_ns env m t'),
      )
  get_presentation_time-calculate_avtp_time now same =
      let e : timespec_to_ns now / 2 ^ 32 * 2 ^ 32 + a ≡ sent_ns env m t' =
        omega (arith, calculate_avtp_time_lem) in
      get_presentation_time_lem a now (omega (arith, calculate_avtp_time_lem)) ∙ rw e

  -- If `calculate_avtp_time` returns a timestamp and the presentation time it stands for, below 2
  -- ^ 64 ns, lies in the window of 2 ^ 32 ns after that of the listener's clock and less than 2 ^
  -- 32 ns ahead, the listener recovers a time 2 ^ 32 ns too early and calls the packet late.
  pub get_presentation_time_rollover :
      (now : Timespec)
      → timespec_to_ns now / 2 ^ 32 + 1 ≡ sent_ns env m t' / 2 ^ 32
      → sent_ns env m t' < timespec_to_ns now + 2 ^ 32
      → get_presentation_time a now ≡ (pos 1, ns_to_timespec (sent_ns env m t' - 2 ^ 32))
  get_presentation_time_rollover now next near =
      let e : timespec_to_ns now / 2 ^ 32 * 2 ^ 32 + a ≡ sent_ns env m t' - 2 ^ 32 =
        omega (arith, calculate_avtp_time_lem) in
      get_presentation_time_lem a now (omega (arith, calculate_avtp_time_lem))
      ∙ rw (e, lt→ltb (sent_ns env m t' - 2 ^ 32) (timespec_to_ns now) (omega arith))
