-- ===== src/Time.antt =====
-- The timestamps of avbperf/common.c: `calculate_avtp_time`, `get_presentation_time`, `arm_timer`;
-- and `timespec_to_ns` of avbperf/avb_stats.c.
pub mod Presentation
pub mod Words
use tram.Prelude.{
  ℕ, ◌+◌, ◌*◌, ◌/◌, ◌%◌, ◌^◌, bit_and, bit_or, u64, ltb, if◌then◌else◌, Option, none, some, ℤ, pos,
  is_neg, minus_one,
}
use tram.Sys.{Timespec, Env, M, ◌>>=◌, pure, sys, answer, clock_gettime, timerfd_settime}
use tram.Settings.{nsec_per_sec, nsec_per_msec}

unfoldable pub timespec_to_ns : Timespec → ℕ
timespec_to_ns t = u64 (u64 (t.tv_sec * nsec_per_sec) + t.tv_nsec)

-- `x / NSEC_PER_SEC` and `x % NSEC_PER_SEC`
unfoldable pub ns_to_timespec : ℕ → Timespec
ns_to_timespec x = record { tv_sec = x / nsec_per_sec; tv_nsec = x % nsec_per_sec }

-- `none` is the result -1, where nothing is stored.
unfoldable pub calculate_avtp_time : Env → (max_transit_time : ℕ) → M (Option ℕ)
calculate_avtp_time env max_transit_time = do
  res ← sys env clock_gettime
  stamp ← answer env.clock
  let ptime = u64 (
      u64 (u64 (stamp.tv_sec * nsec_per_sec) + u64 (max_transit_time * nsec_per_msec))
      + stamp.tv_nsec)
  if is_neg res then pure none else pure (some (ptime % 2 ^ 32))

-- the status, and what is stored behind `presentation`
unfoldable pub get_presentation_time : (avtp_time : ℕ) → (now : Timespec) → ℤ × Timespec
unfolding ns_to_timespec
get_presentation_time avtp_time now =
    let now_aux = u64 (u64 (now.tv_sec * nsec_per_sec) + now.tv_nsec) in
    let ptime = bit_or (bit_and now_aux 0xFFFF_FFFF_0000_0000) avtp_time in
    (if ltb ptime now_aux then pos 1 else pos 0, ns_to_timespec ptime)

unfoldable pub arm_timer : Env → (fd : ℤ) → Timespec → M ℤ
arm_timer env fd tspec = do
  res ← sys env (timerfd_settime fd tspec)
  if is_neg res then pure minus_one else pure (pos 0)
