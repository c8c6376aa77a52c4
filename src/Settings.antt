-- ===== src/Settings.antt =====
-- `stream_settings_t` of avbperf/avb_aaf.h, and the conversions of avbperf/avb_aaf.c on it.
use tram.Prelude.{ℕ, ◌+◌, ◌/◌}

pub record Settings : Type 0 where
  pub stream_id : ℕ
  pub sample_rate : ℕ
  pub bit_depth : ℕ
  pub channels : ℕ
  pub data_len : ℕ
  pub pdu_size : ℕ
  pub aaf_sample_rate : ℕ
  pub aaf_bit_depth : ℕ
  pub hw_latency : ℕ
  pub frames_per_pdu : ℕ
  pub max_transit_time : ℕ

-- Floating-point arithmetic of the program, with the conversions to and from `uint64_t`.
pub record Floats : Type 0 where
  -- `((float)latency / rate) * NSEC_PER_SEC`
  pub latency_ns : (latency rate : ℕ) → ℕ
  -- `std += pow(d, 2)`
  pub add_square : (std d : ℕ) → ℕ
  -- `sqrt(v)`
  pub sqrt : (v : ℕ) → ℕ

abbrev pub nsec_per_sec : ℕ
nsec_per_sec = 1_000_000_000

abbrev pub nsec_per_msec : ℕ
nsec_per_msec = 1_000_000

unfoldable pub hwlatency_to_ns : Floats → Settings → ℕ
hwlatency_to_ns fl set = fl.latency_ns set.hw_latency set.sample_rate

-- `ceil(bit_depth / 8.0)`: exact, since a double holds every multiple of 1/8 of that size
abbrev pub bytes_per_sample : ℕ → ℕ
bytes_per_sample depth = (depth + 7) / 8
