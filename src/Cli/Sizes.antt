-- ===== src/Cli/Sizes.antt =====
-- The sizes that `main` enters, and what setting up the sound card makes of them.
use tram.Prelude.{
  ℕ, ◌+◌, ◌*◌, ◌^◌, ◌%◌, ◌<◌, ◌≡◌, ◌⊎◌, ◌↔◌, inl, inr, true, Bool, List, ℤ, pos, negsuc, arith,
}
use tram.Sys.{Env, Trace, done}
use tram.Settings.{Settings, bytes_per_sample}
use tram.Avtp.{Avtp}
use tram.Alsa.{PcmFormats, setup}
use tram.Alsa.Setup.{IsSized, setup-IsSized}
use tram.Cli.{Config, is_depth, is_int, to_unsigned, frame_size, settings_of}
use tram.Cli.Valid.{Complete}

depth-cases : (d : ℕ) → is_depth (pos d) ≡ true → (d ≡ 16) ⊎ ((d ≡ 24) ⊎ (d ≡ 32))
depth-cases d h = ground arith

-- a frame is not empty
positive :
    (z : ℤ) (n : ℕ)
    → is_depth z ≡ true
    → 0 < n
    → bytes_per_sample (to_unsigned 32 z) * n < 2 ^ 31
    → 0 < bytes_per_sample (to_unsigned 32 z) * (n % 2 ^ 32)
positive (pos d) n h some_channels small = elim (depth-cases d h) [
  | inl e ↦ rw e (omega (arith, rw e at small))
  | inr (inl e) ↦ rw e (omega (arith, rw e at small))
  | inr (inr e) ↦ rw e (omega (arith, rw e at small))
]
positive (negsuc d) n h some_channels small = cc

int_lt : (m : ℕ) → is_int (pos m) ≡ true → m < 2 ^ 31
int_lt m h = ground arith

module _ (a : Avtp) (c : Config) (n : ℕ) (channels : c.channels ≡ pos n)
    (small : is_int (frame_size c) ≡ true) (header : a.sizeof_pdu < 2 ^ 31) where
  frame_size-lt : bytes_per_sample (to_unsigned 32 c.bit_depth) * n < 2 ^ 31
  frame_size-lt = int_lt _ (rw channels at small)

  entered : (settings_of a c).pdu_size ≡ a.sizeof_pdu + (settings_of a c).data_len
  unfolding settings_of
  entered = rw channels (omega (arith, frame_size-lt))

  -- For an accepted command line with a positive number of channels whose sizes fit the integers
  -- of the code, a setup of the sound card that returns from the settings of `main` leaves sizes
  -- that fit the header and the period exactly if the device's period is the latency asked for.
  pub settings_of-IsSized :
      (env : Env) (formats : PcmFormats) (device : List ℕ) (is_recorder : Bool) (t u : Trace)
      {set' : Settings}
      → Complete c
      → 0 < n
      → a.sizeof_pdu
          + bytes_per_sample (settings_of a c).bit_depth
            * (settings_of a c).channels
            * (settings_of a c).hw_latency
        < 2 ^ 32
      → setup env formats device is_recorder (settings_of a c) t ≡ done set' u
      → IsSized a.sizeof_pdu set' ↔ (env.period u ≡ (settings_of a c).hw_latency)
  unfolding settings_of
  settings_of-IsSized env formats device is_recorder t u complete have fits returned =
      setup-IsSized env formats device is_recorder (settings_of a c) a.sizeof_pdu t u returned
        entered fits (omega arith)
        (rw channels (positive c.bit_depth n complete.in_range.depth have frame_size-lt))
