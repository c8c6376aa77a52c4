-- ===== src/Cli/Header.antt =====
-- The settings that the command line leads to, and the fields of the packet header.
use mathlib.Core.Path.{subst}
use tram.Prelude.{ℕ, ◌*◌, ◌^◌, ◌<◌, ◌≡◌, true, Bool, List, ℤ, pos, negsuc, sym, arith}
use tram.Sys.{Env, Trace, done}
use tram.Settings.{bytes_per_sample, Settings}
use tram.Avtp.{Avtp, HasCodes}
use tram.Packet.{bit_depth_to_aaf, sample_rate_to_aaf}
use tram.Packet.RoundTrip.{FitsHeader}
use tram.Alsa.{PcmFormats, setup, resize}
use tram.Alsa.Setup.{setup-resize}
use tram.Cli.{Config, is_depth, to_unsigned, settings_of}
use tram.Cli.Valid.{Complete}

module _ (a : Avtp) (codes : HasCodes a) where
  bit_depth_to_aaf-lt : (depth : ℕ) → bit_depth_to_aaf a depth < 2 ^ 8
  unfolding bit_depth_to_aaf
  bit_depth_to_aaf-lt depth = ground (arith, codes)

  sample_rate_to_aaf-lt : (rate : ℕ) → sample_rate_to_aaf a rate < 2 ^ 4
  unfolding sample_rate_to_aaf
  sample_rate_to_aaf-lt rate = ground (arith, codes)

  depth-lt : (z : ℤ) → is_depth z ≡ true → to_unsigned 32 z < 2 ^ 8
  depth-lt (pos d) h = ground arith
  depth-lt (negsuc d) h = cc

  module _ (c : Config) (complete : Complete c) (n : ℕ) (channels : c.channels ≡ pos n)
      (few : n < 2 ^ 10) (identified : c.stream_id < 2 ^ 64) where
    resize-FitsHeader :
        (rate frames : ℕ)
        → bytes_per_sample (settings_of a c).bit_depth
            * (settings_of a c).channels
            * (settings_of a c).hw_latency
          < 2 ^ 16
        → FitsHeader (resize (settings_of a c) rate frames)
    unfolding settings_of resize
    resize-FitsHeader rate frames small = record {
      stream_id_fits = identified;
      format_fits = bit_depth_to_aaf-lt (to_unsigned 32 c.bit_depth);
      nsr_fits = sample_rate_to_aaf-lt (to_unsigned 32 c.sample_rate);
      channels_fits = rw channels (omega arith);
      bit_depth_fits = depth-lt c.bit_depth complete.in_range.depth;
      data_len_fits = omega arith;
    }

    -- Where the codes of libavtp fit their fields: for an accepted command line with less than
    -- 1024 channels, a stream number of 64 bits and a payload of less than 2 ^ 16 bytes, a setup
    -- of the sound card that returns from the settings of `main` leaves settings that fit the
    -- fields of the header.
    pub settings_of-FitsHeader :
        (env : Env) (formats : PcmFormats) (device : List ℕ) (is_recorder : Bool) (t u : Trace)
        {set : Settings}
        → bytes_per_sample (settings_of a c).bit_depth
            * (settings_of a c).channels
            * (settings_of a c).hw_latency
          < 2 ^ 16
        → setup env formats device is_recorder (settings_of a c) t ≡ done set u
        → FitsHeader set
    settings_of-FitsHeader env formats device is_recorder t u {set} small returned =
        subst FitsHeader
          (sym (setup-resize env formats device is_recorder (settings_of a c) t u returned))
          (resize-FitsHeader set.sample_rate (env.period u) small)
