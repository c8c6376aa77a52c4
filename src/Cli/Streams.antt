-- ===== src/Cli/Streams.antt =====
-- Command lines that name one stream.
use tram.Prelude.{ℕ, ◌≡◌, ◌∙◌, Bool, true, List, sym}
use tram.Sys.{Env, Trace, done}
use tram.Settings.{Settings}
use tram.Avtp.{Avtp}
use tram.Alsa.{PcmFormats, setup}
use tram.Alsa.Setup.{setup-resize}
use tram.Cli.{Config, is_int, frame_size, settings_of}

-- the options that the settings are made of
pub record SameStream (c d : Config) : Type 0 where
  pub same_stream_id : d.stream_id ≡ c.stream_id
  pub same_bit_depth : d.bit_depth ≡ c.bit_depth
  pub same_sample_rate : d.sample_rate ≡ c.sample_rate
  pub same_channels : d.channels ≡ c.channels
  pub same_hw_latency : d.hw_latency ≡ c.hw_latency
  pub same_max_transit_time : d.max_transit_time ≡ c.max_transit_time

module _ (a : Avtp) (c d : Config) (same : SameStream c d) where
  open same use {
    same_stream_id, same_bit_depth, same_sample_rate, same_channels, same_hw_latency,
    same_max_transit_time,
  }

  pub is_int-same : is_int (frame_size c) ≡ true → is_int (frame_size d) ≡ true
  is_int-same fits = rw (same_bit_depth, same_channels) fits

  settings_of-same : settings_of a d ≡ settings_of a c
  unfolding settings_of
  settings_of-same = rw (
    same_stream_id, same_bit_depth, same_sample_rate, same_channels, same_hw_latency,
    same_max_transit_time,
  )

  -- Two sound cards that settle on the same rate and period leave the same settings.
  pub setup-same :
      (talking env : Env) (formats : PcmFormats) (device other : List ℕ) (is_recorder : Bool)
      (rec : Bool) (t u v w : Trace) {set set' : Settings}
      → setup talking formats device is_recorder (settings_of a c) t ≡ done set u
      → setup env formats other rec (settings_of a d) v ≡ done set' w
      → env.period w ≡ talking.period u
      → set'.sample_rate ≡ set.sample_rate
      → set' ≡ set
  setup-same talking env formats device other is_recorder rec t u v w {set} {set'} one two period
        rate =
      setup-resize env formats other rec (settings_of a d) v w two
      ∙ (rw (settings_of-same, rate, period)
          (sym (setup-resize talking formats device is_recorder (settings_of a c) t u one)))
