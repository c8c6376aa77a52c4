-- ===== src/Examples/Devices.antt =====
-- Runs on the descriptors, the sound card and a whole session.
use tram.Prelude.{◌*◌, ◌≡◌, ◌<◌, ◌↔◌, true, false, [], ◌∷◌, refl, arith}
use tram.Sys.{
  Trace, done, pcm_get_period_size, pcm_hw_params, pcm_set_period_size_near, pcm_set_rate_near,
  pcm_set_channels, pcm_set_format, pcm_set_access, pcm_any, pcm_open,
}
use tram.Settings.{Settings, bytes_per_sample}
use tram.Alsa
use tram.Alsa.{PcmFormats}
use tram.Alsa.Setup.{IsSized, setup-IsSized, setup_overflow}
use tram.Listener.{State}
use tram.Stats.Report.{collected}
use tram.Session.{finish}
use tram.Session.Teardown.{Ended, finish_lem}
use tram.Examples.Data.{cooked, stream, radio, floats, fds, node_at}

abbrev pub formats : PcmFormats
formats = record { s16_le = 2; s24_3le = 32; float_le = 14 }

-- The device makes the period eight frames where four were asked for.
abbrev set_up : Settings
set_up = record stream { frames_per_pdu = 8; hw_latency = 8 }

abbrev entered : Settings
entered = record stream { data_len = 4; pdu_size = 28 }

abbrev set_up_trace : Trace
set_up_trace =
    pcm_get_period_size
    ∷ pcm_hw_params
    ∷ pcm_set_period_size_near 4
    ∷ pcm_set_rate_near 48000
    ∷ pcm_set_channels 2
    ∷ pcm_set_format 2
    ∷ pcm_set_access
    ∷ pcm_any
    ∷ pcm_open [] false
    ∷ []

setup_returns : Alsa.setup radio formats [] false entered [] ≡ done set_up set_up_trace
unfolding Alsa.setup Alsa.resize Alsa.bit_depth_to_alsa
setup_returns = refl

setup-IsSized_example : IsSized 24 set_up ↔ (radio.period set_up_trace ≡ 4)
setup-IsSized_example =
    setup-IsSized radio formats [] false entered 24 [] set_up_trace {set' = set_up} setup_returns
      refl (omega arith) (omega arith) (omega arith)

setup_overflow_example : 16 < bytes_per_sample 16 * 2 * 8
setup_overflow_example =
    setup_overflow radio formats [] false entered 24 [] set_up_trace {set' = set_up} setup_returns
      refl (omega arith) (omega arith) (omega arith) (omega arith)

abbrev two_packets : State
two_packets = record {
  samples = [];
  expected_seq = 2;
  stats = collected (node_at 1 ∷ node_at 0 ∷ []) 0;
  is_running = false;
}

finish_lem_example :
    Ended radio floats cooked fds stream true
      (node_at 1 ∷ node_at 0 ∷ [])
      0
      []
      (finish radio floats cooked fds stream true [] two_packets [])
finish_lem_example =
    finish_lem radio floats cooked fds stream [] (λ u. refl) true (node_at 1 ∷ node_at 0 ∷ []) 0
      two_packets [] refl
