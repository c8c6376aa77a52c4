-- ===== src/Examples/Options.antt =====
-- A command line: a talker with six channels.
use tram.Prelude.{◌≡◌, ◌↔◌, ◌-◌, ◌∷◌, [], List, none, some, true, refl, arith, pos}
use tram.Sys.{
  done, Trace, pcm_get_period_size, pcm_hw_params, pcm_set_period_size_near, pcm_set_rate_near,
  pcm_set_channels, pcm_set_format, pcm_set_access, pcm_any, pcm_open,
}
use tram.Settings.{Settings}
use tram.Avtp.Toy.{toy}
use tram.Alsa
use tram.Packet.{bit_depth_to_aaf, sample_rate_to_aaf}
use tram.Alsa.Setup.{IsSized}
use tram.Cli.{
  Scan, Arg, interface_arg, talker_arg, channels_arg, dst_addr_arg, Config, default_config,
  settings_of, parse_args, parse_arg, parser, parser_talker, parser_listener,
}
use tram.Cli.Valid.{Complete, parse_args-Complete}
use tram.Cli.Sizes.{settings_of-IsSized}
use tram.Examples.Data.{radio}
use tram.Examples.Devices.{formats}

-- reads one digit
abbrev pub scan : Scan
scan = record {
  atoi = λ arg. elim arg [ [] ↦ pos 0 | c ∷ cs ↦ pos (c - 48) ];
  hex = λ arg. none;
  mac = λ arg. some arg;
}

abbrev pub six_channels : List Arg
six_channels =
    interface_arg (101 ∷ []) ∷ talker_arg ∷ channels_arg (54 ∷ []) ∷ dst_addr_arg (1 ∷ 2 ∷ []) ∷ []

abbrev six : Config
six = record default_config {
  ifname = 101 ∷ [];
  got_iface = true;
  talker_mode = true;
  channels = pos 6;
  macaddr = 1 ∷ 2 ∷ [];
  got_mac = true;
}

six_parsed : parse_args scan six_channels default_config [] ≡ done six []
unfolding parse_args parse_arg parser parser_talker parser_listener
six_parsed = refl

parse_args-Complete_example : Complete six
parse_args-Complete_example = parse_args-Complete scan six_channels [] [] {c = six} six_parsed

six-Complete : Complete six
six-Complete = record {
  in_range = record { depth = refl; priority = refl };
  interface = refl;
  destination = refl;
  timeout = refl;
}

abbrev six_trace : Trace
six_trace =
    pcm_get_period_size
    ∷ pcm_hw_params
    ∷ pcm_set_period_size_near 128
    ∷ pcm_set_rate_near 48000
    ∷ pcm_set_channels 6
    ∷ pcm_set_format 2
    ∷ pcm_set_access
    ∷ pcm_any
    ∷ pcm_open [] true
    ∷ []

abbrev six_settings : Settings
six_settings = record {
  stream_id = 0xAABB_CCDD_EEFF_0001;
  sample_rate = 48000;
  bit_depth = 16;
  channels = 6;
  data_len = 1536;
  pdu_size = 1560;
  aaf_sample_rate = 5;
  aaf_bit_depth = 4;
  hw_latency = 8;
  frames_per_pdu = 8;
  max_transit_time = 100;
}

six_set_up : Alsa.setup radio formats [] true (settings_of toy six) [] ≡ done six_settings six_trace
unfolding settings_of Alsa.setup Alsa.resize Alsa.bit_depth_to_alsa bit_depth_to_aaf
    sample_rate_to_aaf
six_set_up = refl

settings_of-IsSized_example :
    IsSized 24 six_settings ↔ (radio.period six_trace ≡ (settings_of toy six).hw_latency)
unfolding settings_of
settings_of-IsSized_example =
    settings_of-IsSized toy six 6 refl refl (omega arith) radio formats [] true [] six_trace
      {set' = six_settings} six-Complete (omega arith) (omega arith) six_set_up
