-- ===== src/Examples/Lines.antt =====
-- Two command lines, of a talker and of a listener of its stream.
use tram.Prelude.{◌-◌, true, some, List, [], ◌∷◌, pos, refl, arith}
use tram.Avtp.{HasCodes}
use tram.Avtp.Toy.{toy}
use tram.Network.Program.{Talks, Listens}
use tram.Cli.{
  Scan, Arg, interface_arg, latency_arg, stream_id_arg, dst_addr_arg, talker_arg, timeout_arg,
  Config, default_config, settings_of, parse_args, parse_arg, parser, parser_talker,
  parser_listener,
}
use tram.Examples.Options.{scan}

-- reads stream numbers, too: their first digit
abbrev pub dial : Scan
dial = record scan { hex = λ arg. elim arg [ [] ↦ some 0 | c ∷ cs ↦ some (c - 48) ] }

-- interface "e", stream 1, a latency of 8 frames; a talker that sends to 1:0:94:0:0:1
abbrev pub talk_args : List Arg
talk_args =
    interface_arg (101 ∷ [])
    ∷ stream_id_arg (49 ∷ [])
    ∷ latency_arg (56 ∷ [])
    ∷ talker_arg
    ∷ dst_addr_arg (1 ∷ 0 ∷ 94 ∷ 0 ∷ 0 ∷ 1 ∷ [])
    ∷ []

abbrev pub talking : Config
talking = record default_config {
  ifname = 101 ∷ [];
  got_iface = true;
  stream_id = 1;
  hw_latency = pos 8;
  talker_mode = true;
  macaddr = 1 ∷ 0 ∷ 94 ∷ 0 ∷ 0 ∷ 1 ∷ [];
  got_mac = true;
}

-- the same stream, for 9 seconds
abbrev pub listen_args : List Arg
listen_args =
    timeout_arg (57 ∷ [])
    ∷ latency_arg (56 ∷ [])
    ∷ stream_id_arg (49 ∷ [])
    ∷ interface_arg (101 ∷ [])
    ∷ []

abbrev pub listening : Config
listening = record default_config {
  ifname = 101 ∷ [];
  got_iface = true;
  stream_id = 1;
  hw_latency = pos 8;
  record_time = pos 9;
}

pub toy-HasCodes : HasCodes toy
toy-HasCodes = record {
  int_16bit_fits = omega arith;
  int_24bit_fits = omega arith;
  float_32bit_fits = omega arith;
  nsr_44_1khz_fits = omega arith;
  nsr_48khz_fits = omega arith;
  nsr_96khz_fits = omega arith;
  nsr_192khz_fits = omega arith;
}

pub talks : Talks dial toy talk_args talking []
unfolding parse_args parse_arg parser parser_talker parser_listener settings_of
talks = record {
  accepted = refl;
  talks = refl;
  is_sized = refl;
  channels = 2;
  channels_are = refl;
  few = omega arith;
  identified = omega arith;
  small = omega arith;
}

pub listens : Listens dial listen_args talking listening []
unfolding parse_args parse_arg parser parser_talker parser_listener
listens = record {
  accepted = refl;
  listens = refl;
  same = record {
    same_stream_id = refl;
    same_bit_depth = refl;
    same_sample_rate = refl;
    same_channels = refl;
    same_hw_latency = refl;
    same_max_transit_time = refl;
  };
}
