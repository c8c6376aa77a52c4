-- ===== src/Cli.antt =====
-- The command line, avbperf/avbperf.c: `parser`, `parser_talker`, `parser_listener` and `main`.
-- argp hands each option to the parser that knows it, and then tells all of them of the end.
pub mod Valid
pub mod Sizes
pub mod Unread
pub mod Stops
pub mod Whole
pub mod Streams
pub mod Header
use tram.Prelude.{
  ℕ, ◌+◌, ◌*◌, ◌-◌, ◌%◌, ◌^◌, u32, ltb, ◌==◌, not, ◌&&◌, ◌||◌, if◌then◌else◌, Bool, true, false,
  Option, none, some, List, [], ◌∷◌, length, take, is_empty, ℤ, pos, negsuc, neg, is_zero,
}
use tram.Sys.{Env, M, ◌>>=◌, pure, fault, exit, buffer_overflow, out_of_range}
use tram.Settings.{Settings, Floats, bytes_per_sample}
use tram.Avtp.{Avtp}
use tram.Packet.{bit_depth_to_aaf, sample_rate_to_aaf}
use tram.Alsa.{PcmFormats}
use tram.Session.{avb_aaf_listener}
use tram.Talker.{avb_aaf_talker}

-- the functions of the C library that read numbers
pub record Scan : Type 0 where
  pub atoi : List ℕ → ℤ
  -- `%16lx`, if it matches
  pub hex : List ℕ → Option ℕ
  -- six numbers `%hhx` between colons, if all match
  pub mac : List ℕ → Option (List ℕ)

-- the calls of the parsers, by their keys
pub data Arg : Type 0 where
  interface_arg device_arg latency_arg stream_id_arg bit_depth_arg sample_rate_arg channels_arg :
      List ℕ → Arg
  dst_addr_arg priority_arg max_transit_time_arg : List ℕ → Arg
  transit_time_arg timeout_arg file_arg : List ℕ → Arg
  talker_arg : Arg
  key_end : Arg

-- the static variables
pub record Config : Type 0 where
  pub ifname : List ℕ
  pub talker_mode : Bool
  pub stream_id : ℕ
  pub bit_depth : ℤ
  pub sample_rate : ℤ
  pub channels : ℤ
  pub device : List ℕ
  pub hw_latency : ℤ
  pub macaddr : List ℕ
  pub priority : ℤ
  pub max_transit_time : ℤ
  pub record_time : ℤ
  pub record_file : List ℕ
  pub got_iface : Bool
  pub got_mac : Bool

-- The device is the word "default", in ASCII.
abbrev pub default_config : Config
default_config = record {
  ifname = [];
  talker_mode = false;
  stream_id = 0xAABB_CCDD_EEFF_0001;
  bit_depth = pos 16;
  sample_rate = pos 48000;
  channels = pos 2;
  device = 100 ∷ 101 ∷ 102 ∷ 97 ∷ 117 ∷ 108 ∷ 116 ∷ [];
  hw_latency = pos 128;
  macaddr = 0 ∷ 0 ∷ 0 ∷ 0 ∷ 0 ∷ 0 ∷ [];
  priority = pos 2;
  max_transit_time = pos 100;
  record_time = pos 0;
  record_file = [];
  got_iface = false;
  got_mac = false;
}

abbrev pub is_depth : ℤ → Bool
is_depth (pos n) = (n == 16) || (n == 24) || (n == 32)
is_depth (negsuc n) = false

unfoldable pub parser : Scan → Arg → Config → M Config
parser s (interface_arg arg) c = pure (record c { ifname = take 15 arg; got_iface = true })
parser s (device_arg arg) c = pure (record c { device = take 31 arg })
parser s (latency_arg arg) c = pure (record c { hw_latency = s.atoi arg })
parser s talker_arg c = pure (record c { talker_mode = true })
parser s (stream_id_arg arg) c =
    pure (record c { stream_id = elim (s.hex arg) [ none ↦ c.stream_id | some id ↦ id ] })
parser s (bit_depth_arg arg) c =
    if is_depth (s.atoi arg) then pure (record c { bit_depth = s.atoi arg }) else exit 1
parser s (sample_rate_arg arg) c = pure (record c { sample_rate = s.atoi arg })
parser s (channels_arg arg) c = pure (record c { channels = s.atoi arg })
parser s key_end c = if c.got_iface then pure c else exit 1
parser s _ c = pure c

-- `priority < 0 || priority >= 7` is false
abbrev pub is_priority : ℤ → Bool
is_priority (pos n) = ltb n 7
is_priority (negsuc n) = false

abbrev pub set_mac : Option (List ℕ) → Config → M Config
set_mac none c = exit 1
set_mac (some mac) c = pure (record c { macaddr = mac; got_mac = true })

unfoldable pub parser_talker : Scan → Arg → Config → M Config
parser_talker s (dst_addr_arg arg) c = set_mac (s.mac arg) c
parser_talker s (priority_arg arg) c =
    if is_priority (s.atoi arg) then pure (record c { priority = s.atoi arg }) else exit 1
parser_talker s (max_transit_time_arg arg) c = pure (record c { max_transit_time = s.atoi arg })
parser_talker s key_end c = if c.talker_mode && not c.got_mac then exit 1 else pure c
parser_talker s _ c = pure c

-- `strcpy` into 64 bytes is not checked.
unfoldable pub parser_listener : Scan → Arg → Config → M Config
parser_listener s (transit_time_arg arg) c = pure (record c { max_transit_time = s.atoi arg })
parser_listener s (timeout_arg arg) c = pure (record c { record_time = s.atoi arg })
parser_listener s (file_arg arg) c =
    if ltb (length arg) 64 then pure (record c { record_file = arg }) else fault buffer_overflow
parser_listener s key_end c =
    if not (is_empty c.record_file) && is_zero c.record_time then exit 1 else pure c
parser_listener s _ c = pure c

unfoldable pub parse_arg : Scan → Arg → Config → M Config
unfolding parser parser_talker parser_listener
parse_arg s arg c = parser s arg c >>= parser_talker s arg >>= parser_listener s arg

-- the options in their order, and then the end
unfoldable pub parse_args : Scan → List Arg → Config → M Config
unfolding parse_arg
parse_args s [] c = parse_arg s key_end c
parse_args s (arg ∷ args) c = parse_arg s arg c >>= parse_args s args

-- conversions of `int`
abbrev pub to_unsigned : (width : ℕ) → ℤ → ℕ
to_unsigned width (pos n) = n % 2 ^ width
to_unsigned width (negsuc n) = 2 ^ width - 1 - n % 2 ^ width

abbrev pub scale : ℕ → ℤ → ℤ
scale k (pos n) = pos (k * n)
scale k (negsuc n) = neg (pos (k * (n + 1)))

abbrev pub is_int : ℤ → Bool
is_int (pos n) = ltb n (2 ^ 31)
is_int (negsuc n) = ltb n (2 ^ 31)

-- the number of bytes in a frame
abbrev pub frame_size : Config → ℤ
frame_size c = scale (bytes_per_sample (to_unsigned 32 c.bit_depth)) c.channels

-- the settings that `main` passes on, before the sound card has been set up
unfoldable pub settings_of : Avtp → Config → Settings
unfolding bit_depth_to_aaf sample_rate_to_aaf
settings_of a c =
    let data_len = to_unsigned 32 (frame_size c) in
    record {
      stream_id = c.stream_id;
      sample_rate = to_unsigned 32 c.sample_rate;
      bit_depth = to_unsigned 32 c.bit_depth;
      channels = to_unsigned 32 c.channels;
      data_len = data_len;
      pdu_size = u32 (a.sizeof_pdu + data_len);
      aaf_sample_rate = sample_rate_to_aaf a (to_unsigned 32 c.sample_rate);
      aaf_bit_depth = bit_depth_to_aaf a (to_unsigned 32 c.bit_depth);
      hw_latency = to_unsigned 32 c.hw_latency;
      frames_per_pdu = to_unsigned 64 c.hw_latency;
      max_transit_time = to_unsigned 32 c.max_transit_time;
    }

-- What follows `argp_parse`. A frame's size that is no `int` has no defined conversion.
unfoldable pub run :
    Env → Avtp → Floats → PcmFormats → (rounds : ℕ) → (buffer : List ℕ) → Config → M (Option ℤ)
unfolding settings_of
run env a fl formats rounds buffer c =
    if not (is_int (frame_size c))
    then fault out_of_range
    else if c.talker_mode
    then avb_aaf_talker env a fl formats rounds c.ifname c.macaddr c.priority (settings_of a c)
        c.device buffer
    else avb_aaf_listener env a fl formats rounds c.ifname (settings_of a c) c.device c.record_time
        c.record_file

unfoldable pub main :
    Env
    → Avtp
    → Floats
    → PcmFormats
    → Scan
    → (rounds : ℕ) → (buffer : List ℕ) → List Arg
    → M (Option ℤ)
unfolding parse_args run
main env a fl formats s rounds buffer args =
    parse_args s args default_config >>= run env a fl formats rounds buffer
