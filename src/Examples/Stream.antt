-- ===== src/Examples/Stream.antt =====
-- Runs on packets: the talker, the packet tests, the listener.
use tram.Prelude.{
  ℕ, ◌+◌, ◌-◌, if◌then◌else◌, ltb, ◌≡◌, ◌≢◌, ◌^◌, ◌↔◌, u8, false, true, some, [], ◌∷◌, refl, arith,
  pos,
}
use tram.Sys.{Timespec, Env, SockAddr, faulted, assertion, done, clock_gettime}
use tram.Settings.{Settings}
use tram.Time.{calculate_avtp_time, get_presentation_time, timespec_to_ns, ns_to_timespec}
use tram.Time.Presentation.{
  get_presentation_time-calculate_avtp_time, get_presentation_time_rollover,
}
use tram.Avtp.{seq_num, timestamp}
use tram.Avtp.Toy.{toy, toy-IsLawful}
use tram.Packet.{init_pdu, stamp_pdu, is_valid_packet, is_valid_format, advance}
use tram.Packet.Accept.{InStream, HasFormat, is_valid_packet_iff}
use tram.Packet.RoundTrip.{initial, is_valid_packet-stamp_pdu}
use tram.Listener.{State, loop, new_packet}
use tram.Listener.Loop.{loop-ne-assertion}
use tram.Sys.Outcomes.{Gives}
use tram.Listener.Balance.{Even}
use tram.Listener.Rounds.{loop-Even}
use tram.Listener.Ends.{Left, loop-Left}
use tram.Talker.Leaves.{Finished, loop-Finished}
use tram.Listener.Kept.{Takes, new_packet-Takes, new_packet-late}
use tram.Listener.Packets.{Delivered, after_recv, sample, drops_after}
use tram.Stats.{handler_init}
use tram.Talker
use tram.Talker.Packets.{Ended, loop-Conforms}
use tram.Examples.Data.{
  stream, stream-FitsHeader, blank_header, avtp_time, first_header, arrival, presentation, fds,
  radio, radio-HonestTimer, radio-escape, radio-Healthy,
}

abbrev fresh_state : State
fresh_state = record { samples = []; expected_seq = 0; stats = handler_init; is_running = false }

abbrev to_group : SockAddr
to_group = record { sll_protocol = 0xF022; sll_halen = 6; sll_ifindex = 2; sll_addr = [] }

loop-ne-assertion_example : loop radio toy fds stream false 3 fresh_state [] ≢ faulted assertion []
loop-ne-assertion_example =
    loop-ne-assertion radio 4 toy fds stream false 3 [] [] radio-HonestTimer refl refl

loop-Even_example : Gives Even (loop radio toy fds stream false 3 fresh_state [])
loop-Even_example = loop-Even radio radio-Healthy toy fds stream false 3 [] refl

loop-Left_example : Left (loop radio toy fds stream false 2 fresh_state [])
loop-Left_example =
    loop-Left radio 2 radio-escape toy fds stream false 4 radio-HonestTimer refl (λ u. refl) 1 []
      refl refl

loop-Finished_example : Finished (
    Talker.loop radio toy
      (pos 3)
      to_group
      stream
      2
      (record { header = blank_header; seq_num = 0 })
      [])
loop-Finished_example =
    loop-Finished radio toy stream (pos 3) to_group 2 radio-escape 1
      (record { header = blank_header; seq_num = 0 }) [] (λ t. omega arith)
      (record { pdu = refl; payload = refl }) refl

is_valid_packet-stamp_pdu_example :
    (is_valid_packet toy first_header stream 9 ≡ (true, u8 (0 + 1)))
    × (toy.aaf_get first_header timestamp ≡ some avtp_time)
    × (toy.aaf_get first_header seq_num ≡ some 0)
unfolding init_pdu stamp_pdu
is_valid_packet-stamp_pdu_example =
    is_valid_packet-stamp_pdu toy toy-IsLawful stream stream-FitsHeader {g = blank_header}
      {h = first_header} avtp_time 0 9 (initial [] refl) refl (omega arith) (omega arith)

loop-Conforms_example : Ended radio toy stream (
    Talker.loop radio toy
      (pos 3)
      to_group
      stream
      2
      (record { header = blank_header; seq_num = 0 })
      [])
unfolding init_pdu
loop-Conforms_example =
    loop-Conforms radio toy toy-IsLawful (pos 3) to_group stream stream-FitsHeader [] blank_header 2
      [] refl refl

first-InStream : InStream toy first_header stream
first-InStream = record {
  subtype_is = refl;
  version_is = refl;
  tv_is = refl;
  sp_is = refl;
  stream_id_is = refl;
}

first-HasFormat : HasFormat toy first_header stream
first-HasFormat = record {
  format_is = refl;
  nsr_is = refl;
  channels_is = refl;
  bit_depth_is = refl;
  data_len_is = refl;
}

is_valid_packet_iff_example : ((is_valid_packet toy first_header stream 9).0 ≡ true) ↔ (
    InStream toy first_header stream
    × HasFormat toy first_header stream
    × ((seq : ℕ) × (toy.aaf_get first_header seq_num ≡ some seq)))
is_valid_packet_iff_example = is_valid_packet_iff toy first_header stream 9

nine-one : ¬ ((is_valid_packet toy first_header stream 9).1 ≡ 9)
unfolding is_valid_packet is_valid_format advance
nine-one e = omega (arith, e)

first-Delivered : Delivered radio fds stream []
first-Delivered = record { clock_read = refl; whole = refl }

first_time : get_presentation_time avtp_time arrival ≡ (pos 0, presentation)
unfolding get_presentation_time
first_time = refl

new_packet-Takes_example :
    Takes fresh_state
      (drops_after handler_init 0 0)
      (u8 (0 + 1))
      (sample stream (radio.packet (after_recv fds stream [])) presentation)
      arrival
      (new_packet radio toy fds stream fresh_state [])
new_packet-Takes_example =
    new_packet-Takes radio radio-Healthy fds stream toy fresh_state [] first-Delivered
      first-InStream first-HasFormat 0 avtp_time refl refl (omega arith) 0 presentation first_time
      refl (omega arith) (omega arith)

-- the same packet, received a second later
abbrev slow_radio : Env
slow_radio = record radio { clock = λ t. record { tv_sec = 8; tv_nsec = 5 } }

slow-Delivered : Delivered slow_radio fds stream []
slow-Delivered = record { clock_read = refl; whole = refl }

late_time :
    get_presentation_time avtp_time (record { tv_sec = 8; tv_nsec = 5 }) ≡ (pos 1, presentation)
unfolding get_presentation_time
late_time = refl

new_packet-late_example :
    new_packet slow_radio toy fds stream fresh_state []
    ≡ done (pos 1, record fresh_state { expected_seq = u8 (0 + 1) }) (after_recv fds stream [])
new_packet-late_example =
    new_packet-late slow_radio (record { room = λ t. refl; timers = λ fd tspec t. refl }) fds stream
      toy fresh_state [] slow-Delivered first-InStream first-HasFormat 0 avtp_time refl refl
      (omega arith) presentation late_time refl

abbrev other_stream : Settings
other_stream = record stream { stream_id = 2 }

other-Delivered : Delivered radio fds other_stream []
other-Delivered = record { clock_read = refl; whole = refl }

of_stream : {v w : ℕ} → some v ≡ some w → v ≡ w
of_stream {v} e = cc e

not-InStream : ¬ InStream toy first_header other_stream
not-InStream s = omega (arith, of_stream s.stream_id_is)

sent_first : calculate_avtp_time radio 100 [] ≡ done (some avtp_time) (clock_gettime ∷ [])
unfolding calculate_avtp_time
sent_first = refl

abbrev midway : Timespec
midway = record { tv_sec = 7; tv_nsec = 50_000_005 }

get_presentation_time-calculate_avtp_time_example :
    get_presentation_time avtp_time midway
    ≡ (if ltb 7_100_000_005 7_050_000_005 then pos 1 else pos 0, ns_to_timespec 7_100_000_005)
unfolding timespec_to_ns
get_presentation_time-calculate_avtp_time_example =
    get_presentation_time-calculate_avtp_time radio 100 avtp_time [] (clock_gettime ∷ []) sent_first
      (omega arith) midway refl

-- a packet sent 89934592 ns before the low word wraps
abbrev wrapping : Env
wrapping = record radio { clock = λ t. record { tv_sec = 8; tv_nsec = 500_000_000 } }

sent_wrapped : calculate_avtp_time wrapping 100 [] ≡ done (some 10_065_408) (clock_gettime ∷ [])
unfolding calculate_avtp_time
sent_wrapped = refl

get_presentation_time_rollover_example :
    get_presentation_time 10_065_408 (record { tv_sec = 8; tv_nsec = 550_000_000 })
    ≡ (pos 1, ns_to_timespec (8_600_000_000 - 2 ^ 32))
unfolding timespec_to_ns
get_presentation_time_rollover_example =
    get_presentation_time_rollover wrapping 100 10_065_408 [] (clock_gettime ∷ []) sent_wrapped
      (omega arith) (record { tv_sec = 8; tv_nsec = 550_000_000 }) refl (omega arith)
