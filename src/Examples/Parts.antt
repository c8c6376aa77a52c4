-- ===== src/Examples/Parts.antt =====
-- The calls of two whole runs of the program, of which the network has lost one packet.
use tram.Prelude.{map, take, true, false, [], refl}
use mathlib.Core.List.{Sublistᴰ}
use tram.Sys.{Trace}
use tram.Time.{arm_timer, get_presentation_time, ns_to_timespec, calculate_avtp_time}
use tram.Terminal.{term_nonblock_setup}
use tram.Socket.{create_talker_socket, create_listener_socket, setup_socket_address}
use tram.Reports.{print_settings, settings_lines, print_stats, stats_lines}
use tram.Stats.{push, add_dropped, process_stats, process_stat, clear}
use tram.Alsa
use tram.Avtp.Toy.{toy}
use tram.Packet.{
  init_pdu, stamp_pdu, advance, is_valid_format, is_valid_packet, bit_depth_to_aaf,
  sample_rate_to_aaf,
}
use tram.Playout.{schedule_sample, arm_first, play_fragment, aaf_timeout}
use tram.Listener.{
  loop, step, receive, new_packet, take_packet, take_timed, note_drops, accept, playback, play,
  poll_exit,
}
use tram.Listener.View.{heard, played, Fits}
use tram.Session.{
  avb_aaf_listener, open_all, open_timers, session, start_recording, start_session_timer,
  setup_session_timer, conclude, finish, report, release,
}
use tram.Talker
use tram.Talker.{avb_aaf_talker, connect, transmit, stop}
use tram.Talker.Relay.{sent_pdus, captured}
use tram.Network.{history, Carried, arrived, lost, nothing}
use tram.Network.Parts.{Starts, main-PlaysPart}
use tram.Cli.{main, run, parse_args, parse_arg, parser, parser_talker, parser_listener, settings_of}
use tram.Examples.Data.{floats, fds}
use tram.Examples.Devices.{formats}
use tram.Examples.Air.{speaker, hearer, set_up, packet_at}
use tram.Examples.Lines.{dial, talk_args, talking, listen_args, listening}
use tram.Examples.Program.{tuned, opened, sounding, sized}

talking-Starts : Starts dial true talk_args talking []
unfolding parse_args parse_arg parser parser_talker parser_listener
talking-Starts = record { accepted = refl; mode = refl; is_sized = refl }

listening-Starts : Starts dial false listen_args listening []
unfolding parse_args parse_arg parser parser_talker parser_listener
listening-Starts = record { accepted = refl; mode = refl; is_sized = refl }

abbrev sending : Trace
sending = history (main speaker toy floats formats dial 3 [] talk_args [])

abbrev playing : Trace
playing = history (main hearer toy floats formats dial 2 [] listen_args [])

carried : Carried (Fits toy set_up) (heard hearer playing) (sent_pdus sending)
unfolding main run parse_args parse_arg parser parser_talker parser_listener settings_of
    bit_depth_to_aaf sample_rate_to_aaf avb_aaf_talker term_nonblock_setup create_talker_socket
    setup_socket_address connect transmit print_settings settings_lines Alsa.setup Alsa.resize
    Alsa.bit_depth_to_alsa init_pdu stop Talker.finish Alsa.close Talker.loop Talker.step
    Talker.timed Talker.send_at Talker.send stamp_pdu Alsa.read calculate_avtp_time loop step
    receive new_packet is_valid_packet is_valid_format advance take_packet take_timed note_drops
    accept push schedule_sample arm_first playback play play_fragment aaf_timeout Alsa.write
    poll_exit get_presentation_time ns_to_timespec add_dropped avb_aaf_listener open_all open_timers
    create_listener_socket session start_recording start_session_timer setup_session_timer conclude
    finish report release process_stats process_stat clear print_stats stats_lines arm_timer
carried = arrived (packet_at 0) (lost (packet_at 1) (arrived (packet_at 2) nothing))

main-PlaysPart_example : Sublistᴰ (played playing) (map (take 32) (captured speaker sending))
main-PlaysPart_example =
    main-PlaysPart toy floats formats dial [] speaker 3 talk_args talking [] hearer 2 listen_args
      listening [] tuned sounding fds set_up talking-Starts refl listening-Starts (refl, refl)
      opened sized carried
