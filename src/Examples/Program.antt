-- ===== src/Examples/Program.antt =====
-- Two runs of the program, each started by a command line.
use tram.Prelude.{
  ℕ, zero, suc, ◌*◌, ◌≡◌, ltb, true, false, some, List, [], ◌∷◌, get_elem?, pos, refl, arith,
}
use tram.Sys.{Pdu, done, poll, Trace}
use tram.Time.{get_presentation_time, calculate_avtp_time}
use tram.Avtp.Toy.{toy, toy-IsLawful}
use tram.Alsa
use tram.Packet.{init_pdu, stamp_pdu, bit_depth_to_aaf, sample_rate_to_aaf}
use tram.Packet.RoundTrip.{FitsHeader}
use tram.Terminal.{found, after_setup, term_nonblock_setup}
use tram.Socket.{eth_p_tsn, create_talker_socket, create_listener_socket, setup_socket_address}
use tram.Reports.{print_settings, settings_lines}
use tram.Talker
use tram.Talker.{avb_aaf_talker, connect, transmit, stop, finish}
use tram.Talker.Relay.{sent_pdus, captured}
use tram.Talker.Broadcast.{OnAir}
use tram.Session.{open_all, open_timers}
use tram.Listener.Receipts.{receipts}
use tram.Network.{history}
use tram.Network.Delivery.{Delivers}
use tram.Network.Program.{Performs, main-Performs}
use tram.Cli.{settings_of, parse_args, parse_arg, parser, parser_talker, parser_listener, run, main}
use tram.Cli.Header.{settings_of-FitsHeader}
use tram.Cli.Valid.{parse_args-Complete}
use tram.Examples.Data.{floats, fds, avtp_time, presentation}
use tram.Examples.Devices.{formats}
use tram.Examples.Air.{
  speaker, set_up, packet_at, hearer, hearer-HonestTimer, hearer-Healthy, hearer-escape,
}
use tram.Examples.Lines.{
  dial, talk_args, talking, listen_args, listening, toy-HasCodes, talks, listens,
}

-- the histories of the talker once its socket, its address and its sound card are there
abbrev connected : Trace
connected = history (create_talker_socket speaker (pos 2) (after_setup speaker []))

abbrev addressed : Trace
addressed =
    history
      (setup_socket_address speaker (pos 3) talking.ifname talking.macaddr eth_p_tsn connected)

abbrev carded : Trace
carded =
    history (Alsa.setup speaker formats talking.device true (settings_of toy talking) addressed)

pub on_air :
    OnAir speaker formats talking.ifname talking.macaddr
      (pos 2)
      (settings_of toy talking)
      talking.device
      set_up
      []
unfolding create_talker_socket setup_socket_address Alsa.setup Alsa.resize Alsa.bit_depth_to_alsa
    settings_of bit_depth_to_aaf sample_rate_to_aaf
on_air = record {
  silent = (refl, refl);
  fd = pos 3;
  after_socket = connected;
  opened = refl;
  is_open = refl;
  address = record {
    sll_protocol = 0xF022;
    sll_halen = 6;
    sll_ifindex = 2;
    sll_addr = talking.macaddr;
  };
  after_address = addressed;
  addressed = refl;
  after_card = carded;
  set_up = refl;
}

card_set_up :
    Alsa.setup speaker formats talking.device true (settings_of toy talking) addressed
    ≡ done set_up carded
unfolding setup_socket_address Alsa.setup Alsa.resize Alsa.bit_depth_to_alsa settings_of
    bit_depth_to_aaf sample_rate_to_aaf
card_set_up = refl

settings_of-FitsHeader_example : FitsHeader set_up
unfolding settings_of
settings_of-FitsHeader_example =
    settings_of-FitsHeader toy toy-HasCodes talking
      (parse_args-Complete dial talk_args [] [] {c = talking} talks.accepted) 2 refl (omega arith)
      (omega arith) speaker formats talking.device true addressed carded {set = set_up}
      (omega arith) card_set_up

-- the packets of three rounds of the talker
abbrev packets : List Pdu
packets = sent_pdus (history (main speaker toy floats formats dial 3 [] talk_args []))

packets_are : packets ≡ packet_at 0 ∷ packet_at 1 ∷ packet_at 2 ∷ []
unfolding main run parse_args parse_arg parser parser_talker parser_listener settings_of
    bit_depth_to_aaf sample_rate_to_aaf avb_aaf_talker term_nonblock_setup create_talker_socket
    setup_socket_address connect transmit print_settings settings_lines Alsa.setup Alsa.resize
    Alsa.bit_depth_to_alsa init_pdu stop finish Alsa.close Talker.loop Talker.step Talker.timed
    Talker.send_at Talker.send stamp_pdu Alsa.read calculate_avtp_time
packets_are = refl

pub packets_at : (m : ℕ) → ltb m 2 ≡ true → get_elem? packets (2 * m) ≡ some (packet_at (2 * m))
packets_at zero ready = rw packets_are refl
packets_at (suc zero) ready = rw packets_are refl
packets_at (suc (suc m)) ready = absurd (ground arith)

delivers :
    (t : Trace)
    → ltb (receipts t) 2 ≡ true
    → Delivers hearer toy fds set_up packets
        (λ m. 2 * m)
        (poll fds.sk_fd fds.timer_fd fds.session_tim_fd ∷ t)
unfolding get_presentation_time
delivers t ready = record {
  delivered = record { clock_read = refl; whole = refl };
  sent_at = packets_at (receipts t) ready;
  timely = λ stamp e. let same : avtp_time ≡ stamp = cc in (presentation, rw (← same) refl);
}

-- the history of the listener once its descriptors are there
abbrev pub tuned : Trace
tuned = history (open_all hearer listening.ifname (after_setup hearer []))

pub opened : open_all hearer listening.ifname (after_setup hearer []) ≡ done (some fds) tuned
unfolding open_all open_timers create_listener_socket
opened = refl

abbrev pub sounding : Trace
sounding =
    history (Alsa.setup hearer formats listening.device false (settings_of toy listening) tuned)

pub sized :
    Alsa.setup hearer formats listening.device false (settings_of toy listening) tuned
    ≡ done set_up sounding
unfolding Alsa.setup Alsa.resize Alsa.bit_depth_to_alsa settings_of bit_depth_to_aaf
    sample_rate_to_aaf
sized = refl

main-Performs_example :
    Performs
      (λ m. 2 * m)
      (captured speaker (history (main speaker toy floats formats dial 3 [] talk_args [])))
      hearer
      toy
      floats
      (found hearer [])
      fds
      set_up
      []
      2
      (main hearer toy floats formats dial 2 [] listen_args [])
main-Performs_example =
    main-Performs speaker toy toy-IsLawful toy-HasCodes floats formats dial 3 [] talk_args []
      talking talks set_up on_air (λ m. 2 * m) (λ m. omega arith) (λ m. omega arith) hearer
      hearer-Healthy fds delivers 4 hearer-HonestTimer refl refl 2 hearer-escape 1 0 refl
      listen_args listening [] tuned sounding {set' = set_up} listens (refl, refl, refl, refl)
      opened sized refl refl
