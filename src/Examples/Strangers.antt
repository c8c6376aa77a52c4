-- ===== src/Examples/Strangers.antt =====
-- A listener of the stream 2, on a network with a talker of the stream 1.
use tram.Prelude.{ℕ, ◌*◌, ◌≡◌, true, false, some, List, [], ◌∷◌, get_elem?, pos, refl}
use tram.Sys.{Trace, done}
use tram.Avtp.Toy.{toy, toy-IsLawful}
use tram.Alsa
use tram.Packet.{bit_depth_to_aaf, sample_rate_to_aaf}
use tram.Terminal.{after_setup}
use tram.Socket.{create_listener_socket}
use tram.Settings.{Settings}
use tram.Session.{open_all, open_timers}
use tram.Session.Deaf.{Breaks}
use tram.Listener.{received}
use tram.Listener.Packets.{after_recv}
use tram.Listener.Receipts.{receipts}
use tram.Listener.Rule.{polled}
use tram.Talker.Relay.{sent_pdus}
use tram.Network.{history}
use tram.Network.Strangers.{main-Breaks}
use tram.Cli.{
  Arg, interface_arg, latency_arg, stream_id_arg, Config, settings_of, parse_args, parse_arg,
  parser, parser_talker, parser_listener, default_config, main,
}
use tram.Examples.Data.{floats, fds}
use tram.Examples.Devices.{formats}
use tram.Examples.Air.{speaker, set_up, hearer, hearer-HonestTimer, hearer-escape}
use tram.Examples.Lines.{dial, talk_args, talking, toy-HasCodes, talks}
use tram.Examples.Program.{on_air, packets_at}

abbrev stranger_args : List Arg
stranger_args = interface_arg (101 ∷ []) ∷ stream_id_arg (50 ∷ []) ∷ latency_arg (56 ∷ []) ∷ []

abbrev stranger : Config
stranger = record default_config {
  ifname = 101 ∷ [];
  got_iface = true;
  stream_id = 2;
  hw_latency = pos 8;
}

abbrev other_stream : Settings
other_stream = record set_up { stream_id = 2 }

accepted : parse_args dial stranger_args default_config [] ≡ done stranger []
unfolding parse_args parse_arg parser parser_talker parser_listener
accepted = refl

comes :
    (t : Trace)
    → (hearer.ready (polled fds t)).socket_ready ≡ true
    → received (hearer.ret (after_recv fds other_stream (polled fds t))) other_stream.pdu_size
      ≡ true
    → (i : ℕ) × (get_elem?
          (sent_pdus (history (main speaker toy floats formats dial 3 [] talk_args [])))
          i
        ≡ some (hearer.packet (after_recv fds other_stream (polled fds t))))
comes t ready whole = (2 * receipts t, packets_at (receipts t) ready)

abbrev tuned : Trace
tuned = history (open_all hearer stranger.ifname (after_setup hearer []))

opened : open_all hearer stranger.ifname (after_setup hearer []) ≡ done (some fds) tuned
unfolding open_all open_timers create_listener_socket
opened = refl

abbrev sounding : Trace
sounding =
    history (Alsa.setup hearer formats stranger.device false (settings_of toy stranger) tuned)

sized :
    Alsa.setup hearer formats stranger.device false (settings_of toy stranger) tuned
    ≡ done other_stream sounding
unfolding Alsa.setup Alsa.resize Alsa.bit_depth_to_alsa settings_of bit_depth_to_aaf
    sample_rate_to_aaf
sized = refl

main-Breaks_example :
    Breaks hearer toy fds other_stream [] 2
      (main hearer toy floats formats dial 2 [] stranger_args [])
main-Breaks_example =
    main-Breaks speaker toy toy-IsLawful toy-HasCodes floats formats dial 3 [] talk_args [] talking
      talks set_up on_air hearer fds stranger (λ e. cc) other_stream comes 4 hearer-HonestTimer refl
      refl 2 hearer-escape 1 0 refl stranger_args [] tuned sounding accepted refl refl
      (refl, refl, refl, refl) opened sized
