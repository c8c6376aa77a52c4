-- ===== src/Examples/Air.antt =====
-- A talker that sends three packets, and a listener that gets the first and the last of them.
use tram.Prelude.{
  ℕ, zero, suc, ◌*◌, ◌≡◌, ltb, true, some, List, [], ◌∷◌, get_elem?, pos, refl, arith,
}
use tram.Sys.{SockAddr, Pdu, Env, Trace, poll}
use tram.Time.{get_presentation_time, calculate_avtp_time}
use tram.Avtp.Toy.{toy}
use tram.Alsa
use tram.Packet.{init_pdu, stamp_pdu}
use tram.Terminal.{after_setup, term_nonblock_setup}
use tram.Socket.{eth_p_tsn, create_talker_socket, setup_socket_address}
use tram.Reports.{print_settings, settings_lines}
use tram.Settings.{Settings}
use tram.Alsa.{resize}
use tram.Talker.{avb_aaf_talker, connect, transmit, stop, finish}
use tram.Talker.Broadcast.{OnAir}
use tram.Packet.RoundTrip.{FitsHeader}
use tram.Examples.Devices.{formats}
use tram.Talker
use tram.Talker.Packets.{sends}
use tram.Network.{history}
use tram.Network.Delivery.{Delivers, broadcast}
use tram.Sys.Descriptors.{keys}
use tram.Listener.Packets.{Healthy}
use tram.Listener.Receipts.{receipts}
use tram.Playout.Armed.{HonestTimer}
use tram.Examples.Data.{
  floats, radio, receiving, receiving-HonestTimer, fds, stream, avtp_time, presentation,
}
use tram.Examples.Lossy.{before}

abbrev pub to_group : SockAddr
to_group = record { sll_protocol = 0xF022; sll_halen = 6; sll_ifindex = 2; sll_addr = [] }

abbrev pub speaker : Env
speaker = record radio { key = λ t. 0; audio = λ t. sends t ∷ 2 ∷ 3 ∷ [] }

-- The settings entered ask for the period that the sound cards have, and those left.
abbrev pub entered : Settings
entered = record stream { hw_latency = 8 }

abbrev pub set_up : Settings
set_up = record stream { data_len = 32; pdu_size = 56; hw_latency = 8; frames_per_pdu = 8 }

pub set_up-FitsHeader : FitsHeader set_up
set_up-FitsHeader = record {
  stream_id_fits = omega arith;
  format_fits = omega arith;
  nsr_fits = omega arith;
  channels_fits = omega arith;
  bit_depth_fits = omega arith;
  data_len_fits = omega arith;
}

abbrev pub packet_at : ℕ → Pdu
packet_at m = record {
  header = 2 ∷ 0 ∷ 1 ∷ 1 ∷ 4 ∷ 5 ∷ 2 ∷ 16 ∷ 32 ∷ 0 ∷ m ∷ avtp_time ∷ [];
  avtp_payload = m ∷ 2 ∷ 3 ∷ [];
}

-- a run of three rounds
abbrev pub packets : List Pdu
packets = broadcast speaker toy floats formats 3 [] [] (pos 2) entered [] [] []

pub packets_are : packets ≡ packet_at 0 ∷ packet_at 1 ∷ packet_at 2 ∷ []
unfolding avb_aaf_talker term_nonblock_setup create_talker_socket setup_socket_address connect
    transmit print_settings settings_lines Alsa.setup resize init_pdu stop finish Alsa.close
    Talker.loop Talker.step Talker.timed Talker.send_at Talker.send stamp_pdu Alsa.read
    calculate_avtp_time
packets_are = refl

pub on_air : OnAir speaker formats [] [] (pos 2) entered [] set_up []
unfolding create_talker_socket setup_socket_address Alsa.setup resize
on_air = record {
  silent = (refl, refl);
  fd = pos 3;
  after_socket = history (create_talker_socket speaker (pos 2) (after_setup speaker []));
  opened = refl;
  is_open = refl;
  address = to_group;
  after_address = history (
      setup_socket_address speaker (pos 3) [] [] eth_p_tsn
        (history (create_talker_socket speaker (pos 2) (after_setup speaker []))));
  addressed = refl;
  after_card = history (
      Alsa.setup speaker formats [] true entered (
        history (
          setup_socket_address speaker (pos 3) [] [] eth_p_tsn
            (history (create_talker_socket speaker (pos 2) (after_setup speaker []))))));
  set_up = refl;
}

-- Two packets are ready to be received, the first and the third of the talker's.
abbrev pub hearer : Env
hearer = receiving (λ t. packet_at (2 * before t)) (λ t. ltb (receipts t) 2)

pub hearer-HonestTimer : HonestTimer hearer 4
hearer-HonestTimer = receiving-HonestTimer (λ t. packet_at (2 * before t)) (λ t. ltb (receipts t) 2)

pub hearer-Healthy : Healthy hearer
hearer-Healthy = record { room = λ t. refl; timers = λ fd tspec t. refl }

packets_at : (m : ℕ) → ltb m 2 ≡ true → get_elem? packets (2 * m) ≡ some (packet_at (2 * m))
packets_at zero ready = rw packets_are refl
packets_at (suc zero) ready = rw packets_are refl
packets_at (suc (suc m)) ready = absurd (ground arith)

pub hearer-Delivers :
    (t : Trace)
    → ltb (receipts t) 2 ≡ true
    → Delivers hearer toy fds set_up packets
        (λ m. 2 * m)
        (poll fds.sk_fd fds.timer_fd fds.session_tim_fd ∷ t)
unfolding get_presentation_time
hearer-Delivers t ready = record {
  delivered = record { clock_read = refl; whole = refl };
  sent_at = packets_at (receipts t) ready;
  timely = λ stamp e. let same : avtp_time ≡ stamp = cc in (presentation, rw (← same) refl);
}

pub hearer-escape : (u : Trace) → keys u ≡ 2 → hearer.key u ≡ 27
hearer-escape u e = rw e refl
