-- ===== src/Examples/Ends.antt =====
-- Runs of the two ends of a network.
use tram.Prelude.{map, take, ℕ, ◌*◌, ◌≡◌, false, some, List, [], ◌∷◌, get_elem?, pos, refl, arith}
use tram.Sys.{Outcome, done, clock_gettime, Env, poll}
use tram.Sys.Outcomes.{Gives, Returns}
use tram.Time.{timespec_to_ns, ns_to_timespec, get_presentation_time, calculate_avtp_time}
use tram.Avtp.Toy.{toy, toy-IsLawful}
use tram.Alsa
use tram.Packet.{stamp_pdu, advance, is_valid_format, is_valid_packet}
use tram.Packet.Accept.{InStream, HasFormat}
use tram.Stats.{DataNode}
use tram.Network.Times.{Measures, new_packet-Measures}
use tram.Session.{open_all, open_timers, avb_aaf_listener}
use tram.Session.Leaks.{Leaks, avb_aaf_listener-Leaks}
use tram.Listener.Owned.{Owned, loop-Owned}
use tram.Session.Closes.{Closes, avb_aaf_listener-Closes}
use tram.Talker.{avb_aaf_talker}
use tram.Talker.Broadcast.{Broadcasts, avb_aaf_talker-Broadcasts}
use tram.Examples.Air.{
  to_group, speaker, entered, set_up, set_up-FitsHeader, packet_at, packets, on_air, hearer,
  hearer-HonestTimer, hearer-Healthy, hearer-Delivers, hearer-escape,
}
use tram.Terminal.{found, after_setup}
use tram.Socket.{create_listener_socket}
use tram.Alsa.{resize}
use tram.Talker.{avb_aaf_talker, connect, transmit, stop, finish}
use tram.Examples.Devices.{formats}
use tram.Talker
use tram.Talker.Relay.{sent_pdus, captured, Relayed, loop-Relayed}
use tram.Network.{Carried, nothing, arrived, lost, history}
use tram.Network.Order.{PlaysPart, loop-PlaysPart}
use tram.Network.Audio.{PlaysAt, loop-PlaysAt}
use tram.Network.Delivery.{recorded, broadcast-Arrives}
use tram.Stats.{push, add_dropped}
use tram.Playout.{schedule_sample, arm_first, play_fragment, aaf_timeout}
use tram.Listener.{
  loop, step, receive, new_packet, take_packet, take_timed, note_drops, accept, playback, play,
  poll_exit,
}
use tram.Listener.Loop.{initial}
use tram.Listener.View.{heard, Fits}
use tram.Listener.Packets.{Healthy}
use tram.Examples.Data.{floats, fds, avtp_time}

abbrev wide_header : List ℕ
wide_header = 2 ∷ 0 ∷ 1 ∷ 1 ∷ 4 ∷ 5 ∷ 2 ∷ 16 ∷ 32 ∷ 0 ∷ []

-- the talker's loop from its start
abbrev talking : Outcome Talker.Next
talking =
    Talker.loop speaker toy (pos 3) to_group set_up 3 (record { header = wide_header; seq_num = 0 })
      []

loop-Relayed_example : Relayed speaker toy set_up talking
loop-Relayed_example =
    loop-Relayed speaker toy (pos 3) to_group set_up 3
      (record { header = wide_header; seq_num = 0 }) [] refl

-- the second packet is lost
carried :
    Carried
      (Fits toy set_up)
      (heard hearer (history (loop hearer toy fds set_up false 2 initial [])))
      (sent_pdus (history talking))
unfolding loop step receive new_packet is_valid_packet is_valid_format advance take_packet
    take_timed note_drops accept push schedule_sample arm_first playback play play_fragment
    aaf_timeout Alsa.write poll_exit get_presentation_time ns_to_timespec add_dropped Talker.loop
    Talker.step Talker.timed Talker.send_at Talker.send stamp_pdu Alsa.read calculate_avtp_time
carried = arrived (packet_at 0) (lost (packet_at 1) (arrived (packet_at 2) nothing))

loop-PlaysPart_example :
    Returns
      (PlaysPart (map (take 32) (captured speaker (history talking))))
      (loop hearer toy fds set_up false 2 initial [])
loop-PlaysPart_example =
    loop-PlaysPart speaker hearer toy set_up fds false 4 hearer-Healthy hearer-HonestTimer refl 2
      (pos 3) to_group 3 (record { header = wide_header; seq_num = 0 }) [] [] refl refl refl refl
      carried

loop-PlaysAt_example :
    Returns
      (PlaysAt set_up
        (recorded speaker toy floats formats 3 [] [] (pos 2) entered [] [] [])
        (λ m. 2 * m))
      (loop hearer toy fds set_up false 2 initial [])
loop-PlaysAt_example =
    loop-PlaysAt speaker toy floats formats 3 [] [] (pos 2) entered [] [] [] toy-IsLawful set_up
      set_up-FitsHeader on_air (λ m. 2 * m) (λ m. omega arith) (λ m. omega arith) hearer
      hearer-Healthy fds false hearer-Delivers 4 hearer-HonestTimer refl 2 [] refl refl refl

tuned :
    open_all hearer [] (after_setup hearer [])
    ≡ done (some fds) (history (open_all hearer [] (after_setup hearer [])))
unfolding open_all open_timers create_listener_socket
tuned = refl

sized :
    Alsa.setup hearer formats [] false entered
      (history (open_all hearer [] (after_setup hearer [])))
    ≡ done set_up (
        history (
          Alsa.setup hearer formats [] false entered
            (history (open_all hearer [] (after_setup hearer [])))))
unfolding Alsa.setup resize
sized = refl

avb_aaf_listener-Closes_example :
    Closes
      (λ m. 2 * m)
      (λ m. get_elem? packets (2 * m))
      hearer
      toy
      floats
      (found hearer [])
      fds
      set_up
      (97 ∷ [])
      2
      (avb_aaf_listener hearer toy floats formats 2 [] entered [] (pos 9) (97 ∷ []) [])
avb_aaf_listener-Closes_example =
    avb_aaf_listener-Closes (λ m. 2 * m) (λ m. omega arith) (λ m. omega arith)
      (λ m. get_elem? packets (2 * m)) hearer hearer-Healthy toy floats formats fds set_up (97 ∷ [])
      (λ t ready.
        broadcast-Arrives speaker toy floats formats 3 [] [] (pos 2) entered [] [] [] toy-IsLawful
          set_up set_up-FitsHeader on_air hearer fds (λ m. 2 * m)
          (poll fds.sk_fd fds.timer_fd fds.session_tim_fd ∷ t) (hearer-Delivers t ready))
      4 hearer-HonestTimer refl refl 2 hearer-escape 1 0 refl [] entered [] (pos 9) [] _ _
      (refl, refl, refl, refl) tuned sized

avb_aaf_listener-Leaks_example :
    Leaks hearer floats
      (found hearer [])
      fds
      set_up
      []
      toy
      2
      (avb_aaf_listener hearer toy floats formats 2 [] entered [] (pos 9) [] [])
avb_aaf_listener-Leaks_example =
    avb_aaf_listener-Leaks hearer hearer-Healthy toy floats formats fds 2 set_up [] [] entered []
      (pos 9) [] _ _ refl tuned sized

loop-Owned_example : Gives Owned (loop hearer toy fds set_up false 2 initial [])
loop-Owned_example = loop-Owned hearer hearer-Healthy toy fds set_up false 2 initial [] refl

-- 10 ms later
abbrev later : Env
later = record hearer { clock = λ t. record { tv_sec = 7; tv_nsec = 10_000_005 } }

later-Healthy : Healthy later
later-Healthy = record { room = λ t. refl; timers = λ fd tspec t. refl }

stamped_at : calculate_avtp_time speaker 100 [] ≡ done (some avtp_time) (clock_gettime ∷ [])
unfolding calculate_avtp_time
stamped_at = refl

first-InStream : InStream toy (packet_at 0).header set_up
first-InStream = record {
  subtype_is = refl;
  version_is = refl;
  tv_is = refl;
  sp_is = refl;
  stream_id_is = refl;
}

first-HasFormat : HasFormat toy (packet_at 0).header set_up
first-HasFormat = record {
  format_is = refl;
  nsr_is = refl;
  channels_is = refl;
  bit_depth_is = refl;
  data_len_is = refl;
}

new_packet-Measures_example :
    Returns
      (λ (r, st') v.
        (node : DataNode) × (st'.stats.stack ≡ node ∷ [])
        × Measures floats set_up
            (timespec_to_ns (speaker.clock (clock_gettime ∷ [])))
            (timespec_to_ns (later.clock (clock_gettime ∷ [])))
            node)
      (new_packet later toy fds set_up initial [])
unfolding timespec_to_ns
new_packet-Measures_example =
    new_packet-Measures speaker floats set_up avtp_time [] (clock_gettime ∷ []) stamped_at
      (omega arith) later later-Healthy fds toy initial []
      (record { clock_read = refl; whole = refl }) first-InStream first-HasFormat 0 refl refl
      (omega arith) (omega arith) (omega arith) (omega arith) (omega arith) (omega arith)

avb_aaf_talker-Broadcasts_example :
    Broadcasts speaker toy set_up
      (avb_aaf_talker speaker toy floats formats 3 [] [] (pos 2) entered [] [] [])
avb_aaf_talker-Broadcasts_example =
    avb_aaf_talker-Broadcasts speaker toy toy-IsLawful floats formats set_up set_up-FitsHeader 3 []
      [] (pos 2) entered [] [] [] on_air
