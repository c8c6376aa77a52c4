-- ===== src/Examples/Overrun.antt =====
-- A talker whose sound card makes the period eight frames where four were asked for.
use tram.Prelude.{ℕ, zero, suc, ◌≡◌, true, List, [], ◌∷◌, pos, refl, arith}
use tram.Sys.{Env, Trace, faulted, buffer_overflow, pcm_readi}
use tram.Terminal.{after_setup}
use tram.Settings.{Settings}
use tram.Socket.{eth_p_tsn, create_talker_socket, setup_socket_address}
use tram.Alsa
use tram.Alsa.{resize}
use tram.Avtp.Toy.{toy, toy-IsLawful}
use tram.Reports.{settings_lines, after_lines}
use tram.Talker.{avb_aaf_talker}
use tram.Talker.Broadcast.{OnAir}
use tram.Talker.Overrun.{avb_aaf_talker_overflow}
use tram.Network.{history}
use tram.Examples.Air.{to_group}
use tram.Examples.Data.{floats, radio, stream}
use tram.Examples.Devices.{formats}

abbrev zeros : ℕ → List ℕ
zeros zero = []
zeros (suc n) = 0 ∷ zeros n

-- Eight frames of two channels and 16 bits are read at a time.
abbrev card : Env
card = record radio { audio = λ t. zeros 32 }

abbrev made : Settings
made = record stream { frames_per_pdu = 8; hw_latency = 8 }

abbrev addressed : Trace
addressed = history (
    setup_socket_address card (pos 3) [] [] eth_p_tsn
      (history (create_talker_socket card (pos 2) (after_setup card []))))

abbrev carded : Trace
carded = history (Alsa.setup card formats [] true stream addressed)

on_air : OnAir card formats [] [] (pos 2) stream [] made []
unfolding create_talker_socket setup_socket_address Alsa.setup resize
on_air = record {
  silent = (refl, refl);
  fd = pos 3;
  after_socket = history (create_talker_socket card (pos 2) (after_setup card []));
  opened = refl;
  is_open = refl;
  address = to_group;
  after_address = addressed;
  addressed = refl;
  after_card = carded;
  set_up = refl;
}

avb_aaf_talker_overflow_example :
    avb_aaf_talker card toy floats formats 1 [] [] (pos 2) stream [] [] []
    ≡ faulted buffer_overflow
        (pcm_readi 8 ∷ after_lines (settings_lines floats made true) on_air.after_card)
avb_aaf_talker_overflow_example =
    avb_aaf_talker_overflow card toy toy-IsLawful floats formats stream made refl (omega arith)
      (omega arith) (omega arith) 0 [] [] (pos 2) [] [] [] on_air (omega arith) (λ t. refl)
