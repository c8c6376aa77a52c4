-- ===== src/Examples/Lossy.antt =====
-- An environment where every second packet is lost.
use tram.Prelude.{ℕ, u8, ◌*◌, [], ◌∷◌, refl, true, some}
use tram.Sys.{Pdu, Env, Trace}
use tram.Playout.Armed.{HonestTimer}
use tram.Listener.Receipts.{receipts}
use tram.Listener.Numbering.{Arrives}
use tram.Time.{get_presentation_time}
use tram.Avtp.Toy.{toy}
use tram.Listener.Packets.{Healthy}
use tram.Examples.Data.{receiving, receiving-HonestTimer, fds, stream, avtp_time, presentation}

-- how many packets came before the one that the last call asked for
abbrev pub before : Trace → ℕ
before [] = 0
before (c ∷ t) = receipts t

-- every second packet is lost
abbrev pub numbered_packet : ℕ → Pdu
numbered_packet m = record {
  header = 2 ∷ 0 ∷ 1 ∷ 1 ∷ 4 ∷ 5 ∷ 2 ∷ 16 ∷ 16 ∷ 0 ∷ u8 (2 * m) ∷ avtp_time ∷ [];
  avtp_payload = 1 ∷ 2 ∷ 3 ∷ [];
}

abbrev pub lossy : Env
lossy = receiving (λ t. numbered_packet (before t)) (λ t. true)

pub lossy-HonestTimer : HonestTimer lossy 4
lossy-HonestTimer = receiving-HonestTimer (λ t. numbered_packet (before t)) (λ t. true)

pub lossy-Healthy : Healthy lossy
lossy-Healthy = record { room = λ t. refl; timers = λ fd tspec t. refl }

pub lossy-Arrives :
    (t : Trace) → Arrives lossy toy fds stream (λ m. 2 * m) (λ m. some (numbered_packet m)) t
unfolding get_presentation_time
lossy-Arrives t = record {
  delivered = record { clock_read = refl; whole = refl };
  in_stream = record {
    subtype_is = refl;
    version_is = refl;
    tv_is = refl;
    sp_is = refl;
    stream_id_is = refl;
  };
  has_format = record {
    format_is = refl;
    nsr_is = refl;
    channels_is = refl;
    bit_depth_is = refl;
    data_len_is = refl;
  };
  numbered = refl;
  sourced = refl;
  stamp = avtp_time;
  stamped = refl;
  presentation = presentation;
  timely = refl;
}
