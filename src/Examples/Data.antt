-- ===== src/Examples/Data.antt =====
-- Environments to run the code in.
use tram.Prelude.{
  ℕ, ◌+◌, ◌*◌, ◌/◌, ◌==◌, if◌then◌else◌, ◌∙◌, ◌<◌, ◌≡◌, Bool, true, false, List, [], ◌∷◌, length, ℤ,
  pos, negsuc, arith, refl, ap,
}
use tram.Sys.{
  Timespec, Termios, Ready, Pdu, Env, Trace, socket, timerfd_create, close, read_timer,
  timerfd_settime, recv,
}
use tram.Sys.Descriptors.{is_open, keys, HandsOutFresh}
use tram.Settings.{Settings, Floats}
use tram.Stats.{DataNode}
use tram.Packet.RoundTrip.{FitsHeader}
use tram.Playout.Armed.{armed, HonestTimer}
use tram.Listener.{Fds}
use tram.Listener.Packets.{Healthy}

-- a terminal that waits for whole lines
abbrev pub cooked : Termios
cooked = record { c_lflag = 35387; vmin = 1; vtime = 0; others = 1280 ∷ 5 ∷ [] }

-- every call returns how many were made before it
abbrev pub counting : Env
counting = record {
  ret = λ t. pos (length t);
  clock = λ t. record { tv_sec = 7; tv_nsec = 5 };
  ifindex = λ t. 2;
  packet = λ t. record { header = []; avtp_payload = [] };
  expirations = λ t. 1;
  key = λ t. 27;
  ready = λ t. record { socket_ready = false; timer_ready = false; session_ready = false };
  allocated = λ t. true;
  rate = λ t. 48000;
  period = λ t. 128;
  audio = λ t. [];
  termios = λ t. cooked;
  indeterminate = λ t. pos 0;
}

not_open : (k : ℕ) (t : Trace) → length t < k → is_open counting k t ≡ false
not_open k [] h = refl
not_open k (socket p ∷ t) h = ground (arith, not_open k t (omega arith))
not_open k (timerfd_create ∷ t) h = ground (arith, not_open k t (omega arith))
not_open k (close fd ∷ t) h = ground (arith, not_open k t (omega arith))
not_open k (_ ∷ t) h = not_open k t (omega arith)

to_nat : ℤ → ℕ
to_nat (pos n) = n
to_nat (negsuc n) = 0

pub counting-HandsOutFresh : HandsOutFresh counting
unfolding to_nat
counting-HandsOutFresh = record {
  socket_fresh = λ p k t e. not_open k t (omega (arith, ap to_nat e));
  timer_fresh = λ k t e. not_open k t (omega (arith, ap to_nat e));
}

-- a stream of 16-bit stereo at 48 kHz, four frames to a packet
abbrev pub stream : Settings
stream = record {
  stream_id = 1;
  sample_rate = 48000;
  bit_depth = 16;
  channels = 2;
  data_len = 16;
  pdu_size = 40;
  aaf_sample_rate = 5;
  aaf_bit_depth = 4;
  hw_latency = 4;
  frames_per_pdu = 4;
  max_transit_time = 100;
}

pub stream-FitsHeader : FitsHeader stream
stream-FitsHeader = record {
  stream_id_fits = omega arith;
  format_fits = omega arith;
  nsr_fits = omega arith;
  channels_fits = omega arith;
  bit_depth_fits = omega arith;
  data_len_fits = omega arith;
}

-- its header, and that of the first packet, presented at 7.100000005 s
abbrev pub blank_header : List ℕ
blank_header = 2 ∷ 0 ∷ 1 ∷ 1 ∷ 4 ∷ 5 ∷ 2 ∷ 16 ∷ 16 ∷ 0 ∷ []

abbrev pub avtp_time : ℕ
avtp_time = 2_805_032_709

abbrev pub first_header : List ℕ
first_header = 2 ∷ 0 ∷ 1 ∷ 1 ∷ 4 ∷ 5 ∷ 2 ∷ 16 ∷ 16 ∷ 0 ∷ 0 ∷ avtp_time ∷ []

abbrev pub arrival : Timespec
arrival = record { tv_sec = 7; tv_nsec = 5 }

abbrev pub presentation : Timespec
presentation = record { tv_sec = 7; tv_nsec = 100_000_005 }

abbrev pub fds : Fds
fds = record { sk_fd = pos 3; timer_fd = pos 4; session_tim_fd = pos 5 }

-- a receiver: whole packets arrive, the descriptors are 3, 4 and 5, and every other call returns 0
abbrev pub radio_ret : Trace → ℤ
radio_ret (recv fd size ∷ t) = pos size
radio_ret (socket p ∷ t) = pos 3
radio_ret (timerfd_create ∷ timerfd_create ∷ t) = pos 5
radio_ret (timerfd_create ∷ t) = pos 4
radio_ret _ = pos 0

abbrev radio_of : (packet : Trace → Pdu) → (ready : Trace → Ready) → Env
radio_of packet ready = record {
  ret = radio_ret;
  clock = λ t. arrival;
  ifindex = λ t. 2;
  packet = packet;
  expirations = λ t. 1;
  key = λ t. if keys t == 2 then 27 else 0;
  ready = ready;
  allocated = λ t. true;
  rate = λ t. 48000;
  period = λ t. 8;
  audio = λ t. 1 ∷ 2 ∷ 3 ∷ [];
  termios = λ t. cooked;
  indeterminate = λ t. pos 0;
}

abbrev first_packet : Trace → Pdu
first_packet t = record { header = first_header; avtp_payload = 1 ∷ 2 ∷ 3 ∷ [] }

abbrev silent : Env
silent =
    radio_of first_packet
      (λ t. record { socket_ready = false; timer_ready = false; session_ready = false })

-- the timer is ready when it has been armed
abbrev timer_state : Trace → Bool
timer_state [] = false
timer_state (c ∷ t) = armed silent 4 t

abbrev pub receiving : (packet : Trace → Pdu) → (socket_ready : Trace → Bool) → Env
receiving packet socket_ready = radio_of packet (λ t. record {
  socket_ready = socket_ready t;
  timer_ready = timer_state t;
  session_ready = false;
})

armed-receiving :
    (packet : Trace → Pdu) (socket_ready : Trace → Bool) (t : Trace)
    → armed (receiving packet socket_ready) 4 t ≡ armed silent 4 t
armed-receiving packet socket_ready [] = refl
armed-receiving packet socket_ready (timerfd_settime fd tspec ∷ t) =
    ground (arith, armed-receiving packet socket_ready t)
armed-receiving packet socket_ready (read_timer fd ∷ t) =
    ground (arith, armed-receiving packet socket_ready t)
armed-receiving packet socket_ready (_ ∷ t) = armed-receiving packet socket_ready t

pub receiving-HonestTimer :
    (packet : Trace → Pdu) (socket_ready : Trace → Bool)
    → HonestTimer (receiving packet socket_ready) 4
receiving-HonestTimer packet socket_ready = record {
  ready_armed = λ a b fd t ours ready. armed-receiving packet socket_ready t ∙ ready;
  expires_once = λ fd t ours on read. refl;
}

abbrev pub radio : Env
radio = receiving first_packet (λ t. true)

pub radio-HonestTimer : HonestTimer radio 4
radio-HonestTimer = receiving-HonestTimer first_packet (λ t. true)

pub radio-Healthy : Healthy radio
radio-Healthy = record { room = λ t. refl; timers = λ fd tspec t. refl }

abbrev pub floats : Floats
floats = record {
  latency_ns = λ latency rate. latency * 1_000_000_000 / rate;
  add_square = λ std d. std + d * d;
  sqrt = λ v. v / 2;
}

-- the times of a packet that arrived `n` ms after the first
abbrev pub node_at : ℕ → DataNode
node_at n = record {
  arrival = record { tv_sec = 7; tv_nsec = n * 1_000_000 };
  presentation = record { tv_sec = 7; tv_nsec = 95_000_000 + n * 1_000_000 };
}

pub radio-escape : (u : Trace) → keys u ≡ 2 → radio.key u ≡ 27
radio-escape u e = rw e refl
