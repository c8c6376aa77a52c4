-- ===== src/Talker.antt =====
-- The talker, `avb_aaf_talker` of avbperf/avb_aaf.c.
pub mod Overflow
pub mod Packets
pub mod Relay
pub mod Broadcast
pub mod Leaves
pub mod Calls
pub mod Whole
pub mod Overrun
use tram.Prelude.{
  ℕ, zero, suc, take, ◌-◌, ◌+◌, u8, ◌==◌, if◌then◌else◌, Bool, true, false, Option, none, some,
  List, ℤ, pos, is_neg, neg, minus_one,
}
use tram.Sys.{
  SockAddr, Pdu, Env, Trace, M, ◌>>=◌, ◌>>◌, pure, sys, ask, emit, sendto, read_key, close, Termios,
  tc_set,
}
use tram.Terminal.{term_nonblock_setup}
use tram.Settings.{Settings, Floats}
use tram.Time.{calculate_avtp_time}
use tram.Socket.{eth_p_tsn, create_talker_socket, setup_socket_address}
use tram.Reports.{print_settings}
use tram.Avtp.{Avtp}
use tram.Packet.{init_pdu, stamp_pdu}
use tram.Alsa
use tram.Alsa.{PcmFormats}

-- the variables that the loop changes
pub record State : Type 0 where
  pub header : List ℕ
  pub seq_num : ℕ

-- A round goes on, or leaves for `end` with a value of `res`.
pub data Next : Type 0 where
  again : State → Next
  leave : ℤ → Next

-- the bytes of the PDU behind its header
abbrev pub payload_size : Avtp → Settings → ℕ
payload_size a set = set.pdu_size - a.sizeof_pdu

-- The packet of one round, `pdu_size` bytes. After a failed `sendto`, `res` is still that of the call before.
unfoldable pub send :
    Env → Avtp → (fd : ℤ) → SockAddr → Settings → State → (payload : List ℕ) → M Next
send env a fd sk_addr set st payload = do
  let pdu : Pdu = record { header = st.header; avtp_payload = take (payload_size a set) payload }
  n ← sys env (sendto fd pdu set.pdu_size sk_addr)
  if is_neg n then pure (leave (pos 0)) else do
    key ← ask env.key read_key
    if key == 27 then pure (leave (pos 0)) else pure (again st)

-- the packet of one round is stamped and sent
unfoldable pub send_at :
    Env
    → Avtp
    → (fd : ℤ) → SockAddr
    → Settings
    → State
    → (payload : List ℕ) → (avtp_time : ℕ) → M Next
unfolding send
send_at env a fd sk_addr set st payload avtp_time =
    elim (stamp_pdu a st.header avtp_time st.seq_num) [
      | none ↦ pure (leave a.set_error)
      | some header ↦
          send env a fd sk_addr set (record { header = header; seq_num = u8 (st.seq_num + 1) })
            payload
    ]

-- what a round does with the samples it has read
unfoldable pub timed :
    Env → Avtp → (fd : ℤ) → SockAddr → Settings → State → (payload : List ℕ) → M Next
unfolding send_at
timed env a fd sk_addr set st payload = do
  time ← calculate_avtp_time env set.max_transit_time
  elim time [
    | none ↦ pure (leave minus_one)
    | some avtp_time ↦ send_at env a fd sk_addr set st payload avtp_time
  ]

unfoldable pub step : Env → Avtp → (fd : ℤ) → SockAddr → Settings → State → M Next
unfolding timed
step env a fd sk_addr set st = do
  payload ← Alsa.read env (payload_size a set) set.frames_per_pdu
  timed env a fd sk_addr set st payload

abbrev pub continue_with : (State → M Next) → Next → M Next
continue_with f (again st) = f st
continue_with f (leave res) = pure (leave res)

-- as many rounds as there is fuel for, unless the loop is left before
unfoldable pub loop : Env → Avtp → (fd : ℤ) → SockAddr → Settings → (rounds : ℕ) → State → M Next
unfolding step
loop env a fd sk_addr set zero st = pure (again st)
loop env a fd sk_addr set (suc rounds) st =
    step env a fd sk_addr set st >>= continue_with (loop env a fd sk_addr set rounds)

-- What stands at `end:`.
unfoldable pub finish : (is_set_up : Bool) → (term_old_set : Termios) → (fd res : ℤ) → M ℤ
finish is_set_up term_old_set fd res = do
  Alsa.close is_set_up
  emit (close fd)
  emit (tc_set term_old_set)
  pure (neg res)

-- What follows the loop. `none`: the rounds were used up inside it.
unfoldable pub stop : (term_old_set : Termios) → (fd : ℤ) → Next → M (Option ℤ)
unfolding finish
stop term_old_set fd (again st) = pure none
stop term_old_set fd (leave res) = do r ← finish true term_old_set fd res; pure (some r)

-- What follows `init_pdu`, where `none` is an error.
unfoldable pub transmit :
    Env
    → Avtp
    → (term_old_set : Termios) → (fd : ℤ) → SockAddr
    → Settings
    → (rounds : ℕ) → Option (List ℕ)
    → M (Option ℤ)
unfolding finish loop stop
transmit env a term_old_set fd sk_addr set rounds none = do
  r ← finish true term_old_set fd minus_one
  pure (some r)
transmit env a term_old_set fd sk_addr set rounds (some header) =
    loop env a fd sk_addr set rounds (record { header = header; seq_num = 0 })
    >>= stop term_old_set fd

-- What follows `setup_socket_address`, where `none` is an error. The buffer of the PDU has no
-- defined content.
unfoldable pub connect :
    Env
    → Avtp
    → Floats
    → PcmFormats
    → (term_old_set : Termios) → (rounds : ℕ) → Settings
    → (adev buffer : List ℕ) → (fd : ℤ) → Option SockAddr
    → M (Option ℤ)
unfolding finish transmit print_settings
connect env a fl formats term_old_set rounds set adev buffer fd none = do
  r ← finish false term_old_set fd minus_one
  pure (some r)
connect env a fl formats term_old_set rounds set adev buffer fd (some sk_addr) = do
  set ← Alsa.setup env formats adev true set
  print_settings fl set true
  transmit env a term_old_set fd sk_addr set rounds (init_pdu a buffer set)

unfoldable pub avb_aaf_talker :
    Env
    → Avtp
    → Floats
    → PcmFormats
    → (rounds : ℕ) → (ifname macaddr : List ℕ) → (priority : ℤ) → Settings
    → (adev buffer : List ℕ) → M (Option ℤ)
unfolding term_nonblock_setup connect
avb_aaf_talker env a fl formats rounds ifname macaddr priority set adev buffer = do
  term_old_set ← term_nonblock_setup env
  fd ← create_talker_socket env priority
  if is_neg fd then pure (some (pos 1)) else do
    address ← setup_socket_address env fd ifname macaddr eth_p_tsn
    connect env a fl formats term_old_set rounds set adev buffer fd address
