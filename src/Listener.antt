-- ===== src/Listener.antt =====
-- The listener of avbperf/avb_aaf.c: `new_packet`, and the loop of `avb_aaf_listener`.
pub mod Safe
pub mod Receive
pub mod Play
pub mod Step
pub mod Loop
pub mod Deaf
pub mod Rule
pub mod Intake
pub mod Owned
pub mod Packets
pub mod Kept
pub mod Passed
pub mod Calls
pub mod Local
pub mod Leaves
pub mod Ends
pub mod Balance
pub mod Rounds
pub mod Player
pub mod View
pub mod Heard
pub mod Refines
pub mod Receipts
pub mod Numbering
pub mod Drops
pub mod Due
pub mod Punctual
use tram.Prelude.{
  ℕ, zero, suc, ◌+◌, u8, sub8, ◌==◌, not, ◌&&◌, if◌then◌else◌, Bool, true, false, Option, none,
  some, List, [], ◌∷◌, is_empty, length, ℤ, pos, negsuc, is_neg, neg, minus_one,
}
use tram.Sys.{
  Timespec, Pdu, Ready, Env, M, ◌>>=◌, ◌>>◌, pure, fault, sys, ask, answer, emit, uninitialised,
  clock_gettime, recv, poll, read_key, timerfd_create, close, wav_open, wav_set_format,
  wav_set_sample_size, wav_set_num_channels, wav_set_sample_rate, wav_close, rename,
}
use tram.Settings.{Settings, Floats, bytes_per_sample}
use tram.Time.{get_presentation_time, arm_timer}
use tram.Socket.{eth_p_tsn, create_listener_socket}
use tram.Stats
use tram.Stats.{Handler}
use tram.Avtp.{Avtp, timestamp}
use tram.Packet.{is_valid_packet}
use tram.Alsa
use tram.Alsa.{PcmFormats}
use tram.Playout.{Entry, schedule_sample, play_fragment, aaf_timeout}

-- the variables that the loop changes
pub record State : Type 0 where
  pub samples : List Entry
  pub expected_seq : ℕ
  pub stats : Handler
  pub is_running : Bool

pub record Fds : Type 0 where
  pub sk_fd : ℤ
  pub timer_fd : ℤ
  pub session_tim_fd : ℤ

-- a packet's times are kept, and its samples queued
unfoldable pub accept :
    Env → Fds → Settings → Pdu → (arrival presentation : Timespec) → State → M (ℤ × State)
accept env fds set pdu arrival presentation st = do
  (res, stats) ← Stats.push env st.stats arrival presentation
  if is_neg res then pure (minus_one, record st { stats = stats }) else do
    (res, samples) ←
        schedule_sample env fds.timer_fd presentation pdu.avtp_payload st.samples set.data_len
    pure (if is_neg res then minus_one else pos 0, record st { stats = stats; samples = samples })

-- the count of drops, from what was expected before and after the packet
unfoldable pub note_drops : (expected_seq_aux : ℕ) → State → State
note_drops expected_seq_aux st =
    let aux = u8 (expected_seq_aux + 1) in
    if aux == st.expected_seq
    then st
    else record st { stats = Stats.add_dropped st.stats (sub8 st.expected_seq aux) }

-- What follows `get_presentation_time`. A late packet is passed over while the queue is empty.
unfoldable pub take_timed :
    Env
    → Fds
    → Settings
    → Pdu
    → (arrival : Timespec) → (expected_seq_aux : ℕ) → State
    → ℤ × Timespec
    → M (ℤ × State)
take_timed env fds set pdu arrival expected_seq_aux st (pos n, presentation) =
    if (n == 1) && is_empty st.samples
    then pure (pos 1, st)
    else accept env fds set pdu arrival presentation (note_drops expected_seq_aux st)
take_timed env fds set pdu arrival expected_seq_aux st (negsuc n, presentation) =
    pure (minus_one, st)

-- A valid packet.
unfoldable pub take_packet :
    Env
    → Avtp
    → Fds
    → Settings
    → Pdu
    → (arrival : Timespec) → (expected_seq_aux : ℕ) → State
    → M (ℤ × State)
take_packet env a fds set pdu arrival expected_seq_aux st = elim (a.aaf_get pdu.header timestamp) [
  | none ↦ pure (minus_one, st)
  | some avtp_time ↦
      take_timed env fds set pdu arrival expected_seq_aux st
        (get_presentation_time avtp_time arrival)
]

-- `n < 0 || n != set->pdu_size`
abbrev pub received : ℤ → ℕ → Bool
received (pos n) size = n == size
received (negsuc n) size = false

unfoldable pub new_packet : Env → Avtp → Fds → Settings → State → M (ℤ × State)
new_packet env a fds set st = do
  res ← sys env clock_gettime
  arrival ← answer env.clock
  if is_neg res then pure (minus_one, st) else do
    n ← sys env (recv fds.sk_fd set.pdu_size)
    pdu ← answer env.packet
    if not (received n set.pdu_size)
        then pure (minus_one, st)
        else let (valid, seq) = is_valid_packet a pdu.header set st.expected_seq in
          let st' = record st { expected_seq = seq } in
          if valid
          then take_packet env a fds set pdu arrival st.expected_seq st'
          else pure (pos 0, st')

-- One round of the loop goes on, or leaves for `end`.
pub data Next : Type 0 where
  again : State → Next
  leave : State → Next

-- `play_fragment`, and the end of playback where the queue has run empty
unfoldable pub play : Env → Settings → (recording : Bool) → State → M State
play env set recording st = do
  rest ← play_fragment env st.samples set.frames_per_pdu recording
  pure (record st { samples = rest; is_running = if is_empty rest then false else st.is_running })

-- the middle part of a round: playback
unfoldable pub playback : Env → Fds → Settings → (recording timer_ready : Bool) → State → M Next
playback env fds set recording timer_ready st =
    if st.is_running
    then (do st' ← play env set recording st; pure (again st'))
    else if timer_ready
    then (do
      res ← aaf_timeout env fds.timer_fd
      if is_neg res
          then pure (leave (record st { is_running = true }))
          else do st' ← play env set recording (record st { is_running = true }); pure (again st'))
    else pure (again st)

-- the last part: the session timer and the escape key
unfoldable pub poll_exit : Env → (session_ready : Bool) → State → M Next
poll_exit env session_ready st =
    if session_ready
    then pure (leave st)
    else do key ← ask env.key read_key; if key == 27 then pure (leave st) else pure (again st)

abbrev pub continue_with : (State → M Next) → Next → M Next
continue_with f (again st) = f st
continue_with f (leave st) = pure (leave st)

abbrev pub and_again : M Next → (State → M Next) → M Next
and_again m f = m >>= continue_with f

-- the first part: the socket
unfoldable pub receive : Env → Avtp → Fds → Settings → (socket_ready : Bool) → State → M Next
receive env a fds set socket_ready st =
    if socket_ready
    then (do
      (res, st') ← new_packet env a fds set st
      if is_neg res then pure (leave st') else pure (again st'))
    else pure (again st)

unfoldable pub step : Env → Avtp → Fds → Settings → (recording : Bool) → State → M Next
step env a fds set recording st = do
  res ← sys env (poll fds.sk_fd fds.timer_fd fds.session_tim_fd)
  ready ← answer env.ready
  if is_neg res
      then pure (leave st)
      else and_again
          (and_again (receive env a fds set ready.socket_ready st)
            (playback env fds set recording ready.timer_ready))
          (poll_exit env ready.session_ready)

-- as many rounds as there is fuel for, unless the loop is left before
unfoldable pub loop :
    Env → Avtp → Fds → Settings → (recording : Bool) → (rounds : ℕ) → State → M Next
unfolding step
loop env a fds set recording zero st = pure (again st)
loop env a fds set recording (suc rounds) st =
    and_again (step env a fds set recording st) (loop env a fds set recording rounds)
