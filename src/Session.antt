-- ===== src/Session.antt =====
-- The listener from its start to its end, `avb_aaf_listener` of avbperf/avb_aaf.c, with
-- `setup_session_timer`, `setup_wav_recorder` and `close_wav_recorder`.
pub mod Teardown
pub mod Calls
pub mod Opened
pub mod Whole
pub mod Accounts
pub mod Prepared
pub mod Closes
pub mod Entered
pub mod Deaf
pub mod Still
pub mod Memory
pub mod Leaks
use tram.Prelude.{
  ℕ, suc, zero, ◌+◌, ◌-◌, is_zero, ◌==◌, if◌then◌else◌, Bool, true, false, Option, none, some, List,
  [], ◌∷◌, is_empty, ℤ, pos, negsuc, is_neg, neg, minus_one,
}
use tram.Sys.{
  Timespec, Env, Trace, M, ◌>>=◌, ◌>>◌, pure, fault, sys, ask, answer, emit, uninitialised,
  clock_gettime, timerfd_create, close, Termios, tc_set, print, blank_line, wav_open,
  wav_set_format, wav_set_sample_size, wav_set_num_channels, wav_set_sample_rate, wav_close, rename,
}
use tram.Terminal.{term_nonblock_setup}
use tram.Settings.{Settings, Floats, bytes_per_sample}
use tram.Time.{arm_timer}
use tram.Socket.{eth_p_tsn, create_listener_socket}
use tram.Stats
use tram.Stats.{Handler}
use tram.Reports.{print_settings, print_stats}
use tram.Avtp.{Avtp}
use tram.Alsa
use tram.Alsa.{PcmFormats}
use tram.Listener.{State, Fds, Next, again, leave, loop}
use tram.Listener.Loop.{initial}

-- the clock's seconds and those of `rec_time`; a time before 1970 is not told from 1970
abbrev pub add_secs : ℕ → ℤ → ℕ
add_secs sec (pos n) = sec + n
add_secs sec (negsuc n) = sec - (n + 1)

unfoldable pub setup_session_timer : Env → (timer_fd : ℤ) → (rec_time : ℤ) → M ℤ
unfolding arm_timer
setup_session_timer env timer_fd rec_time = do
  res ← sys env clock_gettime
  now ← answer env.clock
  if is_neg res then pure minus_one else do
    res ← arm_timer env timer_fd (record now { tv_sec = add_secs now.tv_sec rec_time })
    if is_neg res then pure minus_one else pure (pos 0)

abbrev pub wav_format_pcm : ℕ
wav_format_pcm = 1

abbrev pub wav_format_ieee_float : ℕ
wav_format_ieee_float = 3

-- Whether `*fp` has been set to a file; the result is not read by the caller.
unfoldable pub setup_wav_recorder : Env → Settings → M Bool
setup_wav_recorder env set = do
  opened ← ask env.allocated wav_open
  if opened
      then (do
        emit
            (wav_set_format (if set.bit_depth == 32 then wav_format_ieee_float else wav_format_pcm))
        emit (wav_set_sample_size (bytes_per_sample set.bit_depth))
        emit (wav_set_num_channels set.channels)
        emit (wav_set_sample_rate set.sample_rate)
        pure true)
      else pure false

-- `none` is a start time that has not been assigned.
unfoldable pub close_wav_recorder : Env → (start : Option Timespec) → (filename : List ℕ) → M ℤ
close_wav_recorder env start filename = do
  emit wav_close
  elim start [ none ↦ fault uninitialised | some stamp ↦ sys env (rename stamp filename) ]

-- The WAV part of the end, with the value that `res` has afterwards.
unfoldable pub finish_recording : Env → Floats → Settings → (filename : List ℕ) → Handler → M ℤ
unfolding close_wav_recorder
finish_recording env fl set filename stats = elim (Stats.get_first stats) [
  | none ↦ close_wav_recorder env none filename >> pure minus_one
  | some first ↦
      close_wav_recorder env (some (Stats.get_cap_time fl set first)) filename >> pure (pos 0)
]

-- What is given back at the end, in the order of the code. `res` is 0 or negative.
unfoldable pub release : (term_old_set : Termios) → Fds → Handler → (res : ℤ) → M ℤ
release term_old_set fds stats res = do
  Stats.clear stats
  Alsa.close true
  emit (close fds.sk_fd)
  emit (close fds.timer_fd)
  emit (close fds.session_tim_fd)
  emit (tc_set term_old_set)
  pure (neg res)

-- the figures, if there are any
unfoldable pub report : (res : ℤ) → Handler → M (Unit {0})
unfolding print_stats
report res stats = if is_zero res then emit (print blank_line) >> print_stats stats else pure tt

-- What stands at `end:`.
unfoldable pub finish :
    Env
    → Floats
    → (term_old_set : Termios) → Fds
    → Settings
    → (recording : Bool) → (filename : List ℕ) → State
    → M ℤ
unfolding report finish_recording release
finish env fl term_old_set fds set recording filename st = do
  (res, stats) ← Stats.process_stats env fl set st.stats
  report res stats
  res ← if recording then finish_recording env fl set filename stats else pure res
  release term_old_set fds stats res

-- The recorder, if there is a file name. `res` is tested here before it has been assigned.
unfoldable pub start_recording : Env → Settings → (filename : List ℕ) → M (ℤ × Bool)
unfolding setup_wav_recorder
start_recording env set filename = if is_empty filename then pure (pos 0, false) else (do
  recording ← setup_wav_recorder env set
  res ← answer env.indeterminate
  pure (res, recording))

unfoldable pub start_session_timer : Env → (session_tim_fd : ℤ) → (rec_time : ℤ) → M ℤ
unfolding setup_session_timer
start_session_timer env session_tim_fd rec_time =
    if is_zero rec_time then pure (pos 0) else setup_session_timer env session_tim_fd rec_time

-- What follows the loop, and the jumps to `end:` before it. `none`: the rounds were used up inside
-- the loop.
unfoldable pub conclude :
    Env
    → Floats
    → (term_old_set : Termios) → Fds
    → Settings
    → (recording : Bool) → (filename : List ℕ) → Next
    → M (Option ℤ)
unfolding finish
conclude env fl term_old_set fds set recording filename (again st) = pure none
conclude env fl term_old_set fds set recording filename (leave st) = do
  r ← finish env fl term_old_set fds set recording filename st
  pure (some r)

-- Everything behind the three descriptors.
unfoldable pub session :
    Env
    → Avtp
    → Floats
    → PcmFormats
    → (term_old_set : Termios) → Fds
    → (rounds : ℕ) → Settings
    → (adev : List ℕ) → (rec_time : ℤ) → (filename : List ℕ) → M (Option ℤ)
unfolding print_settings start_recording start_session_timer conclude
session env a fl formats term_old_set fds rounds set adev rec_time filename = do
  set ← Alsa.setup env formats adev false set
  print_settings fl set false
  (res, recording) ← start_recording env set filename
  let stop = conclude env fl term_old_set fds set recording filename
  if is_neg res then stop (leave initial) else do
    res ← start_session_timer env fds.session_tim_fd rec_time
    if is_neg res
        then stop (leave initial)
        else loop env a fds set recording rounds initial >>= stop

abbrev pub no_mac : List ℕ
no_mac = 0 ∷ 0 ∷ 0 ∷ 0 ∷ 0 ∷ 0 ∷ []

-- the timers, once the socket has been asked for
unfoldable pub open_timers : Env → (sk_fd : ℤ) → M (Option Fds)
open_timers env sk_fd = if is_neg sk_fd then pure none else do
  timer_fd ← sys env timerfd_create
  if is_neg timer_fd then emit (close sk_fd) >> pure none else do
    session_tim_fd ← sys env timerfd_create
    if is_neg session_tim_fd
        then emit (close sk_fd) >> (emit (close timer_fd) >> pure none)
        else pure
            (some (record { sk_fd = sk_fd; timer_fd = timer_fd; session_tim_fd = session_tim_fd }))

-- The three descriptors, or none of them.
unfoldable pub open_all : Env → (ifname : List ℕ) → M (Option Fds)
unfolding open_timers
open_all env ifname = create_listener_socket env ifname no_mac eth_p_tsn >>= open_timers env

-- The first error returns 1 at once.
unfoldable pub avb_aaf_listener :
    Env
    → Avtp
    → Floats
    → PcmFormats
    → (rounds : ℕ) → (ifname : List ℕ) → Settings
    → (adev : List ℕ) → (rec_time : ℤ) → (filename : List ℕ) → M (Option ℤ)
unfolding term_nonblock_setup
avb_aaf_listener env a fl formats rounds ifname set adev rec_time filename = do
  term_old_set ← term_nonblock_setup env
  opened ← open_all env ifname
  elim opened [
    | none ↦ pure (some (pos 1))
    | some fds ↦ session env a fl formats term_old_set fds rounds set adev rec_time filename
  ]
