-- ===== src/Sys.antt =====
-- The world outside the program: the calls that avbperf makes of Linux, ALSA and libwav, in the
-- order made, and an environment that answers each one from the whole history. A run of the
-- program extends the history, and ends with a value, by `exit`, or by a fault.
pub mod Descriptors
pub mod Outcomes
pub mod Conclusion
use tram.Prelude.{ℕ, Bool, ℤ, List, ◌∷◌}

-- `struct timespec`; the clock does not stand before 1970, so both parts are natural numbers
pub record Timespec : Type 0 where
  pub tv_sec : ℕ
  pub tv_nsec : ℕ

-- `struct sockaddr_ll`, the fields that the program sets
pub record SockAddr : Type 0 where
  pub sll_protocol : ℕ
  pub sll_halen : ℕ
  pub sll_ifindex : ℕ
  pub sll_addr : List ℕ

-- `struct avtp_stream_pdu`: the header, read and written by libavtp only, and `avtp_payload`
pub record Pdu : Type 0 where
  pub header : List ℕ
  pub avtp_payload : List ℕ

-- the members of `struct termios` that the code sets, and all others
pub record Termios : Type 0 where
  pub c_lflag : ℕ
  pub vmin : ℕ
  pub vtime : ℕ
  pub others : List ℕ

-- A line that the program prints, with the numbers given to its format. A time is given in ns here,
-- and printed in ms. `banner` stands for the first lines, with the name of the node.
pub data Line : Type 0 where
  blank_line escape_line capture_heading travel_heading : Line
  banner : (is_talker : Bool) → Line
  stream_id_line sample_rate_line bit_depth_line channels_line latency_line : ℕ → Line
  latency_ms_line : (ns : ℕ) → Line
  end_to_end_line : (ns transit_ms : ℕ) → Line
  received_line dropped_line : ℕ → Line
  min_line max_line mean_line std_line : (ns : ℕ) → Line

pub data Call : Type 0 where
  clock_gettime timerfd_create : Call
  socket : (protocol : ℕ) → Call
  set_priority : (fd priority : ℤ) → Call
  add_membership : (fd : ℤ) → (ifindex : ℕ) → (mac : List ℕ) → Call
  get_ifindex : (fd : ℤ) → (ifname : List ℕ) → Call
  bind : (fd : ℤ) → SockAddr → Call
  close : (fd : ℤ) → Call
  timerfd_settime : (fd : ℤ) → Timespec → Call
  read_timer : (fd : ℤ) → Call
  sendto : (fd : ℤ) → Pdu → (size : ℕ) → SockAddr → Call
  recv : (fd : ℤ) → (size : ℕ) → Call
  poll : (socket packet_timer session_timer : ℤ) → Call
  read_key : Call
  write_stdout : List ℕ → Call
  malloc : (size : ℕ) → Call
  free : Call
  tc_get : Call
  tc_set : Termios → Call
  pcm_open : (device : List ℕ) → (recorder : Bool) → Call
  pcm_any pcm_set_access pcm_hw_params pcm_prepare pcm_drop pcm_close : Call
  pcm_set_format pcm_set_channels pcm_set_rate_near pcm_set_period_size_near : ℕ → Call
  pcm_get_period_size : Call
  pcm_readi : (frames : ℕ) → Call
  pcm_writei : (buffer : List ℕ) → (frames : ℕ) → Call
  wav_open : Call
  wav_set_format wav_set_sample_size wav_set_num_channels wav_set_sample_rate : ℕ → Call
  wav_write : (buffer : List ℕ) → (frames : ℕ) → Call
  wav_close : Call
  print : Line → Call
  rename : (stamp : Timespec) → (filename : List ℕ) → Call

-- the calls made, the latest first
abbrev pub Trace : Type 0
Trace = List Call

-- `revents & POLLIN` of the three descriptors polled
pub record Ready : Type 0 where
  pub socket_ready : Bool
  pub timer_ready : Bool
  pub session_ready : Bool

-- What the latest call of a history returns, and what it leaves behind its pointers.
pub record Env : Type 0 where
  pub ret : Trace → ℤ
  pub clock : Trace → Timespec
  pub ifindex : Trace → ℕ
  pub packet : Trace → Pdu
  pub expirations : Trace → ℕ
  pub key : Trace → ℕ
  pub ready : Trace → Ready
  pub allocated : Trace → Bool
  pub rate : Trace → ℕ
  pub period : Trace → ℕ
  -- what a buffer read into holds
  pub audio : Trace → List ℕ
  pub termios : Trace → Termios
  -- the value of an `int` that has not been assigned
  pub indeterminate : Trace → ℤ

-- undefined behaviour and failed assertions
pub data Fault : Type 0 where
  assertion null_pointer division_by_zero uninitialised buffer_overflow out_of_range : Fault

pub data Outcome (A : Type 0) : Type 0 where
  done : A → Trace → Outcome A
  exited : ℕ → Trace → Outcome A
  faulted : Fault → Trace → Outcome A

abbrev pub M : Type 0 → Type 0
M A = Trace → Outcome A

abbrev pub and_then : {A B : Type 0} → Outcome A → (A → M B) → Outcome B
and_then (done a t) f = f a t
and_then (exited c t) f = exited c t
and_then (faulted k t) f = faulted k t

infixl 5 ◌>>=◌ ◌>>◌
abbrev pub ◌>>=◌ : {A B : Type 0} → M A → (A → M B) → M B
◌>>=◌ m f t = and_then (m t) f

abbrev pub ◌>>◌ : {A B : Type 0} → M A → M B → M B
m >> k = m >>= λ _. k

abbrev pub pure : {A : Type 0} → A → M A
pure a t = done a t

abbrev pub fault : {A : Type 0} → Fault → M A
fault k t = faulted k t

abbrev pub exit : {A : Type 0} → ℕ → M A
exit c t = exited c t

-- a call with its `int` result; with another of its answers; and with none that is used
abbrev pub sys : Env → Call → M ℤ
sys env c t = done (env.ret (c ∷ t)) (c ∷ t)

abbrev pub ask : {A : Type 0} → (Trace → A) → Call → M A
ask f c t = done (f (c ∷ t)) (c ∷ t)

-- what the latest call left behind a pointer
abbrev pub answer : {A : Type 0} → (Trace → A) → M A
answer f t = done (f t) t

abbrev pub emit : Call → M (Unit {0})
emit c t = done tt (c ∷ t)
