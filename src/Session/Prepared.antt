-- ===== src/Session/Prepared.antt =====
-- What the start of a session leaves alone: no packet is asked for, nothing is played, the packet
-- timer stays unarmed and the keyboard unread.
use tram.Prelude.{ℕ, ◌≡◌, Bool, false, List, [], ◌∷◌, ℤ, arith}
use tram.Sys.{Line, Env, Trace, print}
use tram.Sys.Outcomes.{Gives, Gives-bind, Returns}
use tram.Sys.Descriptors.{same_fd, keys}
use tram.Settings.{Settings, Floats}
use tram.Time.{arm_timer}
use tram.Reports.{print_all, print_settings, settings_lines}
use tram.Alsa
use tram.Alsa.{PcmFormats}
use tram.Playout.Armed.{armed}
use tram.Listener.View.{played}
use tram.Listener.Receipts.{receipts}
use tram.Socket.{eth_p_tsn, create_listener_socket}
use tram.Session.{no_mac, open_timers, open_all, start_recording, start_session_timer}

-- nothing has been asked for or played, and `n` keys have been read
abbrev pub Idle : Env → (k n : ℕ) → Trace → Type 0
Idle env k n t = (receipts t ≡ 0) × (played t ≡ []) × (armed env k t ≡ false) × (keys t ≡ n)

module _ (env : Env) (k n : ℕ) where
  pub setup-Idle :
      (formats : PcmFormats) (device : List ℕ) (is_recorder : Bool) (set : Settings) (t : Trace)
      → Idle env k n t
      → Gives (λ _ u. Idle env k n u) (Alsa.setup env formats device is_recorder set t)
  unfolding Alsa.setup
  setup-Idle formats device is_recorder set t idle = ground arith

  print_all-Idle :
      (lines : List Line) (t : Trace)
      → Idle env k n t
      → Returns (λ _ u. Idle env k n u) (print_all lines t)
  print_all-Idle [] t idle = idle
  print_all-Idle (line ∷ lines) t idle = print_all-Idle lines (print line ∷ t) idle

  pub print_settings-Idle :
      (fl : Floats) (set : Settings) (is_talker : Bool) (t : Trace)
      → Idle env k n t
      → Returns (λ _ u. Idle env k n u) (print_settings fl set is_talker t)
  unfolding print_settings
  print_settings-Idle fl set is_talker t idle =
      print_all-Idle (settings_lines fl set is_talker) t idle

  pub start_recording-Idle :
      (set : Settings) (filename : List ℕ) (t : Trace)
      → Idle env k n t
      → Returns (λ _ u. Idle env k n u) (start_recording env set filename t)
  unfolding start_recording
  start_recording-Idle set filename t idle = ground arith

  pub start_session_timer-Idle :
      (fd : ℤ) (rec_time : ℤ) (t : Trace)
      → same_fd k fd ≡ false
      → Idle env k n t
      → Returns (λ _ u. Idle env k n u) (start_session_timer env fd rec_time t)
  unfolding start_session_timer arm_timer
  start_session_timer-Idle fd rec_time t other idle = ground arith

  create_listener_socket-Idle :
      (ifname macaddr : List ℕ) (protocol : ℕ) (t : Trace)
      → Idle env k n t
      → Gives (λ _ u. Idle env k n u) (create_listener_socket env ifname macaddr protocol t)
  unfolding create_listener_socket
  create_listener_socket-Idle ifname macaddr protocol t idle = ground arith

  open_timers-Idle :
      (sk_fd : ℤ) (t : Trace)
      → Idle env k n t
      → Gives (λ _ u. Idle env k n u) (open_timers env sk_fd t)
  unfolding open_timers
  open_timers-Idle sk_fd t idle = ground arith

  pub open_all-Idle :
      (ifname : List ℕ) (t : Trace)
      → Idle env k n t
      → Gives (λ _ u. Idle env k n u) (open_all env ifname t)
  unfolding open_all
  open_all-Idle ifname t idle =
      Gives-bind (λ _ u. Idle env k n u) (λ _ u. Idle env k n u)
        (create_listener_socket env ifname no_mac eth_p_tsn t) _
        (create_listener_socket-Idle ifname no_mac eth_p_tsn t idle) open_timers-Idle
