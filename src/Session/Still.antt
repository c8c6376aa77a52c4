-- ===== src/Session/Still.antt =====
-- What the start of a session leaves alone: the packets, the samples and the memory.
use tram.Prelude.{ℕ, ◌≡◌, ◌∙◌, Bool, false, Option, some, List, [], ◌∷◌, ℤ, refl, arith}
use tram.Sys.{Line, Env, Trace, Outcome, done, print, ◌>>=◌}
use tram.Sys.Outcomes.{Gives, Gives-bind, Gives-map, Returns, Returns-map, Returns-both}
use tram.Settings.{Settings, Floats}
use tram.Time.{arm_timer}
use tram.Terminal.{found, after_setup}
use tram.Avtp.{Avtp}
use tram.Reports.{print_all, print_settings, settings_lines}
use tram.Alsa
use tram.Alsa.{PcmFormats}
use tram.Listener.{Fds, leave, loop}
use tram.Listener.Loop.{initial}
use tram.Listener.View.{played}
use tram.Listener.Receipts.{receipts}
use tram.Listener.Owned.{mallocs, freed}
use tram.Socket.{eth_p_tsn, create_listener_socket}
use tram.Session.{
  no_mac, open_timers, open_all, start_recording, start_session_timer, conclude, avb_aaf_listener,
}
use tram.Session.Entered.{
  Recorded, start_recording-Recorded, start_session_timer-Recorded, avb_aaf_listener-Entered,
}

-- From `t` to `u` no packet has been asked for, nothing played, allocated or freed.
abbrev pub Still : Trace → Trace → Type 0
Still t u =
    (receipts u ≡ receipts t)
    × (played u ≡ played t)
    × (mallocs u ≡ mallocs t)
    × (freed u ≡ freed t)

Still-trans : (t u v : Trace) → Still t u → Still u v → Still t v
Still-trans t u v (a, b, c, d) (a', b', c', d') = (a' ∙ a, b' ∙ b, c' ∙ c, d' ∙ d)

module _ (env : Env) (t : Trace) where
  setup-Still :
      (formats : PcmFormats) (device : List ℕ) (is_recorder : Bool) (set : Settings)
      → Gives (λ _ u. Still t u) (Alsa.setup env formats device is_recorder set t)
  unfolding Alsa.setup
  setup-Still formats device is_recorder set = ground arith

  print_all-Still :
      (lines : List Line) (v : Trace) → Still t v → Returns (λ _ u. Still t u) (print_all lines v)
  print_all-Still [] v still = still
  print_all-Still (line ∷ lines) v still = print_all-Still lines (print line ∷ v) still

  print_settings-Still :
      (fl : Floats) (set : Settings) (is_talker : Bool)
      → Returns (λ _ u. Still t u) (print_settings fl set is_talker t)
  unfolding print_settings
  print_settings-Still fl set is_talker =
      print_all-Still (settings_lines fl set is_talker) t (refl, refl, refl, refl)

  start_recording-Still :
      (set : Settings) (filename : List ℕ)
      → Returns (λ _ u. Still t u) (start_recording env set filename t)
  unfolding start_recording
  start_recording-Still set filename = ground arith

  start_session_timer-Still :
      (fd rec_time : ℤ) → Returns (λ _ u. Still t u) (start_session_timer env fd rec_time t)
  unfolding start_session_timer arm_timer
  start_session_timer-Still fd rec_time = ground arith

  create_listener_socket-Still :
      (ifname macaddr : List ℕ) (protocol : ℕ)
      → Gives (λ _ u. Still t u) (create_listener_socket env ifname macaddr protocol t)
  unfolding create_listener_socket
  create_listener_socket-Still ifname macaddr protocol = ground arith

  open_timers-Still : (sk_fd : ℤ) → Gives (λ _ u. Still t u) (open_timers env sk_fd t)
  unfolding open_timers
  open_timers-Still sk_fd = ground arith

open_all-Still :
    (env : Env) (t : Trace) (ifname : List ℕ) → Gives (λ _ u. Still t u) (open_all env ifname t)
unfolding open_all
open_all-Still env t ifname =
    Gives-bind (λ _ u. Still t u) (λ _ u. Still t u)
      (create_listener_socket env ifname no_mac eth_p_tsn t) _
      (create_listener_socket-Still env t ifname no_mac eth_p_tsn)
      λ fd u still.
        Gives-map (λ _ v. Still u v) (λ _ v. Still t v) (λ _ v. Still-trans t u v still) _
          (open_timers-Still env u fd)

module _ (env : Env) (a : Avtp) (fl : Floats) (formats : PcmFormats) (fds : Fds) (rounds : ℕ)
    (set : Settings) (filename : List ℕ) (t : Trace) (P : Trace → Type 0)
    (keeps : (u v : Trace) → Still u v → P u → P v) (Good : Outcome (Option ℤ) → Type 0)
    (unentered : (recording : Bool) (u : Trace)
      → P u
      → Recorded env filename recording u
      → Good (conclude env fl (found env t) fds set recording filename (leave initial) u))
    (looped : (recording : Bool) (u : Trace)
      → P u
      → Recorded env filename recording u
      → Good (
          (loop env a fds set recording rounds initial
              >>= conclude env fl (found env t) fds set recording filename)
            u)) where
  kept :
      {A : Type 0} (u : Trace) (r : Outcome A)
      → P u
      → Returns (λ _ v. Still u v) r
      → Returns (λ _ v. P v) r
  kept u r p = Returns-map (λ _ v. Still u v) (λ _ v. P v) (λ _ v still. keeps u v still p) r

  -- The start of a session keeps what depends on the packets, the samples and the memory only.
  pub avb_aaf_listener-Still :
      (ifname : List ℕ) (before : Settings) (adev : List ℕ) (rec_time : ℤ) (v w : Trace)
      → P t
      → open_all env ifname (after_setup env t) ≡ done (some fds) v
      → Alsa.setup env formats adev false before v ≡ done set w
      → Good (avb_aaf_listener env a fl formats rounds ifname before adev rec_time filename t)
  avb_aaf_listener-Still ifname before adev rec_time v w p opened set_up =
      let to_v : Still t v = rw opened at (open_all-Still env (after_setup env t) ifname) in
      let to_w : Still v w = rw set_up at (setup-Still env v formats adev false before) in
      avb_aaf_listener-Entered env a fl formats (found env t) fds rounds set filename rec_time P
        (λ recording u. P u × Recorded env filename recording u)
        (λ u p. kept u _ p (print_settings-Still env u fl set false))
        (λ u p.
          Returns-both _ _ _ (kept u _ p (start_recording-Still env u set filename))
            (start_recording-Recorded env filename set u))
        (λ recording u (p, rec).
          Returns-both _ _ _
            (kept u _ p (start_session_timer-Still env u fds.session_tim_fd rec_time))
            (start_session_timer-Recorded env filename recording fds.session_tim_fd rec_time u rec))
        Good (λ recording u (p, rec). unentered recording u p rec)
        (λ recording u (p, rec). looped recording u p rec) ifname before adev t v w refl opened
        set_up (keeps v w to_w (keeps t v to_v p))
