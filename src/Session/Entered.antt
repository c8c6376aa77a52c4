-- ===== src/Session/Entered.antt =====
-- A run of the listener whose devices can be opened comes to its loop, or to what follows it.
use tram.Prelude.{
  ℕ, ◌≡◌, if◌then◌else◌, Bool, false, Option, some, List, ℤ, [], ◌∷◌, is_empty, ◌⊎◌, is_neg,
  Bool-cases, inl, inr, refl, arith,
}
use tram.Sys.{Env, Trace, Outcome, done, ◌>>=◌, Termios, wav_open}
use tram.Sys.Outcomes.{Returns, Returns-bind, Returns-both}
use tram.Sys.Descriptors.{same_fd}
use tram.Time.{arm_timer}
use tram.Terminal.{found, after_setup, term_nonblock_setup}
use tram.Settings.{Settings, Floats}
use tram.Avtp.{Avtp}
use tram.Alsa
use tram.Alsa.{PcmFormats}
use tram.Reports.{print_settings}
use tram.Listener.{State, Fds, leave, loop}
use tram.Listener.Loop.{initial}
use tram.Session.{
  open_all, session, start_recording, start_session_timer, conclude, avb_aaf_listener,
}
use tram.Session.Prepared.{
  Idle, setup-Idle, print_settings-Idle, start_recording-Idle, start_session_timer-Idle,
  open_all-Idle,
}

-- whether the last file asked of libwav has been opened
abbrev pub recorder : Env → Trace → Bool
recorder env [] = false
recorder env (wav_open ∷ t) = env.allocated (wav_open ∷ t)
recorder env (_ ∷ t) = recorder env t

-- There is a recording exactly if there is a file name and the file has been opened.
abbrev pub Recorded : Env → (filename : List ℕ) → (recording : Bool) → Trace → Type 0
Recorded env filename recording u =
    recording ≡ (if is_empty filename then false else recorder env u)

-- The end of the session has been reached in the state `st` at the history `u`: the loop has been
-- left there, or not been entered. There was a recording exactly if one had been started before.
abbrev pub Reached :
    Env
    → Avtp
    → Fds
    → Settings
    → (filename : List ℕ) → (rounds : ℕ) → (recording : Bool) → State
    → Trace
    → Type 0
Reached env a fds set filename rounds recording st u =
    (s : Trace) × Recorded env filename recording s
    × (((st ≡ initial) × (u ≡ s))
        ⊎ (loop env a fds set recording rounds initial s ≡ done (leave st) u))

module _ (env : Env) (filename : List ℕ) where
  pub start_recording-Recorded :
      (set : Settings) (t : Trace)
      → Returns
          (λ (_, recording) u. Recorded env filename recording u)
          (start_recording env set filename t)
  unfolding start_recording
  start_recording-Recorded set t = ground arith

  pub start_session_timer-Recorded :
      (recording : Bool) (fd rec_time : ℤ) (t : Trace)
      → Recorded env filename recording t
      → Returns (λ _ u. Recorded env filename recording u) (start_session_timer env fd rec_time t)
  unfolding start_session_timer arm_timer
  start_session_timer-Recorded recording fd rec_time t before = ground arith

module _ (env : Env) (a : Avtp) (fl : Floats) (formats : PcmFormats) (term_old_set : Termios)
    (fds : Fds) (rounds : ℕ) (set : Settings) (filename : List ℕ) (rec_time : ℤ)
    (P : Trace → Type 0) (Q : Bool → Trace → Type 0)
    (prints : (u : Trace) → P u → Returns (λ _ v. P v) (print_settings fl set false u))
    (records : (u : Trace)
      → P u
      → Returns (λ (_, recording) v. Q recording v) (start_recording env set filename u))
    (times : (recording : Bool) (u : Trace)
      → Q recording u
      → Returns (λ _ v. Q recording v) (start_session_timer env fds.session_tim_fd rec_time u))
    (Good : Outcome (Option ℤ) → Type 0)
    (unentered : (recording : Bool) (u : Trace)
      → Q recording u
      → Good (conclude env fl term_old_set fds set recording filename (leave initial) u))
    (looped : (recording : Bool) (u : Trace)
      → Q recording u
      → Good (
          (loop env a fds set recording rounds initial
              >>= conclude env fl term_old_set fds set recording filename)
            u)) where
  timed :
      (recording : Bool) (v : Trace)
      → Q recording v
      → Good (
          (do
            res ← start_session_timer env fds.session_tim_fd rec_time
            if is_neg res
                then conclude env fl term_old_set fds set recording filename (leave initial)
                else loop env a fds set recording rounds initial
                  >>= conclude env fl term_old_set fds set recording filename)
            v)
  timed recording v kept =
      Returns-bind (λ _ x. Q recording x) Good
        (start_session_timer env fds.session_tim_fd rec_time v) _ (times recording v kept)
        λ res x kept_x. elim (Bool-cases (is_neg res)) [
          | inl failed ↦ rw failed (unentered recording x kept_x)
          | inr fine ↦ rw fine (looped recording x kept_x)
        ]

  -- What holds of the end, and of the loop with it, if the start has kept `P`, holds of the session.
  pub session-Entered :
      (before : Settings) (adev : List ℕ) (t w : Trace)
      → Alsa.setup env formats adev false before t ≡ done set w
      → P w
      → Good (session env a fl formats term_old_set fds rounds before adev rec_time filename t)
  unfolding session
  session-Entered before adev t w set_up kept = rw set_up (
      Returns-bind (λ _ u. P u) Good (print_settings fl set false w) _ (prints w kept)
        λ _ u kept_u.
          Returns-bind (λ (_, recording) v. Q recording v) Good (start_recording env set filename u)
            _ (records u kept_u)
            λ (res, recording) v kept_v. elim (Bool-cases (is_neg res)) [
              | inl failed ↦ rw failed (unentered recording v kept_v)
              | inr fine ↦ rw fine (timed recording v kept_v)
            ])

  -- and of the run, where the descriptors can be opened
  pub avb_aaf_listener-Entered :
      (ifname : List ℕ) (before : Settings) (adev : List ℕ) (t v w : Trace)
      → term_old_set ≡ found env t
      → open_all env ifname (after_setup env t) ≡ done (some fds) v
      → Alsa.setup env formats adev false before v ≡ done set w
      → P w
      → Good (avb_aaf_listener env a fl formats rounds ifname before adev rec_time filename t)
  unfolding avb_aaf_listener term_nonblock_setup
  avb_aaf_listener-Entered ifname before adev t v w was opened set_up kept =
      rw (opened, ← was) (session-Entered before adev v w set_up kept)

module _ (env : Env) (a : Avtp) (fl : Floats) (formats : PcmFormats) (fds : Fds) (rounds : ℕ)
    (set : Settings) (filename : List ℕ) (k n : ℕ) (other : same_fd k fds.session_tim_fd ≡ false)
    (t : Trace) (Good : Outcome (Option ℤ) → Type 0)
    (unentered : (recording : Bool) (u : Trace)
      → Idle env k n u
      → Recorded env filename recording u
      → Good (conclude env fl (found env t) fds set recording filename (leave initial) u))
    (looped : (recording : Bool) (u : Trace)
      → Idle env k n u
      → Recorded env filename recording u
      → Good (
          (loop env a fds set recording rounds initial
              >>= conclude env fl (found env t) fds set recording filename)
            u)) where
  -- The start of a session is idle.
  pub avb_aaf_listener-Idle :
      (ifname : List ℕ) (before : Settings) (adev : List ℕ) (rec_time : ℤ) (v w : Trace)
      → Idle env k n t
      → open_all env ifname (after_setup env t) ≡ done (some fds) v
      → Alsa.setup env formats adev false before v ≡ done set w
      → Good (avb_aaf_listener env a fl formats rounds ifname before adev rec_time filename t)
  avb_aaf_listener-Idle ifname before adev rec_time v w idle opened set_up =
      let idle_v : Idle env k n v =
        rw opened at (open_all-Idle env k n ifname (after_setup env t) idle) in
      avb_aaf_listener-Entered env a fl formats (found env t) fds rounds set filename rec_time
        (Idle env k n) (λ recording u. Idle env k n u × Recorded env filename recording u)
        (print_settings-Idle env k n fl set false)
        (λ u idle.
          Returns-both _ _ _ (start_recording-Idle env k n set filename u idle)
            (start_recording-Recorded env filename set u))
        (λ recording u (idle, rec).
          Returns-both _ _ _
            (start_session_timer-Idle env k n fds.session_tim_fd rec_time u other idle)
            (start_session_timer-Recorded env filename recording fds.session_tim_fd rec_time u rec))
        Good (λ recording u (idle, rec). unentered recording u idle rec)
        (λ recording u (idle, rec). looped recording u idle rec) ifname before adev t v w refl
        opened set_up (rw set_up at (setup-Idle env k n formats adev false before v idle_v))
