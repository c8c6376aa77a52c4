-- ===== src/Session/Deaf.antt =====
-- A session that has received no packet of its stream.
use tram.Prelude.{
  ℕ, suc, ◌+◌, ◌≡◌, ◌∙◌, if◌then◌else◌, Bool, true, false, some, List, [], ◌∷◌, ℤ, ap, inl, inr,
  refl,
}
use tram.Sys.{
  Env, Trace, Outcome, done, exited, faulted, and_then, Termios, null_pointer, uninitialised,
  wav_close,
}
use tram.Sys.Outcomes.{Returns}
use tram.Sys.Descriptors.{same_fd, keys}
use tram.Terminal.{found, after_setup}
use tram.Settings.{Settings, Floats}
use tram.Stats.{clear, get_first}
use tram.Stats.Report.{process_stats-nil}
use tram.Avtp.{Avtp}
use tram.Alsa
use tram.Alsa.{PcmFormats}
use tram.Playout.Armed.{HonestTimer}
use tram.Listener.{Fds, Next, again, leave, loop}
use tram.Listener.Loop.{initial}
use tram.Listener.Rule.{polled}
use tram.Listener.Deaf.{IsForeign, Untouched, loop-Untouched}
use tram.Listener.Ends.{Stopped, loop-Stopped}
use tram.Listener.View.{played}
use tram.Session.{
  open_all, conclude, finish, report, finish_recording, close_wav_recorder, release,
  avb_aaf_listener,
}
use tram.Session.Prepared.{Idle}
use tram.Session.Entered.{Recorded, Reached, avb_aaf_listener-Idle}

-- The run has handed nothing to the sound card when the session ends, and then breaks: on a start
-- time never assigned if there is a recording, on a null pointer otherwise.
abbrev pub Breaks :
    Env
    → Avtp
    → Fds
    → Settings
    → (filename : List ℕ) → (rounds : ℕ) → {A : Type 0} → Outcome A
    → Type 0
Breaks env a fds set filename rounds r =
    (recording : Bool) × (u : Trace) × Reached env a fds set filename rounds recording initial u
    × (played u ≡ [])
    × (r ≡ (if recording then faulted uninitialised (wav_close ∷ u) else faulted null_pointer u))

module _ (env : Env) (fl : Floats) (term_old_set : Termios) (fds : Fds) (set : Settings)
    (filename : List ℕ) (a : Avtp) (rounds : ℕ) where
  conclude-Breaks :
      (recording : Bool) (u : Trace)
      → Reached env a fds set filename rounds recording initial u
      → played u ≡ []
      → Breaks env a fds set filename rounds
          (conclude env fl term_old_set fds set recording filename (leave initial) u)
  unfolding conclude finish report release clear get_first finish_recording close_wav_recorder
  conclude-Breaks true u reached unplayed =
      (true, u, reached, unplayed, rw (process_stats-nil fl set env 0 u))
  conclude-Breaks false u reached unplayed =
      (false, u, reached, unplayed, rw (process_stats-nil fl set env 0 u))

  -- what follows a loop that has been left
  after-Breaks :
      (k : ℕ) (recording : Bool) (s : Trace)
      → Recorded env filename recording s
      → (r : Outcome Next) → loop env a fds set recording rounds initial s ≡ r
      → Returns (Untouched env a fds set k) r
      → Stopped r
      → Breaks env a fds set filename rounds
          (and_then r (conclude env fl term_old_set fds set recording filename))
  after-Breaks k recording s rec (done (again st) u) e q stopped = absurd stopped
  after-Breaks k recording s rec (done (leave st) u) e (fresh, unplayed, unarmed) stopped =
      rw fresh (conclude-Breaks recording u (s, rec, inr (rw fresh at e)) unplayed)
  after-Breaks k recording s rec (exited c u) e q stopped = absurd q
  after-Breaks k recording s rec (faulted f u) e q stopped = absurd q

module _ (env : Env) (a : Avtp) (fl : Floats) (formats : PcmFormats) (fds : Fds) (set : Settings)
    (k : ℕ) (honest : HonestTimer env k) (ours : same_fd k fds.timer_fd ≡ true)
    (other : same_fd k fds.session_tim_fd ≡ false)
    (foreign : (t : Trace)
      → (env.ready (polled fds t)).socket_ready ≡ true
      → IsForeign env a fds set (polled fds t))
    (last : ℕ) (escape : (u : Trace) → keys u ≡ last → env.key u ≡ 27) (rounds n : ℕ)
    (enough : n + suc rounds ≡ last) where
  pub avb_aaf_listener-Breaks :
      (ifname : List ℕ) (before : Settings) (adev : List ℕ) (rec_time : ℤ) (filename : List ℕ)
      (t v w : Trace)
      → Idle env k n t
      → open_all env ifname (after_setup env t) ≡ done (some fds) v
      → Alsa.setup env formats adev false before v ≡ done set w
      → Breaks env a fds set filename
          (suc rounds)
          (avb_aaf_listener env a fl formats (suc rounds) ifname before adev rec_time filename t)
  avb_aaf_listener-Breaks ifname before adev rec_time filename t v w =
      avb_aaf_listener-Idle env a fl formats fds (suc rounds) set filename k n other t
        (Breaks env a fds set filename (suc rounds))
        (λ recording u (_, unplayed, _, _) rec.
          conclude-Breaks env fl (found env t) fds set filename a (suc rounds) recording u
            (u, rec, inl (refl, refl)) unplayed)
        (λ recording u (_, unplayed, unarmed, read) rec.
          after-Breaks env fl (found env t) fds set filename a (suc rounds) k recording u rec _ refl
            (loop-Untouched env a fds set k honest ours recording foreign (suc rounds) u unplayed
              unarmed)
            (loop-Stopped env last escape a fds set recording rounds initial u
              (ap (λ m. m + suc rounds) read ∙ enough)))
        ifname before adev rec_time v w
