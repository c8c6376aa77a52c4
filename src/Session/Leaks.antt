-- ===== src/Session/Leaks.antt =====
-- The memory that a session of the listener does not give back.
use tram.Prelude.{
  ℕ, ◌+◌, ◌*◌, ◌≡◌, ◌∙◌, Bool, false, Option, none, some, List, length, ℤ, refl, arith, sym, inl,
  inr,
}
use tram.Sys.{Env, Trace, Outcome, done, exited, faulted, and_then, Termios}
use tram.Sys.Outcomes.{Gives, Gives-bind}
use tram.Terminal.{found, after_setup}
use tram.Settings.{Settings, Floats}
use tram.Avtp.{Avtp}
use tram.Alsa
use tram.Alsa.{PcmFormats}
use tram.Listener.{State, Fds, Next, again, leave, loop}
use tram.Listener.Loop.{initial}
use tram.Listener.Packets.{Healthy}
use tram.Listener.Owned.{mallocs, freed, Owns, Owned, loop-Owned}
use tram.Session.{open_all, conclude, finish, avb_aaf_listener}
use tram.Session.Entered.{Recorded, Reached}
use tram.Session.Still.{avb_aaf_listener-Still}
use tram.Session.Memory.{Leaves, finish-Leaves}

module _ (env : Env) (fl : Floats) (term_old_set : Termios) (fds : Fds) (set : Settings)
    (filename : List ℕ) (a : Avtp) (rounds : ℕ) where
  -- A run that returns a status has left its loop with a queue; and what it still holds then is the
  -- two arrays, and two blocks for each entry queued.
  abbrev Holds : Outcome (Option ℤ) → Option ℤ → Trace → Type 0
  Holds run none v = Unit
  Holds run (some r) v =
      (recording : Bool) × (st : State) × (u : Trace) × Reached env a fds set filename rounds
        recording st u
      × (run ≡ conclude env fl term_old_set fds set recording filename (leave st) u)
      × (mallocs v ≡ freed v + (2 * length st.samples + 2))

  abbrev pub Leaks : Outcome (Option ℤ) → Type 0
  Leaks run = Gives (Holds run) run

  conclude-Leaks :
      (recording : Bool) (st : State) (u : Trace)
      → Reached env a fds set filename rounds recording st u
      → Owns st u
      → Leaks (conclude env fl term_old_set fds set recording filename (leave st) u)
  unfolding conclude
  conclude-Leaks recording st u reached owned =
      Gives-bind (λ _ v. Leaves env fl term_old_set fds set filename st.stats.stack u v)
        (Holds (conclude env fl term_old_set fds set recording filename (leave st) u))
        (finish env fl term_old_set fds set recording filename st u) _
        (finish-Leaves env fl term_old_set fds set filename recording st.stats.stack st u refl)
        λ r v (two, less). (recording, st, u, reached, refl, omega (arith, owned, two, less))

  -- the loop, and what follows it
  after_loop :
      (recording : Bool) (s : Trace)
      → Recorded env filename recording s
      → (r : Outcome Next) → loop env a fds set recording rounds initial s ≡ r
      → Gives Owned r
      → Leaks (and_then r (conclude env fl term_old_set fds set recording filename))
  unfolding conclude
  after_loop recording s rec (done (again st) u) e owned = tt
  after_loop recording s rec (done (leave st) u) e owned =
      conclude-Leaks recording st u (s, rec, inr e) owned
  after_loop recording s rec (exited c u) e owned = tt
  after_loop recording s rec (faulted f u) e owned = tt

-- all that has been allocated has been freed
abbrev pub IsLevel : Trace → Type 0
IsLevel t = mallocs t ≡ freed t

initial-Owns : (t : Trace) → IsLevel t → Owns initial t
initial-Owns t level = omega (arith, level)

module _ (env : Env) (healthy : Healthy env) (a : Avtp) (fl : Floats) (formats : PcmFormats)
    (fds : Fds) (rounds : ℕ) (set : Settings) (filename : List ℕ) where
  -- If memory can be allocated and timers can be set, and as much has been freed as allocated
  -- before: a run of the listener that returns a status, started where the descriptors and the
  -- sound card can be opened, has come to its end either out of its loop, in the state in which
  -- that has been left, or without having entered it, in the initial state; and then the blocks
  -- allocated and not freed are two for each entry in the queue of that state, and two more.
  pub avb_aaf_listener-Leaks :
      (ifname : List ℕ) (before : Settings) (adev : List ℕ) (rec_time : ℤ) (t v w : Trace)
      → IsLevel t
      → open_all env ifname (after_setup env t) ≡ done (some fds) v
      → Alsa.setup env formats adev false before v ≡ done set w
      → Leaks env fl
          (found env t)
          fds
          set
          filename
          a
          rounds
          (avb_aaf_listener env a fl formats rounds ifname before adev rec_time filename t)
  avb_aaf_listener-Leaks ifname before adev rec_time t v w =
      avb_aaf_listener-Still env a fl formats fds rounds set filename t IsLevel
        (λ u v (_, _, one, other) level. one ∙ (level ∙ sym other))
        (Leaks env fl (found env t) fds set filename a rounds)
        (λ recording u level rec.
          conclude-Leaks env fl (found env t) fds set filename a rounds recording initial u
            (u, rec, inl (refl, refl)) (initial-Owns u level))
        (λ recording u level rec.
          after_loop env fl (found env t) fds set filename a rounds recording u rec _ refl
            (loop-Owned env healthy a fds set recording rounds initial u (initial-Owns u level)))
        ifname before adev rec_time v w
