-- ===== src/Listener/Safe.antt =====
-- What playback relies on, and runs that are cut short for want of memory only.
use tram.Prelude.{ℕ, ◌≡◌, true, false, is_empty}
use tram.Sys.{Env, Trace, Outcome, done, exited, faulted, null_pointer, M, and_then}
use tram.Sys.Outcomes.{Gives, Returns}
use tram.Playout.Armed.{armed}
use tram.Listener.{State}

module _ (env : Env) (k : ℕ) where
  -- Playback has an entry to play, an armed timer has an entry to start with, and the timer is not
  -- armed during playback.
  pub record Inv (st : State) (t : Trace) : Type 0 where
    pub running_has : st.is_running ≡ true → is_empty st.samples ≡ false
    pub armed_has : armed env k t ≡ true → is_empty st.samples ≡ false
    pub running_unarmed : st.is_running ≡ true → armed env k t ≡ false

  -- a run that returns, or is cut short for want of memory
  abbrev pub Safe : {A : Type 0} → (A → Trace → Type 0) → Outcome A → Type 0
  Safe P (done a t) = P a t
  Safe P (exited c t) = ⊥
  Safe P (faulted f t) = (f ≡ null_pointer) × (env.allocated t ≡ false)

  pub Safe-bind :
      {A B : Type 0} (P : A → Trace → Type 0) (Q : B → Trace → Type 0) (r : Outcome A) (f : A → M B)
      → Safe P r
      → ((a : A) (t : Trace) → P a t → Safe Q (f a t))
      → Safe Q (and_then r f)
  Safe-bind P Q (done a t) f h g = g a t h
  Safe-bind P Q (exited c t) f h g = absurd h
  Safe-bind P Q (faulted x t) f h g = h

  -- With memory available, a run that is safe returns.
  pub Safe-Returns :
      {A : Type 0}
      → ((u : Trace) → env.allocated u ≡ true)
      → (P Q : A → Trace → Type 0) (r : Outcome A) → Safe P r
      → Gives Q r
      → Returns Q r
  Safe-Returns room P Q (done a u) safe given = given
  Safe-Returns room P Q (exited c u) safe given = safe
  Safe-Returns room P Q (faulted f u) (null, empty) given = cc (room u, empty)
