-- ===== src/Sys/Conclusion.antt =====
-- How a run of the talker or the listener may end.
use tram.Prelude.{ℕ, ◌≡◌, ◌⊎◌, Option, none, some, ℤ, pos}
use tram.Sys.{Env, Trace, Outcome, done, exited, faulted}
use tram.Terminal.{nonblock, found}
use tram.Sys.Descriptors.{is_open, attributes}

-- The end of a run from `t`. A run that returns leaves open what was open in `t`, and has either
-- given back the attributes found at the start, or ended with 1 in a history that is `Refused`,
-- with those of `term_nonblock_setup` in place. An exit and a fault leave these in place.
abbrev pub Concluded : Env → Trace → (Refused : Trace → Type 0) → Outcome (Option ℤ) → Type 0
Concluded env t Refused (done none u) = Unit
Concluded env t Refused (done (some r) u) =
    ((k : ℕ) → is_open env k u ≡ is_open env k t)
    × ((attributes u ≡ some (found env t))
        ⊎ ((r ≡ pos 1) × (attributes u ≡ some (nonblock (found env t))) × Refused u))
Concluded env t Refused (exited c u) = attributes u ≡ some (nonblock (found env t))
Concluded env t Refused (faulted f u) = attributes u ≡ some (nonblock (found env t))
