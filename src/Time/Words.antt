-- ===== src/Time/Words.antt =====
-- The conversions between timespecs and 64-bit numbers of nanoseconds.
use mathlib.Core.Equiv.{IsEquiv, iso_to_equiv}
use std.HLevel.{prop→path_p}
use native.Mathlib.Bridge.{le_prop}
use tram.Prelude.{ℕ, ◌+◌, ◌*◌, ◌^◌, ◌<◌, ◌≡◌, arith}
use tram.Sys.{Timespec}
use tram.Settings.{nsec_per_sec}
use tram.Time.{timespec_to_ns, ns_to_timespec}
use tram.Time.Presentation.{timespec_to_ns-ns_to_timespec}

-- the nanoseconds are below a second, and the time below 2 ^ 64 ns
abbrev pub IsNormal : Timespec → Type 0
IsNormal t = (t.tv_nsec < nsec_per_sec) × (t.tv_sec * nsec_per_sec + t.tv_nsec < 2 ^ 64)

abbrev pub to_word : (t : Timespec) × IsNormal t → (x : ℕ) × (x < 2 ^ 64)
unfolding timespec_to_ns
to_word (t, normal) = (timespec_to_ns t, omega arith)

IsNormal-prop : (t : Timespec) → IsProp (IsNormal t)
IsNormal-prop t = hlevel le_prop

abbrev pub of_word : (x : ℕ) × (x < 2 ^ 64) → (t : Timespec) × IsNormal t
unfolding ns_to_timespec
of_word (x, small) =
    (ns_to_timespec x, ((timespec_to_ns-ns_to_timespec x small).1, omega (arith, small)))

of_word-to_word : (n : (t : Timespec) × IsNormal t) → of_word (to_word n) ≡ n
unfolding to_word of_word timespec_to_ns ns_to_timespec
of_word-to_word (t, (small, fits)) =
    let same : ns_to_timespec (timespec_to_ns t) ≡ t =
      λ i. record { tv_sec = sec i; tv_nsec = nsec i } in
    λ i. (
      same i,
      prop→path_p (λ j. IsNormal (same j)) (IsNormal-prop t)
          (of_word (to_word (t, (small, fits)))).1 (small, fits) i,
    )
  where
    sec : (ns_to_timespec (timespec_to_ns t)).tv_sec ≡ t.tv_sec
    sec = omega (arith, small, fits)

    nsec : (ns_to_timespec (timespec_to_ns t)).tv_nsec ≡ t.tv_nsec
    nsec = omega (arith, small, fits)

to_word-of_word : (x : (n : ℕ) × (n < 2 ^ 64)) → to_word (of_word x) ≡ x
unfolding to_word of_word timespec_to_ns ns_to_timespec
to_word-of_word (x, small) = λ i.
    (same i, prop→path_p (λ j. same j < 2 ^ 64) le_prop (to_word (of_word (x, small))).1 small i)
  where
    same : timespec_to_ns (ns_to_timespec x) ≡ x
    same = (timespec_to_ns-ns_to_timespec x small).0

-- `timespec_to_ns` is an equivalence between the timespecs that have their nanoseconds below a
-- second and stand for less than 2 ^ 64 ns, and the numbers below 2 ^ 64, with `ns_to_timespec` as
-- its inverse.
pub to_word-IsEquiv :
    IsEquiv to_word
    × ((n : (t : Timespec) × IsNormal t) → of_word (to_word n) ≡ n)
    × ((x : (n : ℕ) × (n < 2 ^ 64)) → to_word (of_word x) ≡ x)
to_word-IsEquiv = (
  (iso_to_equiv
      (record { fun = to_word; inv = of_word; rinv = to_word-of_word; linv = of_word-to_word })).1,
  of_word-to_word,
  to_word-of_word,
)
