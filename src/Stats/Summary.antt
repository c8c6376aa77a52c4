-- ===== src/Stats/Summary.antt =====
-- What `process_stat` makes of an array.
use tram.Prelude.{ℕ, ◌+◌, ◌/◌, ◌^◌, ◌≤◌, ◌<◌, ◌≡◌, ◌⊎◌, List, [], ◌∷◌, length, arith, refl}
use tram.Sys.{Trace, done, faulted, division_by_zero}
use tram.Settings.{Floats}
use tram.Stats.{Stat, stat_init, add_sample, scan, process_stat, deviations}

abbrev pub sum : List ℕ → ℕ
sum [] = 0
sum (x ∷ xs) = x + sum xs

abbrev pub All : (ℕ → Type 0) → List ℕ → Type 0
All P [] = Unit
All P (x ∷ xs) = P x × All P xs

abbrev pub Among : ℕ → List ℕ → Type 0
Among a [] = ⊥
Among a (x ∷ xs) = (a ≡ x) ⊎ Among a xs

scan-mean : (xs : List ℕ) (s : Stat) → s.mean + sum xs < 2 ^ 64 → (scan xs s).mean ≡ s.mean + sum xs
unfolding scan
scan-mean [] s h = omega arith
scan-mean (x ∷ xs) s h = omega (arith, scan-mean xs (add_sample x s) (omega arith))

scan-std : (xs : List ℕ) (s : Stat) → (scan xs s).std ≡ s.std
unfolding scan
scan-std [] s = refl
scan-std (x ∷ xs) s = scan-std xs (add_sample x s)

scan-min-le : (xs : List ℕ) (s : Stat) → (scan xs s).min ≤ s.min
unfolding scan
scan-min-le [] s = omega arith
scan-min-le (x ∷ xs) s = ground (arith, scan-min-le xs (add_sample x s))

le-scan-max : (xs : List ℕ) (s : Stat) → s.max ≤ (scan xs s).max
unfolding scan
le-scan-max [] s = omega arith
le-scan-max (x ∷ xs) s = ground (arith, le-scan-max xs (add_sample x s))

-- every sample lies between the least and the greatest
scan_bounds : (xs : List ℕ) (s : Stat) → All (λ x. ((scan xs s).min ≤ x) × (x ≤ (scan xs s).max)) xs
unfolding scan
scan_bounds [] s = tt
scan_bounds (x ∷ xs) s = (
  ground (arith, scan-min-le xs (add_sample x s), le-scan-max xs (add_sample x s)),
  scan_bounds xs (add_sample x s),
)

-- and these are samples themselves, or where the scan started
scan_attained :
    (xs : List ℕ) (s : Stat)
    → (((scan xs s).min ≡ s.min) ⊎ Among (scan xs s).min xs)
      × (((scan xs s).max ≡ s.max) ⊎ Among (scan xs s).max xs)
unfolding scan
scan_attained [] s = ground arith
scan_attained (x ∷ xs) s = ground (arith, scan_attained xs (add_sample x s))

-- What the figures of a non-empty array have to be.
pub record IsSummary (xs : List ℕ) (s : Stat) : Type 0 where
  pub bounds : All (λ x. (s.min ≤ x) × (x ≤ s.max)) xs
  pub least : Among s.min xs
  pub greatest : Among s.max xs
  pub mean : s.mean ≡ sum xs / length xs
  pub count : s.count ≡ length xs

-- the outcome of `process_stat` where it returns
abbrev pub figures : Floats → List ℕ → Stat
figures fl xs =
    let scanned = scan xs stat_init in
    let mean = scanned.mean / length xs in
    record scanned {
      count = length xs;
      mean = mean;
      std = fl.sqrt (deviations fl mean xs scanned.std / length xs);
    }

pub process_stat-figures :
    (fl : Floats) (x : ℕ) (xs : List ℕ) (t : Trace)
    → process_stat fl (x ∷ xs) stat_init t ≡ done (figures fl (x ∷ xs)) t
unfolding process_stat
process_stat-figures fl x xs t = ground arith

pub process_stat-nil :
    (fl : Floats) (s : Stat) (t : Trace) → process_stat fl [] s t ≡ faulted division_by_zero t
unfolding process_stat
process_stat-nil fl s t = refl

-- The figures of a non-empty array whose sum is below 2 ^ 64 have the least and the greatest
-- sample as bounds, the rounded-down average as mean, and the number of samples as count.
pub figures-IsSummary :
    (fl : Floats) (x : ℕ) (xs : List ℕ)
    → sum (x ∷ xs) < 2 ^ 64
    → IsSummary (x ∷ xs) (figures fl (x ∷ xs))
figures-IsSummary fl x xs h = record {
  bounds = scan_bounds (x ∷ xs) stat_init;
  least = ground (arith, scan_attained (x ∷ xs) stat_init, (scan_bounds (x ∷ xs) stat_init).0);
  greatest = ground (arith, scan_attained (x ∷ xs) stat_init, (scan_bounds (x ∷ xs) stat_init).0);
  mean = ground (arith, scan-mean (x ∷ xs) stat_init (omega arith));
  count = refl;
}
