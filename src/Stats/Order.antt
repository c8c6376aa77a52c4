-- ===== src/Stats/Order.antt =====
-- `process_stat` does not depend on the order of the array, but for the deviation.
use mathlib.Core.List.{Perm, foldr}
use mathlib.Core.List.Perm
use native.Mathlib.Nat.{ℕ_set}
use tram.Prelude.{
  ℕ, suc, ◌≡◌, ◌==◌, ◌∙◌, sym, ap, Bool-cases, inl, inr, List, [], ◌∷◌, length, arith, refl,
}
use tram.Sys.{Trace, Outcome, done, faulted}
use tram.Settings.{Floats}
use tram.Stats.{Stat, add_sample, scan, process_stat}

add_sample_comm :
    (x y : ℕ) (s : Stat) → add_sample x (add_sample y s) ≡ add_sample y (add_sample x s)
add_sample_comm x y s = ground arith

Stat_set : IsSet Stat
Stat_set = hlevel

scan-foldr : (xs : List ℕ) (s : Stat) → scan xs s ≡ foldr add_sample s xs
unfolding scan
scan-foldr [] s = refl
scan-foldr (x ∷ xs) s = scan-foldr xs (add_sample x s) ∙ inward xs
  where
    inward :
        (ys : List ℕ) → foldr add_sample (add_sample x s) ys ≡ add_sample x (foldr add_sample s ys)
    inward [] = refl
    inward (y ∷ ys) = ap (add_sample y) (inward ys) ∙ add_sample_comm y x (foldr add_sample s ys)

scan-Perm : {xs ys : List ℕ} → Perm xs ys → (s : Stat) → scan xs s ≡ scan ys s
scan-Perm {xs} {ys} p s =
    scan-foldr xs s
    ∙ (Perm.foldr-eq Stat_set add_sample add_sample_comm p s ∙ sym (scan-foldr ys s))

length-foldr : (xs : List ℕ) → length xs ≡ foldr (λ _ n. suc n) 0 xs
length-foldr [] = refl
length-foldr (x ∷ xs) = ap suc (length-foldr xs)

length-Perm : {xs ys : List ℕ} → Perm xs ys → length xs ≡ length ys
length-Perm {xs} {ys} p =
    length-foldr xs
    ∙ (Perm.foldr-eq ℕ_set (λ _ n. suc n) (λ a b n. refl) p 0 ∙ sym (length-foldr ys))

-- the same end, with the same figures but for the deviation
abbrev pub SameFigures : Outcome Stat → Outcome Stat → Type 0
SameFigures (done s t) (done s' u) =
    (s.min ≡ s'.min) × (s.max ≡ s'.max) × (s.mean ≡ s'.mean) × (s.count ≡ s'.count) × (t ≡ u)
SameFigures (faulted f t) (faulted g u) = (f ≡ g) × (t ≡ u)
SameFigures _ _ = ⊥

-- The least, the greatest, the mean and the count that `process_stat` makes, and whether it
-- returns or divides by zero, do not depend on the order of the array.
pub process_stat-Perm :
    (fl : Floats) (stat : Stat) (xs ys : List ℕ) (t : Trace)
    → Perm xs ys
    → SameFigures (process_stat fl xs stat t) (process_stat fl ys stat t)
unfolding process_stat
process_stat-Perm fl stat xs ys t p = elim (Bool-cases (length ys == 0)) [
  | inl empty ↦ rw (length-Perm p, empty) (refl, refl)
  | inr filled ↦ rw (length-Perm p, scan-Perm p stat, filled) (refl, refl, refl, refl, refl)
]
