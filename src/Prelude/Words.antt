-- ===== src/Prelude/Words.antt =====
-- Unsigned machine words as native numbers, and the two masks that the program applies.
use Prim.Native.Nat.{
  ℕ, zero, suc, ◌+◌, ◌-◌, ◌*◌, ◌/◌, ◌%◌, ◌^◌, ◌≤◌, ◌<◌, min, max, bit_and, bit_or, digits,
  bit_and-bitwise, bit_or-bitwise,
}
use mathlib.Core.Path.{◌≡◌, refl, sym, ap, ◌∙◌}
use native.Mathlib.Omega.{arith}
use native.Mathlib.Nat.{pow-suc, pow-succ', one-le-pow, le_trans, div-div-eq-div-mul}

-- uint64_t, uint32_t and uint8_t arithmetic
abbrev pub u64 : ℕ → ℕ
u64 n = n % 2 ^ 64

abbrev pub u32 : ℕ → ℕ
u32 n = n % 2 ^ 32

abbrev pub u8 : ℕ → ℕ
u8 n = n % 2 ^ 8

abbrev pub sub64 : ℕ → ℕ → ℕ
sub64 a b = u64 (a + (2 ^ 64 - u64 b))

abbrev pub sub32 : ℕ → ℕ → ℕ
sub32 a b = u32 (a + (2 ^ 32 - u32 b))

abbrev pub sub8 : ℕ → ℕ → ℕ
sub8 a b = u8 (a + (2 ^ 8 - u8 b))

-- The digit recursion of a bit operation does not depend on fuel beyond its first argument.
abbrev and_digits : ℕ → ℕ → ℕ → ℕ
and_digits n a b = digits (λ b. zero) min n a b

abbrev or_digits : ℕ → ℕ → ℕ → ℕ
or_digits n a b = digits (λ b. b) max n a b

and_fuel : (n m a b : ℕ) → a ≤ n → a ≤ m → and_digits n a b ≡ and_digits m a b
and_fuel zero zero a b p q = refl
and_fuel zero (suc m) zero b p q = refl
and_fuel zero (suc m) (suc a) b p q = absurd (omega arith)
and_fuel (suc n) zero zero b p q = refl
and_fuel (suc n) zero (suc a) b p q = absurd (omega arith)
and_fuel (suc n) (suc m) zero b p q = refl
and_fuel (suc n) (suc m) (suc a) b p q =
    omega (arith, and_fuel n m (suc a / 2) (b / 2) (omega arith) (omega arith))

or_fuel : (n m a b : ℕ) → a ≤ n → a ≤ m → or_digits n a b ≡ or_digits m a b
or_fuel zero zero a b p q = refl
or_fuel zero (suc m) zero b p q = refl
or_fuel zero (suc m) (suc a) b p q = absurd (omega arith)
or_fuel (suc n) zero zero b p q = refl
or_fuel (suc n) zero (suc a) b p q = absurd (omega arith)
or_fuel (suc n) (suc m) zero b p q = refl
or_fuel (suc n) (suc m) (suc a) b p q =
    omega (arith, or_fuel n m (suc a / 2) (b / 2) (omega arith) (omega arith))

zero-and : (b : ℕ) → bit_and 0 b ≡ 0
zero-and b = bit_and-bitwise 0 b

zero-or : (b : ℕ) → bit_or 0 b ≡ b
zero-or b = bit_or-bitwise 0 b

-- the lowest digit of a bit operation, and the rest
and_step : (a b : ℕ) → bit_and a b ≡ bit_and (a / 2) (b / 2) * 2 + min (a % 2) (b % 2)
and_step zero b = omega (arith, zero-and b, zero-and (b / 2))
and_step (suc a) b = omega (
  arith,
  bit_and-bitwise (suc a) b,
  bit_and-bitwise (suc a / 2) (b / 2),
  and_fuel a (suc a / 2) (suc a / 2) (b / 2) (omega arith) (omega arith),
)

or_step : (a b : ℕ) → bit_or a b ≡ bit_or (a / 2) (b / 2) * 2 + max (a % 2) (b % 2)
or_step zero b = omega (arith, zero-or b, zero-or (b / 2))
or_step (suc a) b = omega (
  arith,
  bit_or-bitwise (suc a) b,
  bit_or-bitwise (suc a / 2) (b / 2),
  or_fuel a (suc a / 2) (suc a / 2) (b / 2) (omega arith) (omega arith),
)

or-zero_fuel : (n a : ℕ) → a ≤ n → bit_or a 0 ≡ a
or-zero_fuel n zero h = zero-or 0
or-zero_fuel zero (suc a) h = absurd (omega arith)
or-zero_fuel (suc n) (suc a) h =
    omega (arith, or_step (suc a) 0, or-zero_fuel n (suc a / 2) (omega arith))

or_double : (x t : ℕ) → bit_or (x * 2) t ≡ bit_or x (t / 2) * 2 + t % 2
or_double x t = let e : x * 2 / 2 ≡ x = omega arith in rw (or_step (x * 2) t, e) (omega arith)

and_double : (a x : ℕ) → bit_and a (x * 2) ≡ bit_and (a / 2) x * 2
and_double a x = let e : x * 2 / 2 ≡ x = omega arith in rw (and_step a (x * 2), e) (omega arith)

and_double_ones : (a x : ℕ) → bit_and a (x * 2 + 1) ≡ bit_and (a / 2) x * 2 + a % 2
and_double_ones a x =
    let e : (x * 2 + 1) / 2 ≡ x = omega arith in rw (and_step a (x * 2 + 1), e) (omega arith)

-- A field in the low `k` digits beside one above them: `|` is a sum.
pub or_disjoint : (k h t : ℕ) → t < 2 ^ k → bit_or (h * 2 ^ k) t ≡ h * 2 ^ k + t
or_disjoint zero h t p =
    let e : t ≡ 0 = omega arith in rw e (or-zero_fuel (h * 1) (h * 1) (omega arith) ∙ omega arith)
or_disjoint (suc k) h t p =
    let e : h * 2 ^ suc k ≡ h * 2 ^ k * 2 = omega (arith, ap (λ (x : ℕ). h * x) (pow-suc 2 k)) in
    rw (e, or_double) (omega (arith, or_disjoint k h (t / 2) (omega (arith, pow-suc 2 k))))

-- Masking by ones in the low `k` digits keeps what lies below 2 ^ k.
pub and_ones : (k a : ℕ) → a < 2 ^ k → bit_and a (2 ^ k - 1) ≡ a
and_ones zero a p = let e : a ≡ 0 = omega arith in rw e (zero-and 0)
and_ones (suc k) a p =
    let e : 2 ^ suc k - 1 ≡ (2 ^ k - 1) * 2 + 1 = omega (arith, pow-suc 2 k, two-pow-ne-zero k) in
    rw (e, and_double_ones) (omega (arith, and_ones k (a / 2) (omega (arith, pow-suc 2 k))))
  where
    two-pow-ne-zero : (n : ℕ) → 0 < 2 ^ n
    two-pow-ne-zero n = le_trans (omega arith) (one-le-pow n 2 (omega arith))

-- A mask that is zero in the low `k` digits acts on the digits above.
pub and_high : (k a m : ℕ) → bit_and a (m * 2 ^ k) ≡ bit_and (a / 2 ^ k) m * 2 ^ k
and_high zero a m =
    let e : m * 2 ^ 0 ≡ m = omega arith in
    let d : a / 2 ^ 0 ≡ a = omega arith in rw (e, d) (omega arith)
and_high (suc k) a m =
    let e : m * 2 ^ suc k ≡ m * 2 ^ k * 2 = omega (arith, ap (λ (x : ℕ). m * x) (pow-suc 2 k)) in
    let d : a / 2 ^ suc k ≡ a / 2 / 2 ^ k =
      ap (λ (x : ℕ). a / x) (pow-succ' 2 k) ∙ sym (div-div-eq-div-mul a 2 (2 ^ k)) in
    rw (e, d, and_double, and_high k (a / 2) m)
      (omega (arith, ap (λ (x : ℕ). bit_and (a / 2 / 2 ^ k) m * x) (pow-suc 2 k)))
