-- ===== src/Tests/LeadingZeros.antt =====
-- A function that counts leading zeros as the documentation of `ldz` says.
use native.Mathlib.Nat.{mul-le-mul_right, mul-lt-mul_of_pos_right}
use tsubasa.Base.{ℕ, zero, suc, ◌+◌, ◌-◌, ◌*◌, ◌/◌, ◌^◌, ◌≤◌, ◌<◌, ◌≡◌, refl, ap, ◌∙◌, arith}
use tsubasa.Base.Power.{two-pow-suc, two-pow-add, two-pow-pos}
use tsubasa.Bitpacking.Column.Width.{IsLeadingZeros}

unfoldable pub digit_count : ℕ → ℕ → ℕ
digit_count zero x = 0
digit_count (suc k) zero = 0
digit_count (suc k) (suc x) = suc (digit_count k (suc x / 2))

unfoldable pub leading_zeros : ℕ → ℕ
leading_zeros x = 64 - digit_count 64 x

digit_count-zero : (k : ℕ) → digit_count k 0 ≡ 0
unfolding digit_count
digit_count-zero zero = refl
digit_count-zero (suc k) = refl

digit_count_bounds :
    (k x : ℕ)
    → 0 < x
    → x < 2 ^ k
    → (0 < digit_count k x)
      × (digit_count k x ≤ k)
      × (2 ^ digit_count k x ≤ 2 * x)
      × (x < 2 ^ digit_count k x)
unfolding digit_count
digit_count_bounds zero x pos h = absurd (omega arith)
digit_count_bounds (suc k) zero pos h = absurd (omega arith)
digit_count_bounds (suc k) (suc zero) pos h =
    rw (digit_count-zero k) (omega arith, omega arith, omega arith, omega arith)
digit_count_bounds (suc k) (suc (suc x)) pos h =
    let half : ℕ = suc (suc x) / 2 in
    let ih = digit_count_bounds k half (omega arith) (omega (arith, two-pow-suc k)) in
    (
      omega arith,
      omega (arith, ih),
      omega (arith, ih, two-pow-suc (digit_count k half)),
      omega (arith, ih, two-pow-suc (digit_count k half)),
    )

module _ (x : ℕ) (pos : 0 < x) (h : x < 2 ^ 64) where
  abbrev shift : ℕ
  shift = 64 - digit_count 64 x

  whole : 2 ^ 64 ≡ 2 ^ digit_count 64 x * 2 ^ shift
  whole =
      let e : 64 ≡ digit_count 64 x + shift = omega (arith, digit_count_bounds 64 x pos h) in
      ap (λ (t : ℕ). 2 ^ t) e ∙ two-pow-add (digit_count 64 x) shift

  leading_zeros_high : 2 ^ 63 ≤ x * 2 ^ leading_zeros x
  unfolding leading_zeros
  leading_zeros_high =
      let b = digit_count_bounds 64 x pos h in
      omega (arith, whole, mul-le-mul_right {m = 2 ^ digit_count 64 x} {n = 2 * x} (2 ^ shift) b.2)

  leading_zeros_low : x * 2 ^ leading_zeros x < 2 ^ 64
  unfolding leading_zeros
  leading_zeros_low =
      let b = digit_count_bounds 64 x pos h in
      omega (arith, whole, mul-lt-mul_of_pos_right {k = 2 ^ shift} b.3 (two-pow-pos shift))

leading_zeros_of_zero : leading_zeros 0 ≡ 64
unfolding leading_zeros digit_count
leading_zeros_of_zero = refl

pub leading_zeros-IsLeadingZeros : IsLeadingZeros leading_zeros
leading_zeros-IsLeadingZeros = record {
  of_zero = leading_zeros_of_zero;
  high = leading_zeros_high;
  low = leading_zeros_low;
}
