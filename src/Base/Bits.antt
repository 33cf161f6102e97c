-- ===== src/Base/Bits.antt =====
-- `|` and `^` at variables: the law of the lowest digit, and what follows for disjoint fields.
use Prim.Native.Nat.{max, digits, bitwise, bit_or-bitwise, bit_xor-bitwise}
use native.Mathlib.Nat.{le_refl}
use tsubasa.Base.{
  ℕ, zero, suc, ◌+◌, ◌*◌, ◌/◌, ◌%◌, ◌^◌, ◌≤◌, ◌<◌, ◌≡◌, refl, ap, ◌∙◌, arith, bit_or, bit_xor,
}
use tsubasa.Base.Power.{two-pow-suc}

module _ (z : ℕ → ℕ) (f : ℕ → ℕ → ℕ) where
  -- The count of digits to go only has to be large enough.
  digits_count : (n m a b : ℕ) → a ≤ n → a ≤ m → digits z f n a b ≡ digits z f m a b
  digits_count zero zero a b p q = refl
  digits_count zero (suc m) zero b p q = refl
  digits_count zero (suc m) (suc a) b p q = absurd (omega arith)
  digits_count (suc n) zero zero b p q = refl
  digits_count (suc n) zero (suc a) b p q = absurd (omega arith)
  digits_count (suc n) (suc m) zero b p q = refl
  digits_count (suc n) (suc m) (suc a) b p q =
      rw (digits_count n m (suc a / 2) (b / 2) (omega arith) (omega arith))

  pub bitwise_low :
      (a b : ℕ)
      → bitwise z f (suc a) b ≡ bitwise z f (suc a / 2) (b / 2) * 2 + f (suc a % 2) (b % 2)
  bitwise_low a b =
      omega (arith, digits_count a (suc a / 2) (suc a / 2) (b / 2) (omega arith) (le_refl _))

pub zero-bit_or : (b : ℕ) → bit_or 0 b ≡ b
zero-bit_or b = bit_or-bitwise 0 b

-- One binary digit of `|` at a time.
pub bit_or_low : (a b : ℕ) → bit_or a b ≡ bit_or (a / 2) (b / 2) * 2 + max (a % 2) (b % 2)
bit_or_low zero b = simp bit_or-bitwise (omega arith)
bit_or_low (suc a) b = simp bit_or-bitwise (bitwise_low (λ y. y) max a b)

-- `acc | (v << k)` is a sum when `acc` has at most `k` digits.
pub bit_or_field : (k acc v : ℕ) → acc < 2 ^ k → bit_or acc (v * 2 ^ k) ≡ acc + v * 2 ^ k
bit_or_field zero acc v fits = let e : acc ≡ 0 = omega arith in rw e (rw zero-bit_or (omega arith))
bit_or_field (suc k) acc v fits = omega (
  arith,
  bit_or_low acc (v * 2 ^ suc k),
  double,
  halved,
  bit_or_field k (acc / 2) v (omega (arith, two-pow-suc k)),
)
  where
    double : v * 2 ^ suc k ≡ 2 * (v * 2 ^ k)
    double = omega (arith, ap (λ (t : ℕ). v * t) (two-pow-suc k))

    halved : bit_or (acc / 2) (v * 2 ^ suc k / 2) ≡ bit_or (acc / 2) (v * 2 ^ k)
    halved = ap (bit_or (acc / 2)) (omega (arith, double))

-- `|` of two numbers is at least each of them.
pub bit_or_grows : (n a b : ℕ) → a ≤ n → (a ≤ bit_or a b) × (b ≤ bit_or a b)
bit_or_grows n zero b h = rw zero-bit_or (omega arith)
bit_or_grows zero (suc a) b h = absurd (omega arith)
bit_or_grows (suc n) (suc a) b h =
    omega (arith, bit_or_low (suc a) b, bit_or_grows n (suc a / 2) (b / 2) (omega arith))

-- `|` has no more digits than its operands.
pub bit_or_fits : (k a b : ℕ) → a < 2 ^ k → b < 2 ^ k → bit_or a b < 2 ^ k
bit_or_fits zero a b p q =
    let low : bit_or a b ≡ 0 =
      ap (λ (t : ℕ). bit_or t b) (omega arith) ∙ zero-bit_or b ∙ omega arith in
    omega (arith, low)
bit_or_fits (suc k) a b p q = omega (
  arith,
  bit_or_low a b,
  two-pow-suc k,
  bit_or_fits k (a / 2) (b / 2) (omega (arith, two-pow-suc k)) (omega (arith, two-pow-suc k)),
)

pub zero-bit_xor : (b : ℕ) → bit_xor 0 b ≡ b
zero-bit_xor b = bit_xor-bitwise 0 b

pub bit_or_comm : (n a b : ℕ) → a ≤ n → b ≤ n → bit_or a b ≡ bit_or b a
bit_or_comm zero a b p q = let e : a ≡ b = omega arith in rw e refl
bit_or_comm (suc n) zero zero p q = refl
bit_or_comm (suc n) zero (suc b) p q = omega (
  arith,
  bit_or_low 0 (suc b),
  bit_or_low (suc b) 0,
  bit_or_comm n 0 (suc b / 2) (omega arith) (omega arith),
)
bit_or_comm (suc n) (suc a) b p q = omega (
  arith,
  bit_or_low (suc a) b,
  bit_or_low b (suc a),
  bit_or_comm n (suc a / 2) (b / 2) (omega arith) (omega arith),
)
