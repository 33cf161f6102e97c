-- ===== src/Base/Xor.antt =====
-- `^` at variables: the lowest digit, fields, and the difference that it shows.
use Prim.Native.Nat.{differ, bit_xor-bitwise, min, bit_and-bitwise}
use native.Mathlib.Nat.{pow-zero, mul-one, zero-add}
use tsubasa.Base.{
  ℕ, zero, suc, ◌+◌, ◌-◌, ◌*◌, ◌/◌, ◌%◌, ◌^◌, ◌≤◌, ◌<◌, ◌≡◌, ◌∙◌, refl, ap, arith, bit_xor, bit_and,
}
use tsubasa.Base.Bits.{bitwise_low, zero-bit_xor}
use tsubasa.Base.Power.{two-pow-suc, two-pow-pos}

-- One binary digit at a time.
pub bit_xor_low : (a b : ℕ) → bit_xor a b ≡ bit_xor (a / 2) (b / 2) * 2 + differ (a % 2) (b % 2)
bit_xor_low zero b = simp bit_xor-bitwise (omega arith)
bit_xor_low (suc a) b = simp bit_xor-bitwise (bitwise_low (λ y. y) differ a b)

differ_bits : (a b : ℕ) → a < 2 → b < 2 → (differ a b + 2 * min a b ≡ a + b)
differ_bits zero zero p q = refl
differ_bits zero (suc zero) p q = refl
differ_bits zero (suc (suc b)) p q = absurd (omega arith)
differ_bits (suc zero) zero p q = refl
differ_bits (suc zero) (suc zero) p q = refl
differ_bits (suc zero) (suc (suc b)) p q = absurd (omega arith)
differ_bits (suc (suc a)) b p q = absurd (omega arith)

-- The digits of `^` and the sum of its operands.
bit_xor_digit : (a b : ℕ) → differ (a % 2) (b % 2) + 2 * min (a % 2) (b % 2) ≡ a % 2 + b % 2
bit_xor_digit a b = differ_bits (a % 2) (b % 2) (omega arith) (omega arith)

-- A number above `suc k` digits, halved.
double : (k v : ℕ) → v * 2 ^ suc k ≡ 2 * (v * 2 ^ k)
double k v = omega (arith, ap (λ (t : ℕ). v * t) (two-pow-suc k))

half_field : (k a v : ℕ) → (a + v * 2 ^ suc k) / 2 ≡ a / 2 + v * 2 ^ k
half_field k a v = omega (arith, double k v)

low_field : (k a v : ℕ) → (a + v * 2 ^ suc k) % 2 ≡ a % 2
low_field k a v = omega (arith, double k v)

-- `^` works on fields side by side.
pub bit_xor_fields :
    (k a b v w : ℕ)
    → a < 2 ^ k
    → b < 2 ^ k
    → bit_xor (a + v * 2 ^ k) (b + w * 2 ^ k) ≡ bit_xor a b + bit_xor v w * 2 ^ k
bit_xor_fields zero a b v w p q =
    let e : a ≡ 0 = omega arith in
    let e' : b ≡ 0 = omega arith in
    rw (e, e', pow-zero, mul-one, mul-one, mul-one, zero-add, zero-add, zero-bit_xor, zero-add) refl
bit_xor_fields (suc k) a b v w p q =
    rw
      (
        bit_xor_low (a + v * 2 ^ suc k) (b + w * 2 ^ suc k),
        bit_xor_low a b,
        half_field k a v,
        half_field k b w,
        low_field k a v,
        low_field k b w,
        bit_xor_fields k (a / 2) (b / 2) v w (omega (arith, two-pow-suc k))
            (omega (arith, two-pow-suc k)),
      )
      (omega (arith, double k (bit_xor v w)))

pub bit_xor_fits : (k a b : ℕ) → a < 2 ^ k → b < 2 ^ k → bit_xor a b < 2 ^ k
bit_xor_fits zero a b p q =
    let low : bit_xor a b ≡ 0 =
      ap (λ (t : ℕ). bit_xor t b) (omega arith) ∙ zero-bit_xor b ∙ omega arith in
    omega (arith, low)
bit_xor_fits (suc k) a b p q = omega (
  arith,
  bit_xor_low a b,
  bit_xor_digit a b,
  two-pow-suc k,
  bit_xor_fits k (a / 2) (b / 2) (omega (arith, two-pow-suc k)) (omega (arith, two-pow-suc k)),
)

-- With all ones it is the complement.
pub bit_xor_ones : (k x : ℕ) → x < 2 ^ k → bit_xor x (2 ^ k - 1) ≡ 2 ^ k - 1 - x
bit_xor_ones zero x p = let e : x ≡ 0 = omega arith in rw (e, zero-bit_xor) refl
bit_xor_ones (suc k) x p = omega (
  arith,
  bit_xor_low x (2 ^ suc k - 1),
  bit_xor_digit x (2 ^ suc k - 1),
  halved,
  bit_xor_ones k (x / 2) (omega (arith, two-pow-suc k)),
  two-pow-suc k,
  two-pow-pos k,
)
  where
    halved : bit_xor (x / 2) ((2 ^ suc k - 1) / 2) ≡ bit_xor (x / 2) (2 ^ k - 1)
    halved = ap (bit_xor (x / 2)) (omega (arith, two-pow-suc k, two-pow-pos k))

pub bit_xor_same : (n a : ℕ) → a ≤ n → bit_xor a a ≡ 0
bit_xor_same n zero h = zero-bit_xor 0
bit_xor_same zero (suc a) h = absurd (omega arith)
bit_xor_same (suc n) (suc a) h = omega (
  arith,
  bit_xor_low (suc a) (suc a),
  bit_xor_digit (suc a) (suc a),
  bit_xor_same n (suc a / 2) (omega arith),
)

pub bit_xor_zero : (n a b : ℕ) → a ≤ n → bit_xor a b ≡ 0 → a ≡ b
bit_xor_zero n zero b h e = omega (arith, zero-bit_xor b)
bit_xor_zero zero (suc a) b h e = absurd (omega arith)
bit_xor_zero (suc n) (suc a) b h e = omega (
  arith,
  bit_xor_low (suc a) b,
  bit_xor_digit (suc a) b,
  bit_xor_zero n (suc a / 2) (b / 2) (omega arith) (omega (arith, bit_xor_low (suc a) b)),
)

-- `&` with all ones keeps a number that fits.
pub bit_and_low : (a b : ℕ) → bit_and a b ≡ bit_and (a / 2) (b / 2) * 2 + min (a % 2) (b % 2)
bit_and_low zero b = simp bit_and-bitwise (omega arith)
bit_and_low (suc a) b = simp bit_and-bitwise (bitwise_low (λ y. 0) min a b)

pub bit_and_ones : (k x : ℕ) → x < 2 ^ k → bit_and x (2 ^ k - 1) ≡ x
bit_and_ones zero x p = let e : x ≡ 0 = omega arith in rw e (simp bit_and-bitwise refl)
bit_and_ones (suc k) x p = omega (
  arith,
  bit_and_low x (2 ^ suc k - 1),
  halved,
  bit_and_ones k (x / 2) (omega (arith, two-pow-suc k)),
  two-pow-suc k,
  two-pow-pos k,
)
  where
    halved : bit_and (x / 2) ((2 ^ suc k - 1) / 2) ≡ bit_and (x / 2) (2 ^ k - 1)
    halved = ap (bit_and (x / 2)) (omega (arith, two-pow-suc k, two-pow-pos k))
