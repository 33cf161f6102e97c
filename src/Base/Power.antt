-- ===== src/Base/Power.antt =====
-- Powers of two: sums of exponents, and the fields of a number.
use native.Mathlib.Nat.{pow-suc, pow-zero, mul-one, one-le-pow, add-zero, pow-le-pow_right}
use tsubasa.Base.{ℕ, zero, suc, ◌+◌, ◌*◌, ◌^◌, ◌≤◌, ◌<◌, ◌≡◌, inl, inr, lt_or_le, arith}

pub two-pow-pos : (n : ℕ) → 0 < 2 ^ n
two-pow-pos n = one-le-pow n 2 (omega arith)

pub two-pow-suc : (n : ℕ) → 2 ^ suc n ≡ 2 * 2 ^ n
two-pow-suc n = omega (arith, pow-suc 2 n)

pub two-pow-add : (a b : ℕ) → 2 ^ (a + b) ≡ 2 ^ a * 2 ^ b
two-pow-add a zero = rw (add-zero, pow-zero, mul-one)
two-pow-add a (suc b) =
    let e : a + suc b ≡ suc (a + b) = omega arith in
    rw (e, two-pow-suc (a + b), two-pow-add a b, two-pow-suc b) (omega arith)

pub two-pow-le : (a b : ℕ) → a ≤ b → 2 ^ a ≤ 2 ^ b
two-pow-le a b h = pow-le-pow_right (omega arith) h

pub lt_of_two-pow-lt : (a b : ℕ) → 2 ^ a < 2 ^ b → a < b
lt_of_two-pow-lt a b h = elim (lt_or_le a b) [
  | inl lt ↦ lt
  | inr ge ↦ absurd (omega (arith, two-pow-le b a ge))
]
