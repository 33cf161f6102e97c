-- ===== src/Bitpacking/Column/Width.antt =====
-- The bit width that step 1 of the constructor computes is that of the largest value of a chunk.
use native.Mathlib.Nat.{mul-le-mul_right, mul-lt-mul_of_pos_right, lt_of_mul-lt-mul_right}
use tsubasa.Base.{
  ℕ, zero, suc, ◌+◌, ◌*◌, ◌%◌, ◌^◌, ◌≤◌, ◌<◌, ◌≡◌, ap, ◌∙◌, ◌-◌, ◌⊎◌, inl, inr, arith,
}
use tsubasa.Base.Power.{two-pow-le, two-pow-add, two-pow-pos, lt_of_two-pow-lt}
use tsubasa.Base.Memory.{Memory}
use tsubasa.Bitpacking.Column.{or_chunk, bitwidth, clz}

-- What the instruction set's manual says of `ldz`: the count of zero bits above the highest one
-- bit of a 64-bit word.
pub record IsLeadingZeros (ldz : ℕ → ℕ) : Type 0 where
  pub of_zero : ldz 0 ≡ 64
  pub high : (x : ℕ) → 0 < x → x < 2 ^ 64 → 2 ^ 63 ≤ x * 2 ^ ldz x
  pub low : (x : ℕ) → 0 < x → x < 2 ^ 64 → x * 2 ^ ldz x < 2 ^ 64

-- The least count of bits that hold `x`.
pub record IsWidth (x w : ℕ) : Type 0 where
  pub holds : x < 2 ^ w
  pub least : (b : ℕ) → x < 2 ^ b → w ≤ b

narrow :
    (l : ℕ)
    → l ≤ 64
    → 64 - l ≤ 4 * 8
    → (4 * 8 + 2 ^ 64 - (l + 2 ^ 32 - 32) % 2 ^ 32) % 2 ^ 64 % 2 ^ (4 * 8) ≡ 64 - l
narrow l small room = omega arith

wide : (l : ℕ) → l ≤ 64 → (8 * 8 + 2 ^ 64 - l) % 2 ^ 64 % 2 ^ (8 * 8) ≡ 64 - l
wide l small = omega arith

module _ {ldz : ℕ → ℕ} (counts : IsLeadingZeros ldz) where
  ldz-lt : (x : ℕ) → 0 < x → x < 2 ^ 64 → ldz x < 64
  ldz-lt x pos h =
      lt_of_two-pow-lt (ldz x) 64
        (omega (arith, counts.low x pos h, mul-le-mul_right {m = 1} {n = x} (2 ^ ldz x) pos))

  ldz-IsWidth : (x : ℕ) → x < 2 ^ 64 → (ldz x ≤ 64) × IsWidth x (64 - ldz x)
  ldz-IsWidth zero h =
      rw counts.of_zero (omega arith, record { holds = omega arith; least = λ b q. omega arith })
  ldz-IsWidth (suc x) h =
      let l = ldz (suc x) in
      let top = ldz-lt (suc x) (omega arith) h in
      let top' : 64 ≡ 64 - l + l = omega arith in
      let sum : 2 ^ 64 ≡ 2 ^ (64 - l) * 2 ^ l =
        ap (λ (t : ℕ). 2 ^ t) top' ∙ two-pow-add (64 - l) l in
      (
        omega arith,
        record {
          holds =
              lt_of_mul-lt-mul_right (2 ^ l)
                (omega (arith, counts.low (suc x) (omega arith) h, sum));
          least = λ b q. omega (
            arith,
            lt_of_two-pow-lt 63 (b + l) (
                omega (
                  arith,
                  counts.high (suc x) (omega arith) h,
                  two-pow-add b l,
                  mul-lt-mul_of_pos_right {k = 2 ^ l} q (two-pow-pos l),
                )),
          );
        },
      )

  bitwidth_value :
      (bytes lanes : ℕ) (input : Memory) (base : ℕ)
      → (bytes ≡ 4) ⊎ (bytes ≡ 8)
      → ldz (or_chunk bytes lanes ldz input base) ≤ 64
      → 64 - ldz (or_chunk bytes lanes ldz input base) ≤ bytes * 8
      → bitwidth bytes lanes ldz input base ≡ 64 - ldz (or_chunk bytes lanes ldz input base)
  unfolding bitwidth clz
  bitwidth_value bytes lanes input base (inl e) small room =
      rw e (narrow _ (rw e at small) (rw e at room))
  bitwidth_value bytes lanes input base (inr e) small room = rw e (wide _ (rw e at small))

  -- The subtractions of `clz` and of step 1 do not wrap on words that fit.
  pub ldz-bitwidth :
      (bytes lanes : ℕ) (input : Memory) (base : ℕ)
      → (bytes ≡ 4) ⊎ (bytes ≡ 8)
      → or_chunk bytes lanes ldz input base < 2 ^ (bytes * 8)
      → IsWidth (or_chunk bytes lanes ldz input base) (bitwidth bytes lanes ldz input base)
  ldz-bitwidth bytes lanes input base known h =
      let x = or_chunk bytes lanes ldz input base in
      let wide : x < 2 ^ 64 = omega (arith, two-pow-le (bytes * 8) 64 (omega arith)) in
      let (small, width) = ldz-IsWidth x wide in
      let room : 64 - ldz x ≤ bytes * 8 = width.least (bytes * 8) h in
      rw (bitwidth_value bytes lanes input base known small room) width
