-- ===== src/BitWeaving/Repeat.antt =====
-- `create_predicate` repeats its argument in each field.
use native.Mathlib.Nat.{
  mul-suc, mul-zero, mul-div_cancel_left, mul-le-mul_left, mod-eq_of_lt, pow-zero,
}
use tsubasa.Base.{
  ℕ, zero, suc, ◌+◌, ◌-◌, ◌*◌, ◌/◌, ◌%◌, ◌^◌, ◌≤◌, ◌<◌, ◌≡◌, ◌∙◌, refl, sym, ap, arith, bit_or,
  bit_and, lt→ltb, le→leb, some,
}
use tsubasa.Base.Bits.{bit_or_field}
use tsubasa.Base.Loop.{for_range, for_range_inv}
use tsubasa.Base.Memory.{Memory}
use tsubasa.Base.Power.{two-pow-add, two-pow-suc, two-pow-pos, two-pow-le}
use tsubasa.Base.Xor.{bit_and_ones}
use tsubasa.BitWeaving.{Predicate, construct, create_predicate, shift_predicate, get_all_ones_mask}
use tsubasa.BitWeaving.Masks.{IsFitting, repeated, get_all_ones_mask_value}
use tsubasa.Bitpacking.Stream.{stream-zero, stream-suc, stream-lt, field-lt}

-- After field `i - 1`.
record Repeats (code_size v i : ℕ) (p : Predicate) : Type 0 where
  moved : (n : ℕ) → i ≡ suc n → p.pred ≡ v * 2 ^ (suc code_size * n)
  so_far : p.result ≡ repeated code_size i v

module _ {width code_size fields : ℕ} (fit : IsFitting width code_size fields) (v : ℕ)
    (fits : v < 2 ^ code_size) where
  -- A further field is inside the word.
  field_inside : (n : ℕ) → n < fields → v * 2 ^ (suc code_size * n) < 2 ^ width
  field_inside n h = omega (
    arith,
    field-lt 0 v code_size (suc code_size * n) (two-pow-pos (suc code_size * n)) fits,
    two-pow-le (suc code_size * n + code_size) width
        (omega (arith, fit.fills, mul-suc (suc code_size) n, mul-le-mul_left (suc code_size) h)),
  )

  shift_predicate-Repeats :
      (n : ℕ) (p : Predicate)
      → suc n < fields
      → Repeats code_size v (suc n) p
      → Repeats code_size v (suc (suc n)) (shift_predicate width code_size p)
  shift_predicate-Repeats n p h r = rw (lt→ltb (code_size + 1) width roomy) (record {
    moved = λ m e. next ∙ ap (λ (x : ℕ). v * 2 ^ (suc code_size * x)) (omega (arith, e));
    so_far =
        ap (bit_or p.result) next
        ∙ ap (λ (x : ℕ). bit_or x (v * 2 ^ (suc code_size * suc n))) r.so_far
        ∙ bit_or_field (suc code_size * suc n) (repeated code_size (suc n) v) v (
            stream-lt (suc code_size) (λ _. v) (suc n)
              (λ _ _. omega (arith, fits, two-pow-suc code_size)))
        ∙ sym (stream-suc (suc code_size) (λ _. v) (suc n));
  })
    where
      two_fields : 2 ≤ fields
      two_fields = omega arith

      roomy : code_size + 1 < width
      roomy = omega (arith, fit.fills, fit.some_bits, mul-le-mul_left (suc code_size) two_fields)

      split : 2 ^ (suc code_size * suc n) ≡ 2 ^ (suc code_size * n) * 2 ^ (code_size + 1)
      split =
          ap (λ (x : ℕ). 2 ^ x) (omega (arith, mul-suc (suc code_size) n))
          ∙ two-pow-add (suc code_size * n) (code_size + 1)

      next : p.pred * 2 ^ (code_size + 1) % 2 ^ width ≡ v * 2 ^ (suc code_size * suc n)
      next =
          ap (λ (x : ℕ). x * 2 ^ (code_size + 1) % 2 ^ width) (r.moved n refl)
          ∙ ap (λ (x : ℕ). x % 2 ^ width) (omega (arith, ap (λ (x : ℕ). v * x) split))
          ∙ mod-eq_of_lt (field_inside (suc n) h)

  module _ (words : Memory) (data_count : ℕ) where
    pub create_predicate-repeated :
        create_predicate width code_size (construct width code_size words data_count) v
        ≡ some (repeated code_size fields v)
    unfolding create_predicate
    create_predicate-repeated =
        rw (ones, masked, count, le→leb v (2 ^ code_size - 1) (omega (arith, fits)))
          (ap some (Repeats.so_far done))
      where
        ones : get_all_ones_mask width code_size (code_size - 1) ≡ 2 ^ code_size - 1
        ones =
            get_all_ones_mask_value width code_size (code_size - 1)
              (omega (arith, fit.fills, mul-le-mul_left (suc code_size) fit.some_fields))
            ∙ ap (λ (x : ℕ). 2 ^ x - 1) (omega (arith, fit.some_bits))

        masked : bit_and v (2 ^ code_size - 1) ≡ v
        masked = bit_and_ones code_size v fits

        count : width / (code_size + 1) ≡ fields
        count =
            ap (λ (x : ℕ). x / (code_size + 1)) (omega (arith, fit.fills))
            ∙ mul-div_cancel_left fields {n = code_size + 1} (omega arith)

        unary : {n : ℕ} → 1 ≡ suc n → n ≡ 0
        unary e = omega (arith, e)

        unit : v * 2 ^ (suc code_size * 0) ≡ v
        unit = rw (mul-zero, pow-zero) (omega arith)

        step :
            (k : ℕ) (p : Predicate)
            → 1 ≤ k
            → k < fields
            → Repeats code_size v k p
            → Repeats code_size v (k + 1) (shift_predicate width code_size p)
        step zero p lo hi r = absurd (omega arith)
        step (suc n) p lo hi r =
            let e : suc n + 1 ≡ suc (suc n) = omega arith in rw e (shift_predicate-Repeats n p hi r)

        start : Repeats code_size v 1 (record { pred = v; result = v })
        start = record {
          moved = λ n e. rw (unary e, mul-zero, pow-zero) (omega arith);
          so_far = omega (
            arith,
            stream-suc (suc code_size) (λ _. v) 0,
            stream-zero (suc code_size) (λ _. v),
            unit,
          );
        }

        done : Repeats code_size v fields (
            for_range
              (fields - 1)
              1
              (λ i p. shift_predicate width code_size p)
              (record { pred = v; result = v }))
        done =
            for_range_inv (Repeats code_size v) (λ i p. shift_predicate width code_size p)
              (fields - 1) 1 fields (omega (arith, fit.some_fields)) step
              (record { pred = v; result = v }) start
