-- ===== src/BitWeaving/Masks.antt =====
-- What the constructor and `create_predicate` compute, as fields side by side: every mask is one
-- value repeated in each field.
use native.Mathlib.Nat.{mul-suc, mul-zero, mul_comm, mod-eq_of_lt}
use tsubasa.Base.{
  ℕ, zero, suc, ◌+◌, ◌-◌, ◌*◌, ◌^◌, ◌≤◌, ◌<◌, ◌≡◌, ◌∙◌, refl, ap, arith, bit_or, lt→ltb, le→ltb,
}
use tsubasa.Base.Bits.{bit_or_field, bit_or_comm}
use tsubasa.Base.Power.{two-pow-add, two-pow-suc, two-pow-pos, two-pow-le}
use tsubasa.BitWeaving.{
  mask_from, get_inverted_delimeter_mask, get_first_bit_mask, get_all_ones_mask,
}
use tsubasa.BitWeaving.Fields.{stream-scale, stream-low, stream-complement}
use tsubasa.Bitpacking.Stream.{stream, stream_congr, stream-zero}

-- The static assertions: `fields` codes with their delimiter bits fill a word.
pub record IsFitting (width code_size fields : ℕ) : Type 0 where
  pub some_bits : 0 < code_size
  pub some_fields : 0 < fields
  pub fills : suc code_size * fields ≡ width

-- One value in each field.
abbrev pub repeated : ℕ → ℕ → ℕ → ℕ
repeated code_size fields v = stream (suc code_size) (λ _. v) fields

module _ (width code_size : ℕ) where
  mask_from-ones :
      (fuel n r : ℕ)
      → r ≤ fuel
      → width ≤ n + suc code_size * r
      → ((q : ℕ) → r ≡ suc q → n + suc code_size * q < width)
      → mask_from width code_size fuel n ≡ 2 ^ n * repeated code_size r 1
  unfolding mask_from
  mask_from-ones zero n zero p q h = rw stream-zero (omega arith)
  mask_from-ones zero n (suc r) p q h = absurd (omega arith)
  mask_from-ones (suc fuel) n zero p q h =
      rw (le→ltb n width (omega (arith, mul-zero (suc code_size))), stream-zero) (omega arith)
  mask_from-ones (suc fuel) n (suc r) p q h =
      rw
        (
          lt→ltb n width (omega (arith, h r refl)),
          mask_from-ones fuel (n + code_size + 1) r (omega arith)
              (omega (arith, mul-suc (suc code_size) r))
              (λ t e.
                omega (
                  arith,
                  h r refl,
                  ap (λ (x : ℕ). suc code_size * x) e,
                  mul-suc (suc code_size) t,
                )),
          mul_comm (2 ^ (n + code_size + 1)) (repeated code_size r 1),
          bit_or_field (n + code_size + 1) (2 ^ n) (repeated code_size r 1) (
              omega (
                arith,
                two-pow-le (suc n) (n + code_size + 1) (omega arith),
                two-pow-suc n,
                two-pow-pos n,
              )),
          stream-low (suc code_size) (λ _. 1) r,
        )
        (omega (arith, ap (λ (x : ℕ). repeated code_size r 1 * x) split))
    where
      split : 2 ^ (n + code_size + 1) ≡ 2 ^ n * 2 ^ suc code_size
      split = ap (λ (x : ℕ). 2 ^ x) (omega arith) ∙ two-pow-add n (suc code_size)

  pub get_all_ones_mask_value :
      (n : ℕ) → n < width → get_all_ones_mask width code_size n ≡ 2 ^ suc n - 1
  unfolding get_all_ones_mask
  get_all_ones_mask_value zero h = refl
  get_all_ones_mask_value (suc n) h =
      rw (get_all_ones_mask_value n (omega arith), mod-eq_of_lt fits)
        (bit_or_comm (2 ^ suc n) (2 ^ suc n) (2 ^ suc n - 1) (omega arith) (omega arith)
          ∙ ap (bit_or (2 ^ suc n - 1)) (omega arith)
          ∙ bit_or_field (suc n) (2 ^ suc n - 1) 1 (omega (arith, two-pow-pos (suc n)))
          ∙ omega (arith, two-pow-suc (suc n), two-pow-pos (suc n)))
    where
      fits : 2 ^ suc n < 2 ^ width
      fits =
          omega (arith, two-pow-le (suc (suc n)) width h, two-pow-suc (suc n), two-pow-pos (suc n))

module _ {width code_size fields : ℕ} (fit : IsFitting width code_size fields) where
  -- A mask whose lowest bit is bit `n` of a field.
  mask_from-repeated :
      (n : ℕ)
      → n ≤ code_size
      → mask_from width code_size width n ≡ repeated code_size fields (2 ^ n)
  mask_from-repeated n h =
      mask_from-ones width code_size width n fields
        (omega (arith, fit.fills, mul_comm code_size fields)) (omega (arith, fit.fills))
        (λ q e.
          omega
            (arith, fit.fills, h, ap (λ (x : ℕ). suc code_size * x) e, mul-suc (suc code_size) q))
      ∙ stream-scale (suc code_size) (2 ^ n) (λ _. 1) fields
      ∙ stream_congr (suc code_size) (λ _. 2 ^ n * 1) (λ _. 2 ^ n) fields (λ _ p. omega arith)

  pub get_inverted_delimeter_mask-repeated :
      get_inverted_delimeter_mask width code_size ≡ repeated code_size fields (2 ^ code_size - 1)
  get_inverted_delimeter_mask-repeated =
      rw (mask_from-repeated code_size (omega arith), ← fit.fills)
        (stream-complement (suc code_size) (λ _. 2 ^ code_size) fields
            (λ i h. omega (arith, two-pow-suc code_size, two-pow-pos code_size))
          ∙ stream_congr (suc code_size) (λ _. 2 ^ suc code_size - 1 - 2 ^ code_size)
              (λ _. 2 ^ code_size - 1) fields (λ i h. omega (arith, two-pow-suc code_size)))

  pub get_first_bit_mask-repeated : get_first_bit_mask width code_size ≡ repeated code_size fields 1
  get_first_bit_mask-repeated = mask_from-repeated 0 (omega arith)
