-- ===== src/BitWeaving/Compare.antt =====
-- The six comparisons: the delimiter bit of each field is the outcome for its code.
use native.Mathlib.Nat.{mod-eq_of_lt}
use tsubasa.Base.{
  ℕ, suc, ◌+◌, ◌-◌, ◌%◌, ◌^◌, ◌<◌, ◌≡◌, ◌∙◌, sym, ap, arith, bit_xor, ltb, leb, ◌==◌, not, Bool,
  eq_or_ne, inl, inr, ◌≢◌,
}
use tsubasa.Base.Power.{two-pow-suc, two-pow-pos}
use tsubasa.Base.Xor.{bit_xor_fits, bit_xor_ones, bit_xor_same, bit_xor_zero}
use tsubasa.BitWeaving.{complement, get_inverted_delimeter_mask, get_first_bit_mask}
use tsubasa.BitWeaving.Fields.{stream-add, stream-bit_xor, stream-complement}
use tsubasa.BitWeaving.Masks.{
  IsFitting, repeated, get_inverted_delimeter_mask-repeated, get_first_bit_mask-repeated,
}
use tsubasa.Bitpacking.Stream.{stream, stream_congr, stream-lt, decode, decode-stream}

-- The delimiter bit of field `i`: a field has a delimiter bit above its code.
pub delimiter : ℕ → ℕ → ℕ → Bool
delimiter code_size i word = leb (2 ^ code_size) (decode (suc code_size) i word)

module _ {width code_size fields : ℕ} (fit : IsFitting width code_size fields) where
  -- A sum of fields that carries nothing over.
  pub packed_sum :
      (f : ℕ → ℕ)
      → ((i : ℕ) → i < fields → f i < 2 ^ suc code_size)
      → stream (suc code_size) f fields < 2 ^ width
  packed_sum f p = rw (← fit.fills) (stream-lt (suc code_size) f fields p)

  -- The delimiter bit where the word is known field by field.
  pub delimiter-stream :
      (f : ℕ → ℕ) (i : ℕ)
      → ((i : ℕ) → i < fields → f i < 2 ^ suc code_size)
      → i < fields
      → delimiter code_size i (stream (suc code_size) f fields) ≡ leb (2 ^ code_size) (f i)
  unfolding delimiter
  delimiter-stream f i p h = ap (leb (2 ^ code_size)) (decode-stream (suc code_size) f fields i p h)

  -- The outcome for field `i` of a word that is a sum of fields.
  delimiter-sum :
      (x : ℕ) (f : ℕ → ℕ) (i : ℕ) (test : Bool)
      → x ≡ stream (suc code_size) f fields
      → ((i : ℕ) → i < fields → f i < 2 ^ suc code_size)
      → i < fields
      → leb (2 ^ code_size) (f i) ≡ test
      → delimiter code_size i (x % 2 ^ width) ≡ test
  delimiter-sum x f i test e p h t =
      ap (λ (y : ℕ). delimiter code_size i (y % 2 ^ width)) e
      ∙ ap (delimiter code_size i) (mod-eq_of_lt (packed_sum f p))
      ∙ delimiter-stream f i p h
      ∙ t

  wider : (x : ℕ) → x < 2 ^ code_size → x < 2 ^ suc code_size
  wider x h = omega (arith, h, two-pow-suc code_size)

  ones_fit : 2 ^ code_size - 1 < 2 ^ suc code_size
  ones_fit = omega (arith, two-pow-suc code_size, two-pow-pos code_size)

  -- `( b ^ code_bits_mask ) + a` adds the complement of each code of `b`.
  difference_fields :
      (a b : ℕ → ℕ)
      → ((i : ℕ) → i < fields → b i < 2 ^ code_size)
      → stream (suc code_size) a fields
          + bit_xor (stream (suc code_size) b fields) (get_inverted_delimeter_mask width code_size)
        ≡ stream (suc code_size) (λ i. a i + (2 ^ code_size - 1 - b i)) fields
  difference_fields a b p =
      ap (λ (t : ℕ). stream (suc code_size) a fields + bit_xor (stream (suc code_size) b fields) t)
        (get_inverted_delimeter_mask-repeated fit)
      ∙ ap (λ (t : ℕ). stream (suc code_size) a fields + t)
          (stream-bit_xor (suc code_size) b (λ _. 2 ^ code_size - 1) fields
            (λ i h. wider (b i) (p i h)) (λ _ _. ones_fit))
      ∙ stream-add (suc code_size) a (λ i. bit_xor (b i) (2 ^ code_size - 1)) fields
      ∙ stream_congr (suc code_size) (λ i. a i + bit_xor (b i) (2 ^ code_size - 1))
          (λ i. a i + (2 ^ code_size - 1 - b i)) fields
          (λ i h. omega (arith, bit_xor_ones code_size (b i) (p i h)))

  -- All ones and the difference of two codes carry into the delimiter bit unless they are equal.
  differ_test : (a b : ℕ) → leb (2 ^ code_size) (bit_xor a b + (2 ^ code_size - 1)) ≡ not (a == b)
  differ_test a b = elim (eq_or_ne (bit_xor a b) 0) [
    | inl e ↦
        let same : a ≡ b = bit_xor_zero a a b (omega arith) e in
        ground (arith, e, same, two-pow-pos code_size)
    | inr ne ↦
        let other : a ≢ b =
          λ same. ne (ap (bit_xor a) (sym same) ∙ bit_xor_same a a (omega arith)) in
        ground (arith, ne, other)
  ]

  same_test :
      (a b : ℕ)
      → leb (2 ^ code_size) (2 ^ suc code_size - 1 - (bit_xor a b + (2 ^ code_size - 1))) ≡ (a == b)
  same_test a b = elim (eq_or_ne (bit_xor a b) 0) [
    | inl e ↦
        let same : a ≡ b = bit_xor_zero a a b (omega arith) e in
        ground (arith, e, same, two-pow-suc code_size, two-pow-pos code_size)
    | inr ne ↦
        let other : a ≢ b =
          λ same. ne (ap (bit_xor a) (sym same) ∙ bit_xor_same a a (omega arith)) in
        ground (arith, ne, other, two-pow-suc code_size, two-pow-pos code_size)
  ]

  module _ (a b : ℕ → ℕ) (p : (i : ℕ) → i < fields → a i < 2 ^ code_size)
      (q : (i : ℕ) → i < fields → b i < 2 ^ code_size) where
    -- The sum alone says which code is the greater, and with one more which is not the less.
    pub delimiter-difference :
        (i : ℕ)
        → i < fields
        → (delimiter code_size i (
              (stream (suc code_size) a fields
                + bit_xor
                    (stream (suc code_size) b fields)
                    (get_inverted_delimeter_mask width code_size))
              % 2 ^ width)
            ≡ ltb (b i) (a i))
          × (delimiter code_size i (
                ((stream (suc code_size) a fields
                      + bit_xor
                          (stream (suc code_size) b fields)
                          (get_inverted_delimeter_mask width code_size))
                    % 2 ^ width
                  + get_first_bit_mask width code_size)
                % 2 ^ width)
              ≡ leb (b i) (a i))
    delimiter-difference i h = (
      delimiter-sum _ (λ i. a i + (2 ^ code_size - 1 - b i)) i (ltb (b i) (a i))
          (difference_fields a b q) small h (ground (arith, p i h, q i h)),
      delimiter-sum _ (λ i. a i + (2 ^ code_size - 1 - b i) + 1) i (leb (b i) (a i))
          (ap (λ (t : ℕ). t % 2 ^ width + get_first_bit_mask width code_size)
              (difference_fields a b q)
            ∙ ap (λ (t : ℕ). t + get_first_bit_mask width code_size)
                (mod-eq_of_lt (packed_sum _ small))
            ∙ ap
                (λ (t : ℕ).
                  stream (suc code_size) (λ i. a i + (2 ^ code_size - 1 - b i)) fields + t)
                (get_first_bit_mask-repeated fit)
            ∙ stream-add (suc code_size) (λ i. a i + (2 ^ code_size - 1 - b i)) (λ _. 1) fields)
          (λ i h. omega (arith, two-pow-suc code_size, p i h, q i h)) h
          (ground (arith, p i h, q i h)),
    )
      where
        small : (i : ℕ) → i < fields → a i + (2 ^ code_size - 1 - b i) < 2 ^ suc code_size
        small i h = omega (arith, two-pow-suc code_size, p i h)

    -- `( a ^ b ) + code_bits_mask` says which codes differ.
    pub delimiter-differ :
        (i : ℕ)
        → i < fields
        → (delimiter code_size i (
              (bit_xor (stream (suc code_size) a fields) (stream (suc code_size) b fields)
                + get_inverted_delimeter_mask width code_size)
              % 2 ^ width)
            ≡ not (a i == b i))
          × (delimiter code_size i (
                complement width code_size (
                  (bit_xor (stream (suc code_size) a fields) (stream (suc code_size) b fields)
                    + get_inverted_delimeter_mask width code_size)
                  % 2 ^ width))
              ≡ (a i == b i))
    delimiter-differ i h = (
      delimiter-sum _ differences i (not (a i == b i)) fields_of small h (differ_test (a i) (b i)),
      ap (λ (t : ℕ). delimiter code_size i (complement width code_size (t % 2 ^ width))) fields_of
          ∙ ap (λ (t : ℕ). delimiter code_size i (complement width code_size t))
              (mod-eq_of_lt (packed_sum differences small))
          ∙ ap
              (λ (t : ℕ).
                delimiter code_size i (2 ^ t - 1 - stream (suc code_size) differences fields))
              (sym fit.fills)
          ∙ ap (delimiter code_size i) (stream-complement (suc code_size) differences fields small)
          ∙ delimiter-stream (λ i. 2 ^ suc code_size - 1 - differences i) i
              (λ _ _. omega (arith, two-pow-pos (suc code_size))) h
          ∙ same_test (a i) (b i),
    )
      where
        differences : ℕ → ℕ
        differences i = bit_xor (a i) (b i) + (2 ^ code_size - 1)

        small : (i : ℕ) → i < fields → differences i < 2 ^ suc code_size
        small i h =
            omega (arith, two-pow-suc code_size, bit_xor_fits code_size (a i) (b i) (p i h) (q i h))

        fields_of :
            bit_xor (stream (suc code_size) a fields) (stream (suc code_size) b fields)
              + get_inverted_delimeter_mask width code_size
            ≡ stream (suc code_size) differences fields
        fields_of =
            ap
              (λ (t : ℕ).
                bit_xor (stream (suc code_size) a fields) (stream (suc code_size) b fields) + t)
              (get_inverted_delimeter_mask-repeated fit)
            ∙ ap (λ (t : ℕ). t + repeated code_size fields (2 ^ code_size - 1))
                (stream-bit_xor (suc code_size) a b fields (λ i h. wider (a i) (p i h))
                  (λ i h. wider (b i) (q i h)))
            ∙ stream-add (suc code_size) (λ i. bit_xor (a i) (b i)) (λ _. 2 ^ code_size - 1) fields
