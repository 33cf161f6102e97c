-- ===== src/Bitpacking/Column/Layout.antt =====
-- What the constructor computes: widths, sizes and the places of the packed chunks.
use native.Mathlib.Numerals.{add-one}
use tsubasa.Base.{
  ℕ, zero, suc, ◌+◌, ◌-◌, ◌*◌, ◌/◌, ◌≤◌, ◌<◌, ◌≡◌, ◌∙◌, ap, sym, inl, inr, lt_or_le, ◌⊎◌, arith,
}
use tsubasa.Base.Fill.{for_range-write}
use tsubasa.Base.Loop.{for_range_inv}
use tsubasa.Base.Memory.{Memory, write, write_self, write_ne}
use tsubasa.Bitpacking.Column.{
  bitwidth, bitwidths, result_sizes, data_ptrs, total_size, result_ptrs, chunk_size,
}

module _ (bytes lanes packed : ℕ) (widths : Memory) where
  -- The words that one lane of a packed chunk takes, and the address where chunk `c` begins if
  -- the chunks follow one another.
  abbrev pub words_of : ℕ → ℕ
  words_of c = widths c * 64 / (bytes * 8)

  abbrev pub start_of : ℕ → ℕ
  start_of zero = packed
  start_of (suc c) = start_of c + words_of c * lanes

  regroup : (c : ℕ) → widths c * (64 * lanes) ≡ 64 * (widths c * lanes)
  regroup c = omega arith

  -- A size in bytes is a whole number of words.
  pub size_words :
      (bytes ≡ 4) ⊎ (bytes ≡ 8)
      → (c : ℕ)
      → (widths c * (64 * lanes) / 8 / bytes ≡ words_of c * lanes)
        × (widths c * (64 * lanes) / 8 ≡ bytes * (words_of c * lanes))
  size_words (inl e) c =
      let two : widths c * 64 / (4 * 8) ≡ widths c * 2 = omega arith in
      rw (e, two, regroup c) (omega arith)
  size_words (inr e) c =
      let one : widths c * 64 / (8 * 8) ≡ widths c = omega arith in
      rw (e, one, regroup c) (omega arith)

  pub start_of_next : (c : ℕ) → 0 < c → start_of c ≡ start_of (c - 1) + words_of (c - 1) * lanes
  start_of_next zero h = absurd (omega arith)
  start_of_next (suc c) h = let e : suc c - 1 ≡ c = omega arith in rw e

  pub start_of_mono : (c d : ℕ) → c ≤ d → start_of c ≤ start_of d
  start_of_mono c zero h = let e : c ≡ 0 = omega arith in rw e (omega arith)
  start_of_mono c (suc d) h = elim (lt_or_le d c) [
    | inl top ↦ let e : c ≡ suc d = omega arith in rw e (omega arith)
    | inr below ↦ omega (arith, start_of_mono c d below)
  ]

module _ (bytes lanes : ℕ) (ldz : ℕ → ℕ) (input : Memory) (data_at packed : ℕ) (garbage : Memory)
    (chunk_count : ℕ) where
  pub bitwidths_at :
      (c : ℕ)
      → c < chunk_count
      → bitwidths bytes lanes ldz input data_at packed garbage chunk_count c
        ≡ bitwidth bytes lanes ldz input (data_at + c * chunk_size bytes lanes ldz)
  unfolding bitwidths
  bitwidths_at c h =
      for_range-write chunk_count
        (λ k _. bitwidth bytes lanes ldz input (data_at + k * chunk_size bytes lanes ldz)) garbage c
        h

  pub data_ptrs_at :
      (c : ℕ)
      → c < chunk_count
      → data_ptrs bytes lanes ldz input data_at packed garbage chunk_count c
        ≡ data_at + c * chunk_size bytes lanes ldz
  unfolding data_ptrs
  data_ptrs_at c h =
      for_range-write chunk_count (λ k _. data_at + k * chunk_size bytes lanes ldz) garbage c h

  module _ (widths : Memory) where
    abbrev sizes : Memory
    sizes = result_sizes bytes lanes ldz input data_at packed garbage chunk_count widths

    pub result_sizes_at :
        (c : ℕ) → c < chunk_count → sizes c ≡ widths c * chunk_size bytes lanes ldz / 8
    unfolding result_sizes
    result_sizes_at c h =
        for_range-write chunk_count (λ k _. widths k * chunk_size bytes lanes ldz / 8) garbage c h

    size_at :
        (bytes ≡ 4) ⊎ (bytes ≡ 8)
        → (c : ℕ) → c < chunk_count
        → (sizes c / bytes ≡ words_of bytes lanes packed widths c * lanes)
          × (sizes c ≡ bytes * (words_of bytes lanes packed widths c * lanes))
    size_at known c h = rw (result_sizes_at c h) (size_words bytes lanes packed widths known c)

    -- The pointers of step 4 put the chunks one behind the other.
    pub result_ptrs_at :
        (bytes ≡ 4) ⊎ (bytes ≡ 8)
        → (c : ℕ) → c < chunk_count
        → result_ptrs bytes lanes ldz input data_at packed garbage chunk_count sizes c
          ≡ start_of bytes lanes packed widths c
    unfolding result_ptrs
    result_ptrs_at known c h =
        for_range_inv
          (λ k (a : Memory). (d : ℕ) → d < k → a d ≡ start_of bytes lanes packed widths d)
          (λ k a. write a k (a (k - 1) + sizes (k - 1) / bytes)) (chunk_count - 1) 1 chunk_count
          (omega arith)
          (λ k a lo hi p d q. elim (lt_or_le d k) [
            | inl old ↦ write_ne a k (a (k - 1) + sizes (k - 1) / bytes) d (omega arith) ∙ p d old
            | inr new ↦
                let e : d ≡ k = omega arith in
                rw (e, write_self a k (a (k - 1) + sizes (k - 1) / bytes), p (k - 1) (omega arith))
                  (ap (λ (t : ℕ). start_of bytes lanes packed widths (k - 1) + t)
                      (size_at known (k - 1) (omega arith)).0
                    ∙ sym (start_of_next bytes lanes packed widths k (omega arith)))
          ])
          (write garbage 0 packed)
          (λ d q. let e : d ≡ 0 = omega arith in rw (e, write_self garbage 0 packed)) c h

    -- `compress_size_8` is the size of all the packed chunks in bytes.
    pub total_size_lem :
        (bytes ≡ 4) ⊎ (bytes ≡ 8)
        → total_size bytes lanes ldz input data_at packed garbage chunk_count sizes + bytes * packed
          ≡ bytes * start_of bytes lanes packed widths chunk_count
    unfolding total_size
    total_size_lem known =
        for_range_inv
          (λ k total. total + bytes * packed ≡ bytes * start_of bytes lanes packed widths k)
          (λ k total. total + sizes k) chunk_count 0 chunk_count (omega arith)
          (λ k total lo hi p. rw (add-one k) (omega (arith, p, (size_at known k hi).1))) 0
          (omega arith)
