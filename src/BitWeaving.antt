-- ===== src/BitWeaving.antt =====
-- src/main/datastructures/common/bitweaving_h_store.h: `bitweaving_h_fitting_store`, which keeps codes of
-- `code_size` bits side by side, each below a delimiter bit, and compares all codes of a word with a
-- predicate in a few operations. `width` is the count of bits of T.
pub mod Fields
pub mod Masks
pub mod Repeat
pub mod Compare
pub mod Select
pub mod Threads
pub mod Parallel
pub mod Stray
use tsubasa.Base.{
  ℕ, zero, suc, ◌+◌, ◌-◌, ◌*◌, ◌/◌, ◌%◌, ◌^◌, Option, some, none, ltb, leb, if◌then◌else◌, bit_or,
  bit_xor, bit_and,
}
use tsubasa.Base.Loop.{for_range}
use tsubasa.Base.Memory.{Memory, write}

-- `words` is what the member `data` points to.
pub record Store : Type 0 where
  pub words : Memory
  pub data_count : ℕ
  pub delimeter_bits_mask : ℕ
  pub code_bits_mask : ℕ
  pub first_bit_mask : ℕ
  pub max_value : ℕ
  pub code_count : ℕ

-- `pred` and `result` in `create_predicate`.
pub record Predicate : Type 0 where
  pub pred : ℕ
  pub result : ℕ

module _ (width code_size : ℕ) where
  -- `~x` in T.
  abbrev pub complement : ℕ → ℕ
  complement x = 2 ^ width - 1 - x

  -- `get_delimeter_mask( N )` and `get_first_bit_mask( N )`, which have the same body.
  unfoldable pub mask_from : ℕ → ℕ → ℕ
  mask_from zero n = 0
  mask_from (suc fuel) n =
      let rest = mask_from fuel (n + code_size + 1) in
      if ltb n width then bit_or (2 ^ n) rest else 0

  -- N grows in every step, and the last one is at `width` or above.
  abbrev pub get_delimeter_mask : ℕ
  get_delimeter_mask = mask_from width code_size

  abbrev pub get_inverted_delimeter_mask : ℕ
  get_inverted_delimeter_mask = complement get_delimeter_mask

  abbrev pub get_first_bit_mask : ℕ
  get_first_bit_mask = mask_from width 0

  unfoldable pub get_all_ones_mask : ℕ → ℕ
  get_all_ones_mask zero = 1
  get_all_ones_mask (suc n) = bit_or (2 ^ suc n % 2 ^ width) (get_all_ones_mask n)

  -- The constructor.
  abbrev pub construct : Memory → ℕ → Store
  construct words data_count = record {
    words = words;
    data_count = data_count;
    delimeter_bits_mask = get_delimeter_mask;
    code_bits_mask = get_inverted_delimeter_mask;
    first_bit_mask = get_first_bit_mask;
    max_value = get_all_ones_mask (code_size - 1);
    code_count = width / (code_size + 1);
  }

  -- `vector_elem_count` is VectorElemCount; the blocks begin at `i = 0, VectorElemCount, …`.
  unfoldable pub format_block : ℕ → Store → Memory → Memory
  format_block vector_elem_count s words =
      for_range vector_elem_count 0 (λ j d. write d j (bit_xor (d j) s.delimeter_bits_mask)) words

  unfoldable pub format : ℕ → Store → Store
  format vector_elem_count s = record s {
    words =
        for_range ((s.data_count + vector_elem_count - 1) / vector_elem_count) 0
          (λ i d. format_block vector_elem_count s d) s.words;
  }

  abbrev pub shift_predicate : Predicate → Predicate
  shift_predicate p =
      let moved = p.pred * 2 ^ (code_size + 1) % 2 ^ width in
      if ltb (code_size + 1) width
      then (record { pred = moved; result = bit_or p.result moved })
      else p

  -- `none` is a failed assertion.
  unfoldable pub create_predicate : Store → ℕ → Option ℕ
  create_predicate s pred =
      let masked = bit_and pred s.max_value in
      if leb pred s.max_value
      then some
          (for_range (s.code_count - 1) 1 (λ i p. shift_predicate p)
            (record { pred = masked; result = masked })).result
      else none

  -- The loops over the words.
  unfoldable pub cmp_neq_seq : Store → ℕ → Memory → Memory
  cmp_neq_seq s pred result =
      for_range s.data_count 0
        (λ j r. write r j ((bit_xor (s.words j) pred + s.code_bits_mask) % 2 ^ width)) result

  unfoldable pub cmp_eq_seq : Store → ℕ → Memory → Memory
  cmp_eq_seq s pred result =
      for_range s.data_count 0
        (λ j r. write r j (complement ((bit_xor (s.words j) pred + s.code_bits_mask) % 2 ^ width)))
        result

  unfoldable pub cmp_lt_seq : Store → ℕ → Memory → Memory
  cmp_lt_seq s pred result =
      for_range s.data_count 0
        (λ j r. write r j ((pred + bit_xor (s.words j) s.code_bits_mask) % 2 ^ width)) result

  unfoldable pub cmp_leq_seq : Store → ℕ → Memory → Memory
  cmp_leq_seq s pred result =
      for_range s.data_count 0
        (λ j r. write r j (
          ((pred + bit_xor (s.words j) s.code_bits_mask) % 2 ^ width + s.first_bit_mask)
          % 2 ^ width))
        result

  unfoldable pub cmp_gt_seq : Store → ℕ → Memory → Memory
  cmp_gt_seq s pred result =
      let summand = bit_xor pred s.code_bits_mask in
      for_range s.data_count 0 (λ j r. write r j ((s.words j + summand) % 2 ^ width)) result

  unfoldable pub cmp_geq_seq : Store → ℕ → Memory → Memory
  cmp_geq_seq s pred result =
      let summand = bit_xor pred s.code_bits_mask in
      for_range s.data_count 0
        (λ j r. write r j (((s.words j + summand) % 2 ^ width + s.first_bit_mask) % 2 ^ width))
        result
