-- ===== src/BitWeaving/Select.antt =====
-- The comparisons over all words of a store.
use tsubasa.Base.{
  ℕ, suc, ◌+◌, ◌%◌, ◌^◌, ◌≤◌, ◌<◌, ◌≡◌, ◌∙◌, ap, bit_xor, ltb, leb, ◌==◌, not, Bool, some,
}
use tsubasa.Base.Fill.{for_range-write, for_range-write_past}
use tsubasa.Base.Loop.{for_range}
use tsubasa.Base.Memory.{Memory, write}
use tsubasa.BitWeaving.{
  construct, complement, create_predicate, cmp_neq_seq, cmp_eq_seq, cmp_lt_seq, cmp_leq_seq,
  cmp_gt_seq, cmp_geq_seq, get_inverted_delimeter_mask, get_first_bit_mask,
}
use tsubasa.BitWeaving.Compare.{delimiter, delimiter-difference, delimiter-differ}
use tsubasa.BitWeaving.Masks.{IsFitting, repeated}
use tsubasa.BitWeaving.Repeat.{create_predicate-repeated}
use tsubasa.Bitpacking.Stream.{stream}

-- Word `j` of the store has the codes `codes j` side by side, with their delimiter bits clear.
pub record Holds (code_size fields count : ℕ) (codes : ℕ → ℕ → ℕ) (words : Memory) : Type 0 where
  pub packed : (j : ℕ) → j < count → words j ≡ stream (suc code_size) (codes j) fields
  pub fit : (j i : ℕ) → j < count → i < fields → codes j i < 2 ^ code_size

-- The delimiter bits of `result` say which codes pass, and nothing past the words is written.
pub record Selects (code_size fields count : ℕ) (codes : ℕ → ℕ → ℕ) (test : ℕ → Bool)
    (before result : Memory) : Type 0 where
  pub selected :
      (j i : ℕ) → j < count → i < fields → delimiter code_size i (result j) ≡ test (codes j i)
  pub kept : (j : ℕ) → count ≤ j → result j ≡ before j

module _ {code_size fields count : ℕ} {codes : ℕ → ℕ → ℕ} {words : Memory}
    (holds : Holds code_size fields count codes words) where
  -- A loop that makes each result from one word.
  words-Selects :
      (f : ℕ → ℕ) (test : ℕ → Bool) (before : Memory)
      → ((j i : ℕ)
          → j < count
          → i < fields
          → delimiter code_size i (f (stream (suc code_size) (codes j) fields)) ≡ test (codes j i))
      → Selects code_size fields count codes test before
          (for_range count 0 (λ j r. write r j (f (words j))) before)
  words-Selects f test before h = record {
    selected = λ j i below inside.
        ap (delimiter code_size i) (for_range-write count (λ j _. f (words j)) before j below)
        ∙ ap (λ (t : ℕ). delimiter code_size i (f t)) (holds.packed j below)
        ∙ h j i below inside;
    kept = λ j past. for_range-write_past count (λ j _. f (words j)) before j past;
  }

  -- On a store of codes of `code_size` bits that fill the words, `create_predicate` succeeds on
  -- every value of `code_size` bits, and with its result each of the six sequential comparisons
  -- sets the delimiter bit of a field exactly where the code of the field is different from,
  -- equal to, less than, at most, greater than, or at least the value; no other word is written.
  pub cmp-Selects :
      {width : ℕ}
      → IsFitting width code_size fields
      → (v : ℕ) → v < 2 ^ code_size
      → (before : Memory)
      → (p : ℕ) × (create_predicate width code_size (construct width code_size words count) v
          ≡ some p)
        × Selects code_size fields count codes
            (λ c. not (c == v))
            before
            (cmp_neq_seq width code_size (construct width code_size words count) p before)
        × Selects code_size fields count codes
            (λ c. c == v)
            before
            (cmp_eq_seq width code_size (construct width code_size words count) p before)
        × Selects code_size fields count codes
            (λ c. ltb c v)
            before
            (cmp_lt_seq width code_size (construct width code_size words count) p before)
        × Selects code_size fields count codes
            (λ c. leb c v)
            before
            (cmp_leq_seq width code_size (construct width code_size words count) p before)
        × Selects code_size fields count codes
            (λ c. ltb v c)
            before
            (cmp_gt_seq width code_size (construct width code_size words count) p before)
        × Selects code_size fields count codes
            (λ c. leb v c)
            before
            (cmp_geq_seq width code_size (construct width code_size words count) p before)
  unfolding cmp_neq_seq cmp_eq_seq cmp_lt_seq cmp_leq_seq cmp_gt_seq cmp_geq_seq
  cmp-Selects {width} fit v small before =
      let value : (i : ℕ) → i < fields → v < 2 ^ code_size = λ _ _. small in
      let mask = get_inverted_delimeter_mask width code_size in
      let first = get_first_bit_mask width code_size in
      let p = repeated code_size fields v in
      (
        p,
        create_predicate-repeated fit v small words count,
        words-Selects (λ x. (bit_xor x p + mask) % 2 ^ width) _ before
            (λ j i b h.
              (delimiter-differ fit (codes j) (λ _. v) (λ i. holds.fit j i b) value i h).0),
        words-Selects (λ x. complement width code_size ((bit_xor x p + mask) % 2 ^ width)) _ before
            (λ j i b h.
              (delimiter-differ fit (codes j) (λ _. v) (λ i. holds.fit j i b) value i h).1),
        words-Selects (λ x. (p + bit_xor x mask) % 2 ^ width) _ before
            (λ j i b h.
              (delimiter-difference fit (λ _. v) (codes j) value (λ i. holds.fit j i b) i h).0),
        words-Selects (λ x. ((p + bit_xor x mask) % 2 ^ width + first) % 2 ^ width) _ before
            (λ j i b h.
              (delimiter-difference fit (λ _. v) (codes j) value (λ i. holds.fit j i b) i h).1),
        words-Selects (λ x. (x + bit_xor p mask) % 2 ^ width) _ before
            (λ j i b h.
              (delimiter-difference fit (codes j) (λ _. v) (λ i. holds.fit j i b) value i h).0),
        words-Selects (λ x. ((x + bit_xor p mask) % 2 ^ width + first) % 2 ^ width) _ before
            (λ j i b h.
              (delimiter-difference fit (codes j) (λ _. v) (λ i. holds.fit j i b) value i h).1),
      )
