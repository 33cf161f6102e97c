-- ===== src/Tests/BitWeaving.antt =====
-- The bit-weaving store: runs of the code, and its theorem at a concrete input.
use tsubasa.Base.{ℕ, ◌+◌, ◌*◌, ◌%◌, ◌≡◌, refl, arith, ltb, leb, ◌==◌, not, some}
use tsubasa.Base.Loop.{for_range}
use tsubasa.Base.Memory.{Memory}
use tsubasa.BitWeaving.{
  Store, construct, mask_from, get_all_ones_mask, create_predicate, format, format_block,
  cmp_neq_seq, cmp_eq_seq, cmp_lt_seq, cmp_leq_seq, cmp_gt_seq, cmp_geq_seq,
}
use tsubasa.BitWeaving.Masks.{IsFitting}
use tsubasa.BitWeaving.Select.{Holds, Selects, cmp-Selects}
use tsubasa.Bitpacking.Stream.{stream}

-- Eight codes of three bits in each of two words of 32 bits.
abbrev sample_codes : ℕ → ℕ → ℕ
sample_codes j i = (3 * i + j) % 8

abbrev sample_words : Memory
sample_words j = stream 4 (sample_codes j) 8

abbrev sample_store : Store
sample_store = construct 32 3 sample_words 2

abbrev nothing : Memory
nothing _ = 0

store_program : Unit {0}
unfolding mask_from get_all_ones_mask create_predicate format format_block cmp_neq_seq cmp_eq_seq
    cmp_lt_seq cmp_leq_seq cmp_gt_seq cmp_geq_seq for_range stream
store_program = tt

sample_run :
    (sample_words 0 ≡ 0x52741630)
    × (sample_store.delimeter_bits_mask ≡ 0x88888888)
    × (sample_store.code_bits_mask ≡ 0x77777777)
    × (create_predicate 32 3 sample_store 5 ≡ some 0x55555555)
unfolding store_program
sample_run = (refl, refl, refl, refl)

-- `format` changes word 0 once for each block and never a word behind the first block: with two
-- blocks of one word nothing is left of it.
format_run :
    ((format 32 3 1 sample_store).words 0 ≡ sample_words 0)
    × ((format 32 3 1 sample_store).words 1 ≡ sample_words 1)
unfolding store_program
format_run = (refl, refl)

sample_IsFitting : IsFitting 32 3 8
sample_IsFitting = record { some_bits = omega arith; some_fields = omega arith; fills = refl }

sample_Holds : Holds 3 8 2 sample_codes sample_words
sample_Holds = record { packed = λ j h. refl; fit = λ j i b h. omega arith }

cmp-Selects_example :
    (p : ℕ) × (create_predicate 32 3 sample_store 5 ≡ some p)
    × Selects 3 8 2 sample_codes
        (λ c. not (c == 5))
        nothing
        (cmp_neq_seq 32 3 sample_store p nothing)
    × Selects 3 8 2 sample_codes (λ c. c == 5) nothing (cmp_eq_seq 32 3 sample_store p nothing)
    × Selects 3 8 2 sample_codes (λ c. ltb c 5) nothing (cmp_lt_seq 32 3 sample_store p nothing)
    × Selects 3 8 2 sample_codes (λ c. leb c 5) nothing (cmp_leq_seq 32 3 sample_store p nothing)
    × Selects 3 8 2 sample_codes (λ c. ltb 5 c) nothing (cmp_gt_seq 32 3 sample_store p nothing)
    × Selects 3 8 2 sample_codes (λ c. leb 5 c) nothing (cmp_geq_seq 32 3 sample_store p nothing)
cmp-Selects_example = cmp-Selects sample_Holds sample_IsFitting 5 (omega arith) nothing
