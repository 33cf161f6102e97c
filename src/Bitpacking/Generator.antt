-- ===== src/Bitpacking/Generator.antt =====
-- bitpacking_generator.cpp: the program that prints the bodies of `pack`. What it writes to the
-- standard output is a list of statements here; `write`, `write_nl` and `write_vector_loop` only
-- lay text out. Each loop takes fuel, and `Generator/Total.antt` shows how much is enough.
pub mod Batch
pub mod Total
use tsubasa.Base.{
  ℕ, zero, suc, ◌+◌, ◌-◌, true, false, ◌||◌, List, [], ◌∷◌, ◌++◌, ltb, leb, ◌==◌, if◌then◌else◌,
}
use tsubasa.Bitpacking.Code.{
  Statement, load_init, load_or_shift, store_result, store_result_remainder, copy, increment_data,
  increment_result,
}

-- VECSIZE and CHUNKSIZE.
abbrev pub vecsize : ℕ
vecsize = 256

abbrev pub chunksize : ℕ
chunksize = 16384

-- The statements printed and `processed_values`; `exit( 1 )` on a word size that is not known.
pub data Output : Type 0 where
  printed : List Statement → ℕ → Output
  unsupported_wordsize : Output
  out_of_fuel : Output

-- Statements printed before what follows.
abbrev pub before : List Statement → Output → Output
before code (printed rest processed) = printed (code ++ rest) processed
before code unsupported_wordsize = unsupported_wordsize
before code out_of_fuel = out_of_fuel

-- The `while( true )` of `create_chunk`.
unfoldable pub chunk_loop : ℕ → ℕ → ℕ → ℕ → ℕ → Output
chunk_loop zero wordsize bitwidth set_bit_count processed = out_of_fuel
chunk_loop (suc fuel) wordsize bitwidth set_bit_count processed =
    elim (leb set_bit_count (wordsize - bitwidth)) [
      | true ↦ elim (set_bit_count == wordsize - bitwidth) [
        | true ↦
            printed (store_result set_bit_count ∷ increment_data ∷ increment_result ∷ [])
              (processed + vecsize)
        | false ↦
            before (load_or_shift set_bit_count ∷ increment_data ∷ [])
              (chunk_loop fuel wordsize bitwidth (set_bit_count + bitwidth) (processed + vecsize))
      ]
      | false ↦
          before
            (store_result_remainder set_bit_count (wordsize - set_bit_count)
              ∷ increment_data
              ∷ increment_result
              ∷ [])
            (chunk_loop fuel wordsize bitwidth (bitwidth - (wordsize - set_bit_count))
              (processed + vecsize))
    ]

-- No batch is longer than `wordsize` vectors, and the first one is taken before the loop.
unfoldable pub create_chunk : ℕ → ℕ → Output
unfolding chunk_loop
create_chunk wordsize bitwidth = elim (bitwidth == wordsize) [
  | true ↦ printed (copy ∷ increment_data ∷ increment_result ∷ []) vecsize
  | false ↦
      before (load_init ∷ increment_data ∷ [])
        (chunk_loop (wordsize - 1) wordsize bitwidth bitwidth vecsize)
]

-- The `while( processed_values < CHUNKSIZE )` of `create_func`.
unfoldable pub func_loop : ℕ → ℕ → ℕ → ℕ → Output
unfolding create_chunk
func_loop zero wordsize bitwidth processed = out_of_fuel
func_loop (suc fuel) wordsize bitwidth processed = elim (ltb processed chunksize) [
  | true ↦ elim (create_chunk wordsize bitwidth) [
    | printed code batch_size ↦
        before code (func_loop fuel wordsize bitwidth (processed + batch_size))
    | unsupported_wordsize ↦ unsupported_wordsize
    | out_of_fuel ↦ out_of_fuel
  ]
  | false ↦ printed [] processed
]

-- One round of fuel for each vector of a chunk, and one for the test that ends the loop.
unfoldable pub create_func : ℕ → ℕ → Output
unfolding func_loop
create_func wordsize bitwidth =
    if wordsize == 32 || wordsize == 64
    then func_loop 65 wordsize bitwidth 0
    else unsupported_wordsize
