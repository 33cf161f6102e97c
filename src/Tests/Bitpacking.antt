-- ===== src/Tests/Bitpacking.antt =====
-- Bit packing: runs of the code, and its theorems at concrete inputs.
use tsubasa.Base.{ℕ, ◌+◌, ◌*◌, ◌/◌, ◌%◌, ◌≤◌, ◌<◌, ◌≡◌, refl, ◌⊎◌, inl, inr, arith, List, some}
use tsubasa.Base.Loop.{for_range}
use tsubasa.Base.Memory.{Memory}
use tsubasa.Bitpacking.Code.{Statement, exec}
use tsubasa.Bitpacking.Column.{
  construct, compress, bitwidth, bitwidths, result_sizes, data_ptrs, total_size, result_ptrs,
  or_chunk, or_vectors, or_vector, clz,
}
use tsubasa.Bitpacking.Column.Compress.{column, compressed, widths, ColumnFits, decode-compress}
use tsubasa.Bitpacking.Column.Ors.{AllFit, bitwidth_least}
use tsubasa.Bitpacking.Dispatch.{pack_code}
use tsubasa.Bitpacking.Generated.{pack_code-create_func}
use tsubasa.Bitpacking.Generator.{create_func, printed, chunksize}
use tsubasa.Bitpacking.Generator.Total.{Finished, create_func-Finished}
use tsubasa.Bitpacking.Pack.{pack, compress_impl}
use tsubasa.Bitpacking.Pack.Correct.{ChunkPacked, pack-ChunkPacked}
use tsubasa.Bitpacking.Packed.{lane_word}
use tsubasa.Bitpacking.Stream.{stream, decode}
use tsubasa.Tests.LeadingZeros.{digit_count, leading_zeros, leading_zeros-IsLeadingZeros}

-- A column of 64 values below 7 in one lane, at address 0, packed at address 1000.
abbrev values : Memory
values a = a % 7

abbrev blank : Memory
blank a = 0

abbrev sample_fits : ColumnFits 4 1 leading_zeros values 0 1000 blank blank blank blank 256
sample_fits j h = omega arith

decode-compress_example :
    ((c k i : ℕ)
      → c < (column 4 1 leading_zeros values 0 1000 blank blank blank blank 256).chunk_count
      → k < 64
      → i < 1
      → decode (widths 4 1 leading_zeros values 0 1000 blank blank blank blank 256 c) k (
          stream 32
            (lane_word
              (compressed 4 1 leading_zeros values 0 1000 blank blank blank blank 256)
              1
              ((column 4 1 leading_zeros values 0 1000 blank blank blank blank 256).chunk_result_ptr
                c)
              i)
            (widths 4 1 leading_zeros values 0 1000 blank blank blank blank 256 c * 64 / 32))
        ≡ values (0 + c * 64 + k * 1 + i))
    × ((a : ℕ)
        → (a < 1000)
          ⊎ ((column 4 1 leading_zeros values 0 1000 blank blank blank blank 256).compress_size_8
                + 4000
              ≤ 4 * a)
        → compressed 4 1 leading_zeros values 0 1000 blank blank blank blank 256 a ≡ blank a)
decode-compress_example =
    decode-compress 4 1 leading_zeros values 0 1000 blank blank blank blank 256
      leading_zeros-IsLeadingZeros (inl refl) sample_fits

program : Unit {0}
unfolding exec for_range construct bitwidth bitwidths result_sizes data_ptrs total_size result_ptrs
    or_chunk or_vectors or_vector clz leading_zeros digit_count compress compress_impl pack
program = tt

-- The widest value has three bits, so the 64 values take 24 bytes.
sample_sizes :
    (widths 4 1 leading_zeros values 0 1000 blank blank blank blank 256 0 ≡ 3)
    × ((column 4 1 leading_zeros values 0 1000 blank blank blank blank 256).compress_size_8 ≡ 24)
unfolding program
sample_sizes = (refl, refl)

pack-ChunkPacked_example :
    (code : List Statement) × (pack_code 64 3 ≡ some code)
    × (let r = pack 64 1 values blank blank code 0 1000 blank in
        (done : ChunkPacked 64 3 1 values blank 0 1000 r.memory) × (r.length ≡ done.words * 1))
pack-ChunkPacked_example =
    pack-ChunkPacked 64 3 1 values blank blank blank 0 1000 (inr refl) (omega arith) (omega arith)
      (λ k i p q. omega arith)

pack_code-create_func_example :
    (code : List Statement) × (pack_code 32 7 ≡ some code)
    × (create_func 32 7 ≡ printed code chunksize)
pack_code-create_func_example = pack_code-create_func 32 7 (inl refl) (omega arith) (omega arith)

create_func-Finished_example : Finished 32 7 0 (create_func 32 7)
create_func-Finished_example = create_func-Finished 32 7 (inl refl) (omega arith) (omega arith)

bitwidth_least_example :
    AllFit 4 1 leading_zeros values 0 (bitwidth 4 1 leading_zeros values 0)
    × (bitwidth 4 1 leading_zeros values 0 ≤ 32)
    × ((b : ℕ) → AllFit 4 1 leading_zeros values 0 b → bitwidth 4 1 leading_zeros values 0 ≤ b)
bitwidth_least_example =
    bitwidth_least 4 1 leading_zeros values 0 leading_zeros-IsLeadingZeros (inl refl)
      (λ k i p q. omega arith)

-- Sixty-four one-bit values, all set, fill two words.
ones :
    (compress_impl 32 1 (λ _. 1) blank blank 1 0 0 blank 0 ≡ 0xffff_ffff)
    × (compress_impl 32 1 (λ _. 1) blank blank 1 0 0 blank 1 ≡ 0xffff_ffff)
unfolding program
ones = (refl, refl)
