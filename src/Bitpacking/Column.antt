-- ===== src/Bitpacking/Column.antt =====
-- bitpacking.h: the class `vertical_bitpacking` (its constructor and `compress`) and the `clz` of
-- utils/asm_utils.h. Pointers are addresses counted in words of type T; a `malloc`ed array is a
-- function from indices, with arbitrary contents at first.
pub mod Width
pub mod Ors
pub mod Layout
pub mod Compress
use tsubasa.Base.{ℕ, ◌+◌, ◌-◌, ◌*◌, ◌/◌, ◌%◌, ◌^◌, ◌==◌, if◌then◌else◌, bit_or}
use tsubasa.Base.Loop.{for_range}
use tsubasa.Base.Memory.{Memory, write}
use tsubasa.Bitpacking.Pack.{compress_impl}

pub record VerticalBitpacking : Type 0 where
  pub count : ℕ
  pub chunk_count : ℕ
  pub chunk_remainder : ℕ
  pub packed_data : ℕ
  pub chunk_max_bitwidth_array : Memory
  pub chunk_data_ptr : Memory
  pub chunk_result_sizes : Memory
  pub chunk_result_ptr : Memory
  pub compress_size_8 : ℕ

-- `bytes` is sizeof( T ), 4 or 8; `lanes` is VE_CORE_VPU_VR_ELEMENT_COUNT; `ldz` is the machine
-- instruction behind `clz_asm`.
module _ (bytes lanes : ℕ) (ldz : ℕ → ℕ) where
  -- VE_CORE_VPU_VR_BIT_SIZE: VE_CORE_VPU_VR_ELEMENT_SIZE times the element count.
  abbrev pub chunk_size : ℕ
  chunk_size = 64 * lanes

  -- The two overloads of `clz`; the one for 32 bits subtracts in `uint32_t`.
  unfoldable pub clz : ℕ → ℕ
  clz x = if bytes == 8 then ldz x else (ldz x + 2 ^ 32 - 32) % 2 ^ 32

  module _ (input : Memory) where
    -- The loop over `chunk_inner_pos`: `chunk_tmp_bitwidth_array[ i ] |= data[ base + i ]`.
    unfoldable pub or_vector : ℕ → Memory → Memory
    or_vector base tmps =
        for_range lanes 0 (λ i t. write t i (bit_or (t i) (input (base + i)))) tmps

    -- The loop over `chunk_outer_pos`, in steps of one vector.
    unfoldable pub or_vectors : ℕ → Memory
    or_vectors base = for_range 64 0 (λ k tmps. or_vector (base + k * lanes) tmps) (λ _. 0)

    -- `chunk_tmp_bitwidth` of the chunk at `base`.
    unfoldable pub or_chunk : ℕ → ℕ
    or_chunk base = let tmps = or_vectors base in for_range lanes 0 (λ i acc. bit_or acc (tmps i)) 0

    -- What is assigned to `chunk_max_bitwidth_array[ chunk ]`.
    unfoldable pub bitwidth : ℕ → ℕ
    bitwidth base = (bytes * 8 + 2 ^ 64 - clz (or_chunk base)) % 2 ^ 64 % 2 ^ (bytes * 8)

    module _ (data_at packed : ℕ) (garbage : Memory) where
      -- Step 1: the bit widths.
      unfoldable pub bitwidths : ℕ → Memory
      bitwidths chunk_count =
          for_range chunk_count 0
            (λ chunk a. write a chunk (bitwidth (data_at + chunk * chunk_size))) garbage

      -- Step 2: the sizes of the packed chunks, in bytes.
      unfoldable pub result_sizes : ℕ → Memory → Memory
      result_sizes chunk_count widths =
          for_range chunk_count 0 (λ chunk a. write a chunk (widths chunk * chunk_size / 8)) garbage

      unfoldable pub data_ptrs : ℕ → Memory
      data_ptrs chunk_count =
          for_range chunk_count 0 (λ chunk a. write a chunk (data_at + chunk * chunk_size)) garbage

      unfoldable pub total_size : ℕ → Memory → ℕ
      total_size chunk_count sizes = for_range chunk_count 0 (λ chunk total. total + sizes chunk) 0

      -- Step 4: where the packed chunks begin.
      unfoldable pub result_ptrs : ℕ → Memory → Memory
      result_ptrs chunk_count sizes =
          for_range (chunk_count - 1) 1
            (λ chunk a. write a chunk (a (chunk - 1) + sizes (chunk - 1) / bytes))
            (write garbage 0 packed)

      -- The constructor: `data_at` is its argument `data`, and `packed` the address that the
      -- `malloc` of step 3 returns.
      unfoldable pub construct : ℕ → VerticalBitpacking
      construct count8 =
          let count = count8 / bytes in
          let chunk_count = count / chunk_size in
          let widths = bitwidths chunk_count in
          let sizes = result_sizes chunk_count widths in
          record {
            count = count;
            chunk_count = chunk_count;
            chunk_remainder = count % chunk_size;
            packed_data = packed;
            chunk_max_bitwidth_array = widths;
            chunk_data_ptr = data_ptrs chunk_count;
            chunk_result_sizes = sizes;
            chunk_result_ptr = result_ptrs chunk_count sizes;
            compress_size_8 = total_size chunk_count sizes;
          }

    -- `compress`, over the memory that `packed_data` points into.
    unfoldable pub compress : Memory → Memory → VerticalBitpacking → Memory → Memory
    compress vectors tmps v memory =
        for_range v.chunk_count 0
          (λ chunk m.
            compress_impl (bytes * 8) lanes input vectors tmps (v.chunk_max_bitwidth_array chunk)
              (v.chunk_data_ptr chunk) (v.chunk_result_ptr chunk) m)
          memory
