-- ===== src/Bitpacking/Column/Compress.antt =====
-- The constructor and `compress` together pack a whole column, chunk by chunk.
use native.Mathlib.Nat.{mul-le-mul_right}
use native.Mathlib.Numerals.{add-one}
use tsubasa.Base.{
  ℕ, suc, ◌+◌, ◌*◌, ◌/◌, ◌^◌, ◌≤◌, ◌<◌, ◌≡◌, ◌∙◌, refl, inl, inr, lt_or_le, ◌⊎◌, arith,
}
use tsubasa.Base.Loop.{for_range_inv}
use tsubasa.Base.Memory.{Memory}
use tsubasa.Bitpacking.Column.{VerticalBitpacking, construct, compress, bitwidth}
use tsubasa.Bitpacking.Column.Layout.{
  words_of, start_of, start_of_mono, bitwidths_at, data_ptrs_at, result_ptrs_at, total_size_lem,
}
use tsubasa.Bitpacking.Column.Ors.{AllFit, bitwidth_least}
use tsubasa.Bitpacking.Column.Width.{IsLeadingZeros}
use tsubasa.Bitpacking.Pack.{compress_impl}
use tsubasa.Bitpacking.Pack.Correct.{ChunkPacked, compress_impl-ChunkPacked}
use tsubasa.Bitpacking.Packed.{lane_word}
use tsubasa.Bitpacking.Stream.{stream, stream_congr, decode, decode-stream}

words_unique :
    (bytes w width : ℕ)
    → (bytes ≡ 4) ⊎ (bytes ≡ 8)
    → bytes * 8 * w ≡ width * 64
    → w ≡ width * 64 / (bytes * 8)
words_unique bytes w width (inl e) h = let h' = rw e at h in rw e (omega arith)
words_unique bytes w width (inr e) h = let h' = rw e at h in rw e (omega arith)

le_of_bytes : (bytes a b : ℕ) → (bytes ≡ 4) ⊎ (bytes ≡ 8) → bytes * a ≤ bytes * b → a ≤ b
le_of_bytes bytes a b (inl e) h = let h' = rw e at h in omega arith
le_of_bytes bytes a b (inr e) h = let h' = rw e at h in omega arith

module _ (bytes lanes : ℕ) (ldz : ℕ → ℕ) (input : Memory) (data_at packed : ℕ)
    (garbage vectors tmps start : Memory) (count8 : ℕ) where
  abbrev pub column : VerticalBitpacking
  column = construct bytes lanes ldz input data_at packed garbage count8

  abbrev pub compressed : Memory
  compressed = compress bytes lanes ldz input vectors tmps column start

  abbrev pub widths : Memory
  widths = column.chunk_max_bitwidth_array

  abbrev begin : ℕ → ℕ
  begin = start_of bytes lanes packed widths

  abbrev words : ℕ → ℕ
  words = words_of bytes lanes packed widths

  abbrev chunk_data : ℕ → ℕ
  chunk_data c = data_at + c * (64 * lanes)

  widths_at :
      (c : ℕ) → c < column.chunk_count → widths c ≡ bitwidth bytes lanes ldz input (chunk_data c)
  unfolding construct
  widths_at c h = bitwidths_at bytes lanes ldz input data_at packed garbage _ c h

  data_ptr_at : (c : ℕ) → c < column.chunk_count → column.chunk_data_ptr c ≡ chunk_data c
  unfolding construct
  data_ptr_at c h = data_ptrs_at bytes lanes ldz input data_at packed garbage _ c h

  result_ptr_at :
      (bytes ≡ 4) ⊎ (bytes ≡ 8)
      → (c : ℕ) → c < column.chunk_count
      → column.chunk_result_ptr c ≡ begin c
  unfolding construct
  result_ptr_at known c h =
      result_ptrs_at bytes lanes ldz input data_at packed garbage _ _ known c h

  compressed_size :
      (bytes ≡ 4) ⊎ (bytes ≡ 8)
      → column.compress_size_8 + bytes * packed ≡ bytes * begin column.chunk_count
  unfolding construct
  compressed_size known = total_size_lem bytes lanes ldz input data_at packed garbage _ _ known

  -- Every value that the chunks hold is a word of type T.
  abbrev pub ColumnFits : Type 0
  ColumnFits =
      (j : ℕ) → j < column.chunk_count * (64 * lanes) → input (data_at + j) < 2 ^ (bytes * 8)

  -- `m` holds the first `k` chunks, and is `start` elsewhere.
  record Prefix (k : ℕ) (m : Memory) : Type 0 where
    value :
        (c i : ℕ)
        → c < k
        → i < lanes
        → stream (bytes * 8) (lane_word m lanes (begin c) i) (words c)
          ≡ stream (widths c) (lane_word input lanes (chunk_data c) i) 64
    apart : (a : ℕ) → (a < packed) ⊎ (begin k ≤ a) → m a ≡ start a

  module _ (counts : IsLeadingZeros ldz) (known : (bytes ≡ 4) ⊎ (bytes ≡ 8))
      (fits : ColumnFits) where
    chunk_fits :
        (c : ℕ) → c < column.chunk_count → AllFit bytes lanes ldz input (chunk_data c) (bytes * 8)
    chunk_fits c h k i p q =
        let e : chunk_data c + k * lanes + i ≡ data_at + (c * (64 * lanes) + k * lanes + i) =
          omega arith in
        rw e (
          fits (c * (64 * lanes) + k * lanes + i) (
            omega (
              arith,
              mul-le-mul_right {m = suc c} {n = column.chunk_count} (64 * lanes) h,
              mul-le-mul_right {m = suc k} {n = 64} lanes p,
            )))

    chunk_widths :
        (c : ℕ)
        → c < column.chunk_count
        → AllFit bytes lanes ldz input (chunk_data c) (widths c) × (widths c ≤ bytes * 8)
    chunk_widths c h =
        let w = bitwidth_least bytes lanes ldz input (chunk_data c) counts known (chunk_fits c h) in
        rw (widths_at c h) (w.0, w.1)

    -- Word `j` of lane `i` of a chunk stands below the next chunk.
    chunk_below : (c i j : ℕ) → i < lanes → j < words c → begin c + j * lanes + i < begin (suc c)
    chunk_below c i j h q = omega (arith, mul-le-mul_right {m = suc j} {n = words c} lanes q)

    words_same : (c w : ℕ) → bytes * 8 * w ≡ widths c * 64 → w ≡ words c
    words_same c w e = words_unique bytes w (widths c) known e

    module _ (k : ℕ) (m : Memory) (h : k < column.chunk_count) (p : Prefix k m) where
      abbrev after_chunk : Memory
      after_chunk =
          compress_impl (bytes * 8) lanes input vectors tmps (widths k) (chunk_data k) (begin k) m

      done : ChunkPacked (bytes * 8) (widths k) lanes input m (chunk_data k) (begin k) after_chunk
      done =
          let w = chunk_widths k h in
          compress_impl-ChunkPacked (bytes * 8) (widths k) lanes input m vectors tmps (chunk_data k)
            (begin k) (omega (arith, known)) w.1 w.0

      older :
          (c i j : ℕ)
          → c < k
          → i < lanes
          → j < words c
          → lane_word after_chunk lanes (begin c) i j ≡ lane_word m lanes (begin c) i j
      older c i j below q r = done.apart (begin c + j * lanes + i) (
          inl (
            omega (
              arith,
              chunk_below c i j q r,
              start_of_mono bytes lanes packed widths (suc c) k below,
            )))

      next_chunk : Prefix (k + 1) after_chunk
      next_chunk = record {
        value = λ c i q r. elim (lt_or_le c k) [
          | inl below ↦
              rw
                (stream_congr (bytes * 8) (lane_word after_chunk lanes (begin c) i)
                  (lane_word m lanes (begin c) i) (words c) (λ j t. older c i j below r t))
                (p.value c i below r)
          | inr top ↦
              let e : c ≡ k = omega arith in
              rw (e, ← words_same k done.words done.size) (done.value i r)
        ];
        apart = λ a out.
            let from : packed ≤ begin k =
              start_of_mono bytes lanes packed widths 0 k (omega arith) in
            let e = words_same k done.words done.size in
            elim out [
              | inl low ↦ done.apart a (inl (omega arith)) ∙ p.apart a (inl low)
              | inr high ↦
                  let past : begin k + words k * lanes ≤ a = rw add-one at high in
                  done.apart a (inr (rw e past)) ∙ p.apart a (inr (omega (arith, past)))
            ];
      }

    all_chunks : Prefix column.chunk_count compressed
    unfolding compress
    all_chunks =
        for_range_inv Prefix
          (λ k m.
            compress_impl (bytes * 8) lanes input vectors tmps (widths k) (column.chunk_data_ptr k)
              (column.chunk_result_ptr k) m)
          column.chunk_count 0 column.chunk_count (omega arith)
          (λ k m lo hi p. rw (data_ptr_at k hi, result_ptr_at known k hi) (next_chunk k m hi p))
          start (record { value = λ c i h. absurd (omega arith); apart = λ a h. refl })

    -- Decoding gives the column back: field `k` of lane `i` of chunk `c`, read where
    -- `chunk_result_ptr` points to with the width in `chunk_max_bitwidth_array`, is the value at
    -- that place of the data. Outside the `compress_size_8` bytes from `packed_data` nothing of
    -- the memory has changed.
    pub decode-compress :
        ((c k i : ℕ)
          → c < column.chunk_count
          → k < 64
          → i < lanes
          → decode (widths c) k (
              stream
                (bytes * 8)
                (lane_word compressed lanes (column.chunk_result_ptr c) i)
                (widths c * 64 / (bytes * 8)))
            ≡ input (data_at + c * (64 * lanes) + k * lanes + i))
        × ((a : ℕ)
            → (a < packed) ⊎ (column.compress_size_8 + bytes * packed ≤ bytes * a)
            → compressed a ≡ start a)
    decode-compress = (
      λ c k i h p q.
          rw (result_ptr_at known c h, all_chunks.value c i h q)
            (decode-stream (widths c) (lane_word input lanes (chunk_data c) i) 64 k
              (λ j r. (chunk_widths c h).0 j i r q) p),
      λ a out. all_chunks.apart a (elim out [
        | inl low ↦ inl low
        | inr high ↦ inr (
            le_of_bytes bytes (begin column.chunk_count) a known
              (omega (arith, compressed_size known)))
      ]),
    )
