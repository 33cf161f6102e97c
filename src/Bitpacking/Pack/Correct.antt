-- ===== src/Bitpacking/Pack/Correct.antt =====
-- One call of `compress_impl` packs one chunk.
use tsubasa.Base.{
  ℕ, ◌+◌, ◌*◌, ◌^◌, ◌≤◌, ◌<◌, ◌≡◌, ◌∙◌, ap, refl, sym, ◌⊎◌, inl, inr, arith, List, some, none,
  lt_or_le,
}
use tsubasa.Base.Memory.{Memory}
use tsubasa.Bitpacking.Code.{Statement}
use tsubasa.Bitpacking.Dispatch.{pack_code}
use tsubasa.Bitpacking.Generated.{pack_code-create_func}
use tsubasa.Bitpacking.Generator.{printed}
use tsubasa.Bitpacking.Generator.Total.{create_func-Finished}
use tsubasa.Bitpacking.Pack.{entry, pack, compress_impl}
use tsubasa.Bitpacking.Packed.{lane_word}
use tsubasa.Bitpacking.Schedule.{Fit, Aligned, exec-Batches}
use tsubasa.Bitpacking.Stream.{stream, stream-zero, stream-lt}

-- `memory` is `start` with a chunk of 64 vectors packed at `result`: in every lane the words
-- stand for the same number as the values, and no other word has changed.
pub record ChunkPacked (wordsize bitwidth lanes : ℕ) (input start : Memory) (data_in result : ℕ)
    (memory : Memory) : Type 0 where
  pub words : ℕ
  pub size : wordsize * words ≡ bitwidth * 64
  pub value :
      (i : ℕ)
      → i < lanes
      → stream wordsize (lane_word memory lanes result i) words
        ≡ stream bitwidth (lane_word input lanes data_in i) 64
  pub fits : (i k : ℕ) → i < lanes → k < words → lane_word memory lanes result i k < 2 ^ wordsize
  pub apart : (a : ℕ) → (a < result) ⊎ (result + words * lanes ≤ a) → memory a ≡ start a

printed-injective : {a b : List Statement} {m n : ℕ} → printed a m ≡ printed b n → (a ≡ b) × (m ≡ n)
printed-injective e = (cc, cc)

module _ (wordsize bitwidth lanes : ℕ) (input start vectors tmps : Memory)
    (data_in result : ℕ) where
  entry-Aligned :
      Aligned wordsize bitwidth lanes input start data_in result 0 0
        (entry vectors tmps data_in result start)
  entry-Aligned = record {
    data_at = omega arith;
    result_at = omega arith;
    bits = omega arith;
    fits = λ i h. omega arith;
    value = λ i h. rw (stream-zero wordsize, stream-zero bitwidth) (omega arith);
    words = λ i k h q. absurd (omega arith);
    apart = λ a h. refl;
  }

  -- The specialisation for the bit width packs the 64 vectors at `data_in`, if every value has
  -- at most as many bits, and returns the count of words written.
  pub pack-ChunkPacked :
      (wordsize ≡ 32) ⊎ (wordsize ≡ 64)
      → 0 < bitwidth
      → bitwidth ≤ wordsize
      → Fit wordsize bitwidth lanes input start data_in result 64
      → (code : List Statement) × (pack_code wordsize bitwidth ≡ some code)
        × (let r = pack wordsize lanes input vectors tmps code data_in result start in
            (done : ChunkPacked wordsize bitwidth lanes input start data_in result r.memory)
            × (r.length ≡ done.words * lanes))
  unfolding pack
  pack-ChunkPacked known b bw fit =
      let (code, found, made) = pack_code-create_func wordsize bitwidth known b bw in
      let f = create_func-Finished wordsize bitwidth known b bw in
      let (same, whole) = printed-injective (sym made ∙ f.prints) in
      let p =
        exec-Batches wordsize bitwidth lanes input start data_in result 0 0 64 f.words
          (entry vectors tmps data_in result start) f.batches (omega arith) (omega arith) fit
          entry-Aligned in
      (
        code,
        found,
        rw same (
          record {
            words = f.words;
            size = omega (arith, p.bits);
            value = λ i h. omega (arith, p.value i h);
            fits = p.words;
            apart = p.apart;
          },
          omega (arith, p.result_at),
        ),
      )

  -- `compress_impl` packs a chunk by its bit width; width 0 has no case, and needs no word.
  pub compress_impl-ChunkPacked :
      (wordsize ≡ 32) ⊎ (wordsize ≡ 64)
      → bitwidth ≤ wordsize
      → Fit wordsize bitwidth lanes input start data_in result 64
      → ChunkPacked wordsize bitwidth lanes input start data_in result
          (compress_impl wordsize lanes input vectors tmps bitwidth data_in result start)
  unfolding compress_impl
  compress_impl-ChunkPacked known bw fit = elim (lt_or_le 0 bitwidth) [
    | inl pos ↦
        let (code, found, result_of) = pack-ChunkPacked known pos bw fit in
        rw (found, compress_impl) result_of.0
    | inr none_set ↦
        let e : bitwidth ≡ 0 = omega arith in
        rw (no_case known e, compress_impl)
          (record {
            words = 0;
            size = omega (arith, ap (λ (t : ℕ). t * 64) e);
            value = λ i h. rw (stream-zero wordsize) (no_bits i h e);
            fits = λ i k h q. absurd (omega arith);
            apart = λ a h. refl;
          })
  ]
    where
      no_case :
          (wordsize ≡ 32) ⊎ (wordsize ≡ 64) → bitwidth ≡ 0 → pack_code wordsize bitwidth ≡ none
      no_case (inl a) b = rw (a, b)
      no_case (inr a) b = rw (a, b)

      no_bits :
          (i : ℕ)
          → i < lanes
          → bitwidth ≡ 0
          → 0 ≡ stream bitwidth (lane_word input lanes data_in i) 64
      no_bits i h e =
          let top = stream-lt bitwidth (lane_word input lanes data_in i) 64 (λ k q. fit k i q h) in
          let one : 2 ^ (bitwidth * 64) ≡ 1 = rw e in omega arith
