-- ===== src/Bitpacking/Generator/Batch.antt =====
-- The loop of `create_chunk` ends, and prints one whole batch.
use native.Mathlib.Nat.{mul-le-mul_left}
use tsubasa.Base.{
  ℕ, zero, suc, ◌+◌, ◌-◌, ◌*◌, ◌≤◌, ◌<◌, ◌≡◌, ◌≢◌, inl, inr, ap, arith, List, [], ◌∷◌, leb, ◌==◌,
  Bool-cases, lt_or_le,
}
use tsubasa.Bitpacking.Code.{
  Statement, load_init, load_or_shift, store_result, store_result_remainder, copy, increment_data,
  increment_result,
}
use tsubasa.Bitpacking.Generator.{Output, printed, chunk_loop, create_chunk, vecsize}
use tsubasa.Bitpacking.Schedule.{Fills, ends, goes_on, spills, Batch, copies, loads}

-- A batch of `wordsize` vectors would have ended: no multiple of the word size lies strictly
-- between two of them.
no_full_batch :
    (wordsize bitwidth m set_bits : ℕ)
    → 0 < set_bits
    → set_bits < wordsize
    → wordsize * m + set_bits ≢ bitwidth * wordsize
no_full_batch wordsize bitwidth m set_bits lo hi e = elim (lt_or_le m bitwidth) [
  | inl more ↦ omega (arith, e, mul-le-mul_left {m = suc m} {n = bitwidth} wordsize more)
  | inr less ↦ omega (arith, e, mul-le-mul_left {m = bitwidth} {n = m} wordsize less)
]

-- What a loop of `create_chunk` has printed when it returns.
record Filled (wordsize bitwidth set_bits processed : ℕ) (output : Output) : Type 0 where
  code : List Statement
  vectors : ℕ
  words : ℕ
  prints : output ≡ printed code (processed + vectors * vecsize)
  fills : Fills wordsize bitwidth set_bits code vectors words

chunk_loop-Filled :
    (fuel wordsize bitwidth set_bits processed n m : ℕ)
    → 0 < bitwidth
    → bitwidth ≤ wordsize
    → 0 < set_bits
    → set_bits < wordsize
    → wordsize * m + set_bits ≡ bitwidth * n
    → n + fuel ≡ wordsize
    → Filled wordsize bitwidth set_bits processed
        (chunk_loop fuel wordsize bitwidth set_bits processed)
unfolding chunk_loop
chunk_loop-Filled zero wordsize bitwidth set_bits processed n m b bw lo hi e left =
    let same : n ≡ wordsize = omega arith in
    absurd (
      no_full_batch wordsize bitwidth m set_bits lo hi
        (rw (ap (λ (t : ℕ). bitwidth * t) same) at e))
chunk_loop-Filled (suc fuel) wordsize bitwidth set_bits processed n m b bw lo hi e left =
    elim (Bool-cases (leb set_bits (wordsize - bitwidth))) [
      | inl room ↦ elim (Bool-cases (set_bits == wordsize - bitwidth)) [
        | inl full ↦ record {
          code = store_result set_bits ∷ increment_data ∷ increment_result ∷ [];
          vectors = suc zero;
          words = suc zero;
          prints = ground (arith, room, full);
          fills = ends (ground arith);
        }
        | inr short ↦
            let rest =
              chunk_loop-Filled fuel wordsize bitwidth (set_bits + bitwidth) (processed + vecsize)
                (suc n) m b bw (omega arith) (ground arith) (omega arith) (omega arith) in
            record {
              code = load_or_shift set_bits ∷ increment_data ∷ rest.code;
              vectors = suc rest.vectors;
              words = rest.words;
              prints = ground (arith, room, short, rest.prints);
              fills = goes_on (ground arith) rest.fills;
            }
      ]
      | inr over ↦
          let past : wordsize - bitwidth < set_bits = ground arith in
          let rest =
            chunk_loop-Filled fuel wordsize bitwidth (bitwidth - (wordsize - set_bits))
              (processed + vecsize) (suc n) (suc m) b bw (omega arith) (omega arith) (omega arith)
              (omega arith) in
          record {
            code =
                store_result_remainder set_bits (wordsize - set_bits)
                ∷ increment_data
                ∷ increment_result
                ∷ rest.code;
            vectors = suc rest.vectors;
            words = suc rest.words;
            prints = ground (arith, over, rest.prints);
            fills =
                spills (wordsize - set_bits) (bitwidth - (wordsize - set_bits)) (omega arith)
                  (omega arith) rest.fills;
          }
    ]

-- `create_chunk` returns a batch.
pub record Batched (wordsize bitwidth : ℕ) (output : Output) : Type 0 where
  pub code : List Statement
  pub vectors : ℕ
  pub words : ℕ
  pub prints : output ≡ printed code (vectors * vecsize)
  pub batch : Batch wordsize bitwidth code vectors words

pub create_chunk-Batched :
    (wordsize bitwidth : ℕ)
    → 0 < bitwidth
    → bitwidth ≤ wordsize
    → Batched wordsize bitwidth (create_chunk wordsize bitwidth)
unfolding create_chunk
create_chunk-Batched wordsize bitwidth b bw = elim (Bool-cases (bitwidth == wordsize)) [
  | inl same ↦ record {
    code = copy ∷ increment_data ∷ increment_result ∷ [];
    vectors = suc zero;
    words = suc zero;
    prints = ground (arith, same);
    batch = copies (ground arith);
  }
  | inr narrower ↦
      let rest =
        chunk_loop-Filled (wordsize - 1) wordsize bitwidth bitwidth vecsize 1 0 b bw b
          (ground arith) (omega arith) (omega arith) in
      record {
        code = load_init ∷ increment_data ∷ rest.code;
        vectors = suc rest.vectors;
        words = rest.words;
        prints = ground (arith, narrower, rest.prints);
        batch = loads rest.fills;
      }
]

pub Batch-pos :
    {wordsize bitwidth vectors words : ℕ} {code : List Statement}
    → Batch wordsize bitwidth code vectors words
    → 0 < vectors
Batch-pos (copies e) = omega arith
Batch-pos (loads f) = omega arith
