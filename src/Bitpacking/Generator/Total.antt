-- ===== src/Bitpacking/Generator/Total.antt =====
-- The loop of `create_func` ends, and what it prints is a run of whole batches.
use tsubasa.Base.{
  ℕ, zero, suc, ◌+◌, ◌*◌, ◌≤◌, ◌<◌, ◌≡◌, refl, ◌⊎◌, inl, inr, ap, arith, List, [], ◌++◌, lt_or_le,
  ◌∙◌,
}
use tsubasa.Bitpacking.Code.{Statement}
use tsubasa.Bitpacking.Generator.{
  Output, printed, before, create_chunk, func_loop, create_func, vecsize, chunksize,
}
use tsubasa.Bitpacking.Schedule.{Batches, none_left, next_batch}
use tsubasa.Bitpacking.Generator.Batch.{Batch-pos, create_chunk-Batched}

-- What the loop of `create_func` has printed when it returns, after `taken` vectors.
pub record Finished (wordsize bitwidth taken : ℕ) (output : Output) : Type 0 where
  pub code : List Statement
  pub vectors : ℕ
  pub words : ℕ
  pub prints : output ≡ printed code ((taken + vectors) * vecsize)
  pub batches : Batches wordsize bitwidth code vectors words
  pub enough : chunksize ≤ (taken + vectors) * vecsize

func_loop_more :
    (fuel wordsize bitwidth processed batch_size : ℕ) (code : List Statement)
    → processed < chunksize
    → create_chunk wordsize bitwidth ≡ printed code batch_size
    → func_loop (suc fuel) wordsize bitwidth processed
      ≡ before code (func_loop fuel wordsize bitwidth (processed + batch_size))
unfolding func_loop
func_loop_more fuel wordsize bitwidth processed batch_size code short made = ground arith

func_loop_done :
    (fuel wordsize bitwidth processed : ℕ)
    → chunksize ≤ processed
    → func_loop (suc fuel) wordsize bitwidth processed ≡ printed [] processed
unfolding func_loop
func_loop_done fuel wordsize bitwidth processed full = ground arith

func_loop-Finished :
    (fuel wordsize bitwidth taken : ℕ)
    → 0 < bitwidth
    → bitwidth ≤ wordsize
    → 64 < taken + fuel
    → 0 < fuel
    → Finished wordsize bitwidth taken (func_loop fuel wordsize bitwidth (taken * vecsize))
func_loop-Finished zero wordsize bitwidth taken b bw left f = absurd (omega arith)
func_loop-Finished (suc fuel) wordsize bitwidth taken b bw left f = elim (lt_or_le taken 64) [
  | inl short ↦
      let one = create_chunk-Batched wordsize bitwidth b bw in
      let pos = Batch-pos one.batch in
      let rest =
        func_loop-Finished fuel wordsize bitwidth (taken + one.vectors) b bw (omega arith)
          (omega arith) in
      let sum : taken * vecsize + one.vectors * vecsize ≡ (taken + one.vectors) * vecsize =
        omega arith in
      record {
        code = one.code ++ rest.code;
        vectors = one.vectors + rest.vectors;
        words = one.words + rest.words;
        prints =
            func_loop_more fuel wordsize bitwidth (taken * vecsize) (one.vectors * vecsize) one.code
              (omega arith) one.prints
            ∙ ap (λ (t : ℕ). before one.code (func_loop fuel wordsize bitwidth t)) sum
            ∙ ap (before one.code) rest.prints
            ∙ ap (printed (one.code ++ rest.code)) (omega arith);
        batches =
            next_batch one.vectors one.words rest.vectors rest.words one.batch rest.batches refl
              refl;
        enough = omega (arith, rest.enough);
      }
  | inr full ↦ record {
    code = [];
    vectors = 0;
    words = 0;
    prints =
        func_loop_done fuel wordsize bitwidth (taken * vecsize) (omega arith)
        ∙ ap (printed []) (omega arith);
    batches = none_left;
    enough = omega arith;
  }
]

-- For a word of 32 or 64 bits and a bit width from 1 to the word size, `create_func` returns, and
-- what it prints is a run of whole batches that takes at least a chunk.
pub create_func-Finished :
    (wordsize bitwidth : ℕ)
    → (wordsize ≡ 32) ⊎ (wordsize ≡ 64)
    → 0 < bitwidth
    → bitwidth ≤ wordsize
    → Finished wordsize bitwidth 0 (create_func wordsize bitwidth)
create_func-Finished wordsize bitwidth known b bw =
    let loop : Finished wordsize bitwidth 0 (func_loop 65 wordsize bitwidth 0) =
      func_loop-Finished 65 wordsize bitwidth 0 b bw (omega arith) (omega arith) in
    record {
      code = loop.code;
      vectors = loop.vectors;
      words = loop.words;
      prints = unfold create_func in ground (arith, known, loop.prints);
      batches = loop.batches;
      enough = loop.enough;
    }
