-- ===== src/Bitpacking/Schedule.antt =====
-- How the statements of one batch follow one another, and what they compute together.
use tsubasa.Base.{ℕ, zero, suc, ◌+◌, ◌^◌, ◌<◌, ◌≡◌, refl, arith, List, [], ◌∷◌, ◌++◌}
use tsubasa.Base.Memory.{Memory}
use tsubasa.Bitpacking.Code.{
  Statement, load_init, load_or_shift, store_result, store_result_remainder, copy, increment_data,
  increment_result, State, step, exec,
}
use tsubasa.Bitpacking.Packed.{Packed, lane_word}
use tsubasa.Bitpacking.Statements.{
  Packed-load_init, Packed-load_or_shift, Packed-store_result, Packed-store_result_remainder,
  Packed-copy,
}

-- `Fills set_bits code vectors words`: with `set_bits` bits of a word set, `code` takes `vectors`
-- more vectors of values and completes `words` vectors of words, the last one exactly.
pub data Fills (wordsize bitwidth : ℕ) : ℕ → List Statement → ℕ → ℕ → Type 0 where
  ends :
      {set_bits : ℕ}
      → set_bits + bitwidth ≡ wordsize
      → Fills wordsize bitwidth set_bits
          (store_result set_bits ∷ increment_data ∷ increment_result ∷ [])
          (suc zero)
          (suc zero)
  goes_on :
      {set_bits vectors words : ℕ} {code : List Statement}
      → set_bits + bitwidth < wordsize
      → Fills wordsize bitwidth (set_bits + bitwidth) code vectors words
      → Fills wordsize bitwidth set_bits
          (load_or_shift set_bits ∷ increment_data ∷ code)
          (suc vectors)
          words
  spills :
      {set_bits vectors words : ℕ} {code : List Statement} (r rest : ℕ)
      → set_bits + r ≡ wordsize
      → r + rest ≡ bitwidth
      → Fills wordsize bitwidth rest code vectors words
      → Fills wordsize bitwidth set_bits
          (store_result_remainder set_bits r ∷ increment_data ∷ increment_result ∷ code)
          (suc vectors)
          (suc words)

-- A batch: from the start of a word to the end of one.
pub data Batch (wordsize bitwidth : ℕ) : List Statement → ℕ → ℕ → Type 0 where
  copies :
      bitwidth ≡ wordsize
      → Batch wordsize bitwidth
          (copy ∷ increment_data ∷ increment_result ∷ [])
          (suc zero)
          (suc zero)
  loads :
      {vectors words : ℕ} {code : List Statement}
      → Fills wordsize bitwidth bitwidth code vectors words
      → Batch wordsize bitwidth (load_init ∷ increment_data ∷ code) (suc vectors) words

pub data Batches (wordsize bitwidth : ℕ) : List Statement → ℕ → ℕ → Type 0 where
  none_left : Batches wordsize bitwidth [] zero zero
  next_batch :
      {code more : List Statement} (vectors words vectors' words' : ℕ) {all all' : ℕ}
      → Batch wordsize bitwidth code vectors words
      → Batches wordsize bitwidth more vectors' words'
      → vectors + vectors' ≡ all
      → words + words' ≡ all'
      → Batches wordsize bitwidth (code ++ more) all all'

module _ (wordsize bitwidth lanes : ℕ) (input start : Memory) (data_start result_start : ℕ) where
  abbrev pub Fit : ℕ → Type 0
  Fit vectors =
      (k i : ℕ) → k < vectors → i < lanes → lane_word input lanes data_start i k < 2 ^ bitwidth

  abbrev At : ℕ → ℕ → ℕ → Memory → State → Type 0
  At taken stored set_bits acc s =
      Packed wordsize bitwidth lanes input start data_start result_start taken stored set_bits acc s

  -- Between two words no bits are set.
  abbrev pub Aligned : ℕ → ℕ → State → Type 0
  Aligned taken stored s = At taken stored 0 (λ _. 0) s

  next_fits :
      (taken stored set_bits vectors : ℕ) (acc : Memory) (s : State)
      → Fit vectors
      → taken < vectors
      → At taken stored set_bits acc s
      → (i : ℕ) → i < lanes
      → input (s.data_at + i) < 2 ^ bitwidth
  next_fits taken stored set_bits vectors acc s fit h p i q = rw p.data_at (fit taken i h q)

  exec-Fills :
      {set_bits vectors words : ℕ} {code : List Statement} (taken stored taken' stored' : ℕ)
      (s : State)
      → Fills wordsize bitwidth set_bits code vectors words
      → taken + vectors ≡ taken'
      → stored + words ≡ stored'
      → Fit taken'
      → At taken stored set_bits s.result_vector s
      → Aligned taken' stored' (exec wordsize lanes input code s)
  unfolding exec
  exec-Fills {set_bits = k} taken stored taken' stored' s (ends full) e e' fit p =
      let a : suc taken ≡ taken' = omega arith in
      let b : suc stored ≡ stored' = omega arith in
      rw (← a, ← b)
        (Packed-store_result wordsize bitwidth lanes input start data_start result_start taken
          stored s (next_fits taken stored k taken' s.result_vector s fit (omega arith) p) k full p)
  exec-Fills {set_bits = k} taken stored taken' stored' s (goes_on room more) e e' fit p =
      exec-Fills (suc taken) stored taken' stored' _ more (omega arith) (omega arith) fit (
        Packed-load_or_shift wordsize bitwidth lanes input start data_start result_start taken
          stored s (next_fits taken stored k taken' s.result_vector s fit (omega arith) p) k
          (omega arith) p)
  exec-Fills {set_bits = k} taken stored taken' stored' s (spills r rest x y more) e e' fit p =
      exec-Fills (suc taken) (suc stored) taken' stored' _ more (omega arith) (omega arith) fit (
        Packed-store_result_remainder wordsize bitwidth lanes input start data_start result_start
          taken stored s (next_fits taken stored k taken' s.result_vector s fit (omega arith) p) k r
          rest x y p)

  exec-Batch :
      {vectors words : ℕ} {code : List Statement} (taken stored taken' stored' : ℕ) (s : State)
      → Batch wordsize bitwidth code vectors words
      → taken + vectors ≡ taken'
      → stored + words ≡ stored'
      → Fit taken'
      → Aligned taken stored s
      → Aligned taken' stored' (exec wordsize lanes input code s)
  unfolding exec
  exec-Batch taken stored taken' stored' s (copies full) e e' fit p =
      let a : suc taken ≡ taken' = omega arith in
      let b : suc stored ≡ stored' = omega arith in
      rw (← a, ← b)
        (Packed-copy wordsize bitwidth lanes input start data_start result_start taken stored s
          (next_fits taken stored 0 taken' (λ _. 0) s fit (omega arith) p) full p)
  exec-Batch taken stored taken' stored' s (loads more) e e' fit p =
      exec-Fills (suc taken) stored taken' stored' _ more (omega arith) (omega arith) fit (
        Packed-load_init wordsize bitwidth lanes input start data_start result_start taken stored s
          (next_fits taken stored 0 taken' (λ _. 0) s fit (omega arith) p) p)

  exec-append :
      (a b : List Statement) (s : State)
      → exec wordsize lanes input (a ++ b) s
        ≡ exec wordsize lanes input b (exec wordsize lanes input a s)
  unfolding exec
  exec-append [] b s = refl
  exec-append (c ∷ a) b s = exec-append a b (step wordsize lanes input c s)

  -- Whole batches keep the invariant from one word boundary to another.
  pub exec-Batches :
      {vectors words : ℕ} {code : List Statement} (taken stored taken' stored' : ℕ) (s : State)
      → Batches wordsize bitwidth code vectors words
      → taken + vectors ≡ taken'
      → stored + words ≡ stored'
      → Fit taken'
      → Aligned taken stored s
      → Aligned taken' stored' (exec wordsize lanes input code s)
  exec-Batches taken stored taken' stored' s none_left e e' fit p =
      let a : taken ≡ taken' = omega arith in
      let b : stored ≡ stored' = omega arith in unfold exec in rw (← a, ← b) p
  exec-Batches taken stored taken' stored' s (next_batch {code} {more} v w v' w' one rest a b) e e'
        fit p =
      rw (exec-append code more s) (
        exec-Batches (taken + v) (stored + w) taken' stored' _ rest (omega arith) (omega arith) fit
          (exec-Batch taken stored (taken + v) (stored + w) s one refl refl
            (λ k i h q. fit k i (omega arith) q) p))
