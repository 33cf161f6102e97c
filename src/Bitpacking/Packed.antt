-- ===== src/Bitpacking/Packed.antt =====
-- The invariant of a pack function, and what a statement that stores no word, and one that
-- stores a word, do to it.
use native.Mathlib.Nat.{mul-le-mul_right}
use tsubasa.Base.{ℕ, suc, ◌+◌, ◌*◌, ◌^◌, ◌≤◌, ◌<◌, ◌≡◌, ◌⊎◌, inl, inr, ap, ◌∙◌, arith}
use tsubasa.Base.Memory.{Memory}
use tsubasa.Base.Power.{two-pow-add}
use tsubasa.Bitpacking.Code.{State}
use tsubasa.Bitpacking.Stream.{stream, stream-suc, stream_congr, field-lt}

-- Word `k` of a lane, in vectors that begin at `base`.
abbrev pub lane_word : Memory → ℕ → ℕ → ℕ → ℕ → ℕ
lane_word memory lanes base i k = memory (base + k * lanes + i)

-- `taken` vectors have been read and `stored` vectors have been written; `acc` holds the
-- `set_bits` low bits of the next word of each lane. In every lane the words written and `acc`
-- stand for the same number as the values read, and nothing else of the memory has changed.
pub record Packed (wordsize bitwidth lanes : ℕ) (input start : Memory)
    (data_start result_start taken stored set_bits : ℕ) (acc : Memory) (s : State) : Type 0 where
  pub data_at : s.data_at ≡ data_start + taken * lanes
  pub result_at : s.result_at ≡ result_start + stored * lanes
  pub bits : wordsize * stored + set_bits ≡ bitwidth * taken
  pub fits : (i : ℕ) → i < lanes → acc i < 2 ^ set_bits
  pub value :
      (i : ℕ)
      → i < lanes
      → stream wordsize (lane_word s.result lanes result_start i) stored
          + acc i * 2 ^ (wordsize * stored)
        ≡ stream bitwidth (lane_word input lanes data_start i) taken
  pub words :
      (i k : ℕ) → i < lanes → k < stored → lane_word s.result lanes result_start i k < 2 ^ wordsize
  pub apart :
      (a : ℕ) → (a < result_start) ⊎ (result_start + stored * lanes ≤ a) → s.result a ≡ start a

-- One more value of a lane, put above the `set_bits` bits of `acc`.
raise_take :
    (w b stored taken sb low acc v n acc' : ℕ)
    → w * stored + sb ≡ b * taken
    → low + acc * 2 ^ (w * stored) ≡ n
    → acc' ≡ acc + v * 2 ^ sb
    → low + acc' * 2 ^ (w * stored) ≡ n + v * 2 ^ (b * taken)
raise_take w b stored taken sb low acc v n acc' e value added =
    rw (← e, two-pow-add (w * stored) sb)
      (omega (arith, value, ap (λ (t : ℕ). t * 2 ^ (w * stored)) added))

-- The same where the sum is split into a full word and a rest.
raise_store :
    (w b stored taken sb low acc v n word acc' : ℕ)
    → w * stored + sb ≡ b * taken
    → low + acc * 2 ^ (w * stored) ≡ n
    → word + acc' * 2 ^ w ≡ acc + v * 2 ^ sb
    → low + word * 2 ^ (w * stored) + acc' * 2 ^ (w * suc stored) ≡ n + v * 2 ^ (b * taken)
raise_store w b stored taken sb low acc v n word acc' e value split =
    let next : w * suc stored ≡ w * stored + w = omega arith in
    rw (next, two-pow-add (w * stored) w)
      (omega
        (arith, raise_take w b stored taken sb low acc v n (word + acc' * 2 ^ w) e value split))

module _ (wordsize bitwidth lanes : ℕ) (input start : Memory)
    (data_start result_start taken stored set_bits : ℕ) (acc : Memory) (s : State)
    (p : Packed wordsize bitwidth lanes input start data_start result_start taken stored set_bits
      acc s)
    (small : (i : ℕ) → i < lanes → input (s.data_at + i) < 2 ^ bitwidth) where
  -- The value that a lane takes next stands in the vector that `data` points to.
  taken_value : (i : ℕ) → input (s.data_at + i) ≡ lane_word input lanes data_start i taken
  taken_value i = rw p.data_at

  -- A statement that stores nothing.
  pub Packed-take :
      (acc' : Memory) (t : State)
      → t.data_at ≡ s.data_at + lanes
      → t.result_at ≡ s.result_at
      → ((a : ℕ) → t.result a ≡ s.result a)
      → ((i : ℕ) → i < lanes → acc' i ≡ acc i + input (s.data_at + i) * 2 ^ set_bits)
      → Packed wordsize bitwidth lanes input start data_start result_start
          (suc taken)
          stored
          (set_bits + bitwidth)
          acc'
          t
  Packed-take acc' t moved kept same added = record {
    data_at = omega (arith, p.data_at);
    result_at = omega (arith, p.result_at);
    bits = omega (arith, p.bits);
    fits = λ i h.
        rw (added i h)
          (field-lt (acc i) (input (s.data_at + i)) bitwidth set_bits (p.fits i h) (small i h));
    value = λ i h.
        rw
          (
            stream-suc,
            stream_congr wordsize (lane_word t.result lanes result_start i)
                (lane_word s.result lanes result_start i) stored
                (λ k _. same (result_start + k * lanes + i)),
          )
          (raise_take wordsize bitwidth stored taken set_bits _ (acc i) _ _ (acc' i) p.bits
            (p.value i h) (rw (← taken_value i) (added i h)));
    words = λ i k h q. rw (same (result_start + k * lanes + i)) (p.words i k h q);
    apart = λ a h. same a ∙ p.apart a h;
  }

  -- A statement that stores a word in every lane.
  pub Packed-store :
      (acc' : Memory) (t : State) (rest : ℕ)
      → set_bits + bitwidth ≡ wordsize + rest
      → t.data_at ≡ s.data_at + lanes
      → t.result_at ≡ s.result_at + lanes
      → ((a : ℕ) → (a < s.result_at) ⊎ (s.result_at + lanes ≤ a) → t.result a ≡ s.result a)
      → ((i : ℕ) → i < lanes → t.result (s.result_at + i) < 2 ^ wordsize)
      → ((i : ℕ) → i < lanes → acc' i < 2 ^ rest)
      → ((i : ℕ)
          → i < lanes
          → t.result (s.result_at + i) + acc' i * 2 ^ wordsize
            ≡ acc i + input (s.data_at + i) * 2 ^ set_bits)
      → Packed wordsize bitwidth lanes input start data_start result_start
          (suc taken)
          (suc stored)
          rest
          acc'
          t
  Packed-store acc' t rest sum moved moved' same small_word fits split = record {
    data_at = omega (arith, p.data_at);
    result_at = omega (arith, p.result_at);
    bits = omega (arith, p.bits);
    fits = fits;
    value = λ i h.
        rw
          (
            stream-suc bitwidth (lane_word input lanes data_start i) taken,
            stream-suc wordsize (lane_word t.result lanes result_start i) stored,
            stream_congr wordsize (lane_word t.result lanes result_start i)
                (lane_word s.result lanes result_start i) stored (λ k q. earlier i k h q),
          )
          (raise_store wordsize bitwidth stored taken set_bits _ (acc i) _ _ _ (acc' i) p.bits
            (p.value i h) (rw (← taken_value i, ← p.result_at) (split i h)));
    words = λ i k h q. word_fits i k h q;
    apart = λ a h. elim h [
      | inl low ↦ same a (inl (omega (arith, p.result_at))) ∙ p.apart a (inl low)
      | inr high ↦ same a (inr (omega (arith, p.result_at))) ∙ p.apart a (inr (omega arith))
    ];
  }
    where
      last_or_earlier : (k : ℕ) → k < suc stored → (k ≡ stored) ⊎ (k < stored)
      last_or_earlier k q = grind arith

      earlier :
          (i k : ℕ)
          → i < lanes
          → k < stored
          → lane_word t.result lanes result_start i k ≡ lane_word s.result lanes result_start i k
      earlier i k h q =
          same (result_start + k * lanes + i)
            (inl (omega (arith, p.result_at, mul-le-mul_right {m = suc k} {n = stored} lanes q)))

      word_fits :
          (i k : ℕ)
          → i < lanes
          → k < suc stored
          → lane_word t.result lanes result_start i k < 2 ^ wordsize
      word_fits i k h q = elim (last_or_earlier k q) [
        | inl e ↦ rw (e, ← p.result_at) (small_word i h)
        | inr below ↦ rw (earlier i k h below) (p.words i k h below)
      ]
