-- ===== src/Datagen/Generator/Reverse.antt =====
-- The loop of `generate` that reverses the output.
use tsubasa.Base.{ℕ, ◌+◌, ◌-◌, ◌/◌, ◌≤◌, ◌<◌, ◌≡◌, ◌∙◌, refl, ap, arith, lt_or_le, inl, inr}
use tsubasa.Base.Loop.{for_range_inv}
use tsubasa.Base.Memory.{Memory, write}
use tsubasa.Datagen.Generator.{reverse_output}

-- The first and the last `k` values have changed places.
record Swapped (count : ℕ) (out : Memory) (k : ℕ) (t : Memory) : Type 0 where
  low : (i : ℕ) → i < k → t i ≡ out (count - 1 - i)
  middle : (i : ℕ) → k ≤ i → i + k < count → t i ≡ out i
  high : (i : ℕ) → i < count → count ≤ i + k → t i ≡ out (count - 1 - i)
  past : (i : ℕ) → count ≤ i → t i ≡ out i

swap-Swapped :
    (count : ℕ) (out : Memory) (k : ℕ) (t : Memory)
    → k + k + 1 < count
    → Swapped count out k t
    → Swapped count out
        (k + 1)
        (let help = t k in write (write t k (t (count - 1 - k))) (count - 1 - k) help)
swap-Swapped count out k t room w = record {
  low = λ i h. ground (arith, w.low i, w.middle (count - 1 - i));
  middle = λ i lo hi. ground (arith, w.middle i);
  high = λ i h lo. ground (arith, w.high i h, w.middle (count - 1 - i));
  past = λ i h. ground (arith, w.past i);
}

-- The loop reverses the first `count` values and leaves the others.
pub reverse_output-at :
    (count : ℕ) (out : Memory) (i : ℕ)
    → ((i < count) → reverse_output count out i ≡ out (count - 1 - i))
      × ((count ≤ i) → reverse_output count out i ≡ out i)
unfolding reverse_output
reverse_output-at count out i =
    let half = count / 2 in
    let w : Swapped count out half (reverse_output count out) =
      for_range_inv (Swapped count out)
        (λ i o. let help = o i in write (write o i (o (count - 1 - i))) (count - 1 - i) help) half 0
        half (omega arith) (λ k t lo hi w. swap-Swapped count out k t (omega arith) w) out
        (record {
          low = λ j h. absurd (omega arith);
          middle = λ j lo h. refl;
          high = λ j h lo. absurd (omega arith);
          past = λ j h. refl;
        }) in
    (
      λ h. elim (lt_or_le i half) [
        | inl lo ↦ w.low i lo
        | inr hi ↦ elim (lt_or_le (i + half) count) [
          | inr last ↦ w.high i h last
          | inl mid ↦ let same : i ≡ count - 1 - i = omega arith in w.middle i hi mid ∙ ap out same
        ]
      ],
      w.past i,
    )
