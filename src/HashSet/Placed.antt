-- ===== src/HashSet/Placed.antt =====
-- How often a key occurs among the first keys, and where keys are placed.
use tsubasa.Base.{ℕ, zero, suc, ◌+◌, ◌≤◌, ◌≡◌, ◌≢◌, ◌∙◌, ap, arith, inl, inr, lt_or_le, sym}
use tsubasa.Base.Memory.{Memory, write, write_ne}
use tsubasa.HashSet.Invariant.{occurrences, seq, IsPlaced}

pub occurrences-le : (input : ℕ → ℕ) (k i : ℕ) → occurrences input k i ≤ i
unfolding occurrences
occurrences-le input k zero = omega arith
occurrences-le input k (suc i) = ground (arith, occurrences-le input k i)

pub occurrences_here :
    (input : ℕ → ℕ) (k i : ℕ)
    → input i ≡ k
    → occurrences input k (suc i) ≡ occurrences input k i + 1
unfolding occurrences
occurrences_here input k i e = ground arith

pub occurrences_next :
    (input : ℕ → ℕ) (k i : ℕ) → occurrences input k i ≤ occurrences input k (suc i)
unfolding occurrences
occurrences_next input k i = omega arith

pub occurrences_other :
    (input : ℕ → ℕ) (k i : ℕ) → input i ≢ k → occurrences input k (suc i) ≡ occurrences input k i
unfolding occurrences
occurrences_other input k i ne = ground arith

module _ (width : ℕ) (hash_fn : ℕ → ℕ) (n : ℕ) where
  pub IsPlaced-write :
      (keys : Memory) (p v k q : ℕ)
      → keys p ≡ 0
      → IsPlaced width hash_fn n keys k q
      → IsPlaced width hash_fn n (write keys p v) k q
  IsPlaced-write keys p v k q empty place = record {
    offset = place.offset;
    below = place.below;
    at = place.at;
    path = λ r lo.
        let apart : seq width hash_fn n k r ≢ p =
          λ same. (place.path r lo).0 (ap keys same ∙ empty) in
        rw (write_ne keys p v (seq width hash_fn n k r) apart) (place.path r lo);
  }

  -- A key stands in one slot only.
  pub IsPlaced-unique :
      (keys : Memory) (k p q : ℕ)
      → IsPlaced width hash_fn n keys k p
      → IsPlaced width hash_fn n keys k q
      → keys p ≡ k
      → keys q ≡ k
      → p ≡ q
  IsPlaced-unique keys k p q a b at_p at_q = elim (lt_or_le a.offset b.offset) [
    | inl lt ↦ absurd ((b.path a.offset lt).1 (ap keys a.at ∙ at_p))
    | inr ge ↦ elim (lt_or_le b.offset a.offset) [
      | inl lt ↦ absurd ((a.path b.offset lt).1 (ap keys b.at ∙ at_q))
      | inr le ↦
          let same : a.offset ≡ b.offset = omega arith in
          sym a.at ∙ ap (seq width hash_fn n k) same ∙ b.at
    ]
  ]
