-- ===== src/Base/Fill.antt =====
-- A counted loop whose round `i` writes element `i` of an array.
use tsubasa.Base.{ℕ, ◌+◌, ◌≤◌, ◌<◌, ◌≡◌, ◌≢◌, ◌∙◌, refl, arith, eq_or_ne, inl, inr}
use tsubasa.Base.Loop.{for_range, for_range_inv}
use tsubasa.Base.Memory.{Memory, write, write_self, write_ne}

record Filled (n : ℕ) (g : ℕ → ℕ → ℕ) (m : Memory) (k : ℕ) (t : Memory) : Type 0 where
  filled : (i : ℕ) → i < k → t i ≡ g i (m i)
  ahead : (i : ℕ) → k ≤ i → t i ≡ m i

module _ (n : ℕ) (g : ℕ → ℕ → ℕ) (m : Memory) where
  for_range-Filled : Filled n g m n (for_range n 0 (λ i t. write t i (g i (t i))) m)
  for_range-Filled =
      for_range_inv (Filled n g m) (λ i t. write t i (g i (t i))) n 0 n (omega arith)
        (λ k t lo hi p. record {
          filled = λ i h. ground (arith, p.filled i, p.ahead k);
          ahead = λ i h. ground (arith, p.ahead i);
        })
        m (record { filled = λ i h. absurd (omega arith); ahead = λ i h. refl })

  -- Round `i` reads element `i` as it was, and no later round changes it.
  pub for_range-write :
      (i : ℕ) → i < n → for_range n 0 (λ i t. write t i (g i (t i))) m i ≡ g i (m i)
  for_range-write i h = for_range-Filled.filled i h

  -- Elements past the loop are not written.
  pub for_range-write_past :
      (i : ℕ) → n ≤ i → for_range n 0 (λ i t. write t i (g i (t i))) m i ≡ m i
  for_range-write_past i h = for_range-Filled.ahead i h

-- A loop that writes `g i` at place `at i`, for places that differ.
record Placed (at g : ℕ → ℕ) (m : Memory) (first k : ℕ) (t : Memory) : Type 0 where
  placed : (i : ℕ) → first ≤ i → i < k → t (at i) ≡ g i
  others : (a : ℕ) → ((i : ℕ) → first ≤ i → i < k → a ≢ at i) → t a ≡ m a

module _ (at g : ℕ → ℕ) (differ : (i j : ℕ) → at i ≡ at j → i ≡ j) (m : Memory)
    (rounds first : ℕ) where
  for_range-Placed :
      Placed at g m first (first + rounds) (for_range rounds first (λ i t. write t (at i) (g i)) m)
  for_range-Placed =
      for_range_inv (Placed at g m first) (λ i t. write t (at i) (g i)) rounds first
        (first + rounds) (omega arith)
        (λ k t lo hi p. record {
          placed = λ i from below. elim (eq_or_ne i k) [
            | inl e ↦ rw e (write_self t (at k) (g k))
            | inr ne ↦
                write_ne t (at k) (g k) (at i) (λ e. ne (differ i k e))
                ∙ p.placed i from (omega (arith, ne, below))
          ];
          others = λ a apart.
              write_ne t (at k) (g k) a (apart k lo (omega arith))
              ∙ p.others a (λ i from below. apart i from (omega arith));
        })
        m (record { placed = λ i from below. absurd (omega arith); others = λ a apart. refl })

  pub for_range-at :
      (i : ℕ)
      → first ≤ i
      → i < first + rounds
      → for_range rounds first (λ i t. write t (at i) (g i)) m (at i) ≡ g i
  for_range-at i from below = for_range-Placed.placed i from below

  pub for_range-elsewhere :
      (a : ℕ)
      → ((i : ℕ) → first ≤ i → i < first + rounds → a ≢ at i)
      → for_range rounds first (λ i t. write t (at i) (g i)) m a ≡ m a
  for_range-elsewhere a apart = for_range-Placed.others a apart
