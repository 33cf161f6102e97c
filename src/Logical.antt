-- ===== src/Logical.antt =====
-- src/main/algorithms/compression/logical: delta, frame of reference and run length, each with its
-- compression, decompression and validator. `width` is the count of bits of T; an array is a
-- function from positions, and a read past its end is what lies there.
pub mod Delta
pub mod FrameOfReference
pub mod RunLength
use mathlib.Core.Bool.{false≢true}
use tsubasa.Base.{
  ℕ, zero, suc, ◌+◌, Bool, true, false, ◌==◌, ◌≡◌, ◌<◌, ◌≤◌, arith, inl, inr, ==_iff, refl,
  eq_or_ne, Bool-cases,
}
use tsubasa.Base.Memory.{Memory}

-- An array that is written from left to right, and the position of the next write.
pub record Output : Type 0 where
  pub position : ℕ
  pub result : Memory

-- The loop at the end of each validator: `break` at the first position where the arrays differ.
unfoldable pub same_from : Memory → Memory → ℕ → ℕ → Bool
same_from a b zero position = true
same_from a b (suc rounds) position = elim (a position == b position) [
  | true ↦ same_from a b rounds (position + 1)
  | false ↦ false
]

-- It answers whether the arrays agree everywhere.
pub same_from-true :
    (a b : Memory) (rounds first : ℕ)
    → same_from a b rounds first ≡ true
    → (p : ℕ) → first ≤ p
    → p < first + rounds
    → a p ≡ b p
unfolding same_from
same_from-true a b zero first h p lo hi = absurd (omega arith)
same_from-true a b (suc rounds) first h p lo hi = elim (Bool-cases (a first == b first)) [
  | inl hit ↦ elim (eq_or_ne p first) [
    | inl e ↦ rw e ((==_iff (a first) (b first)).0 hit)
    | inr ne ↦
        same_from-true a b rounds (first + 1) (rw (hit, same_from) at h) p (omega (arith, ne))
          (omega arith)
  ]
  | inr miss ↦ absurd (false≢true (rw (miss, same_from) at h))
]

pub true-same_from :
    (a b : Memory) (rounds first : ℕ)
    → ((p : ℕ) → first ≤ p → p < first + rounds → a p ≡ b p)
    → same_from a b rounds first ≡ true
unfolding same_from
true-same_from a b zero first h = refl
true-same_from a b (suc rounds) first h =
    rw ((==_iff (a first) (b first)).1 (h first (omega arith) (omega arith)), same_from)
      (true-same_from a b rounds (first + 1) (λ p lo hi. h p (omega arith) (omega arith)))
