-- ===== src/HashSet/Batch/Tally.antt =====
-- The third loop of a round: a live lane whose key stands in its slot counts it and is given the
-- next key; another moves on by one slot.
use native.Mathlib.Nat.{add-zero, zero-add}
use native.Mathlib.Numerals.{add-one}
use tsubasa.Base.{
  ℕ, suc, ◌+◌, ◌-◌, ◌*◌, ◌≤◌, ◌<◌, ◌≡◌, ◌≢◌, refl, ltb, ◌==◌, if◌then◌else◌, arith, inl, inr,
  lt_or_le, eq_or_ne, lt→ltb, le→ltb, ==_iff,
}
use tsubasa.Base.Memory.{Memory, write, write_self, write_ne}
use tsubasa.HashSet.Batch.Lanes.{IsBatchInput, pending, live, unseen, given}
use tsubasa.HashSet.Invariant.{==_ne, occurrences}
use tsubasa.HashSet.Placed.{occurrences_here, occurrences_other}
use tsubasa.HashSet.Total.{total, total-update}

module _ (width : ℕ) (hash input : ℕ → ℕ) (n count batch : ℕ)
    (good : IsBatchInput hash input n count) where
  occurrences_step :
      (i k : ℕ)
      → occurrences input k (suc i) ≡ occurrences input k i + (if input i == k then 1 else 0)
  occurrences_step i k = elim (eq_or_ne (input i) k) [
    | inl e ↦ rw ((==_iff _ _).1 e) (occurrences_here input k i e)
    | inr ne ↦ rw (==_ne _ _ ne, add-zero) (occurrences_other input k i ne)
  ]

  -- The lane that is given the position `max + 1`.
  pub given-next :
      (positions : Memory) (j max k : ℕ)
      → occurrences input k (given width hash input n count batch (max + 1))
        ≡ occurrences input k (given width hash input n count batch max)
          + pending width hash input n count batch k (write positions j (max + 1)) j
  unfolding given pending
  given-next positions j max k = elim (lt_or_le (max + 1) count) [
    | inr last ↦
        let same : (if ltb max count then max + 1 else count) ≡ count = ground (arith, last) in
        rw (write_self positions j (max + 1), le→ltb (max + 1) count last, same, add-zero) refl
    | inl more ↦
        let step : occurrences input k (max + 1 + 1)
            ≡ occurrences input k (max + 1) + (if input (max + 1) == k then 1 else 0) =
          rw (add-one (max + 1)) (occurrences_step (max + 1) k) in
        rw
          (
            write_self positions j (max + 1),
            lt→ltb (max + 1) count more,
            lt→ltb max count (omega (arith, more)),
          )
          step
  ]

  pub given-live :
      (positions : Memory) (j max : ℕ)
      → given width hash input n count batch (max + 1)
        ≡ given width hash input n count batch max
          + live width hash input n count batch (write positions j (max + 1)) j
  unfolding given live
  given-live positions j max = ground arith

  pub pending-held :
      (positions : Memory) (j : ℕ)
      → positions j < count
      → pending width hash input n count batch (input (positions j)) positions j ≡ 1
  unfolding pending
  pending-held positions j h = ground (arith, h)

  pub pending-other :
      (positions : Memory) (k j : ℕ)
      → input (positions j) ≢ k
      → pending width hash input n count batch k positions j ≡ 0
  unfolding pending
  pending-other positions k j ne = ground (arith, ne)

  -- The sums over the lanes when lane `j` is given another position.
  module _ (positions : Memory) (j v : ℕ) (below : j < batch) where
    pub pending-moved :
        (k : ℕ)
        → total (pending width hash input n count batch k (write positions j v)) batch
            + pending width hash input n count batch k positions j
          ≡ total (pending width hash input n count batch k positions) batch
            + pending width hash input n count batch k (write positions j v) j
    unfolding pending
    pending-moved k =
        total-update (pending width hash input n count batch k positions)
          (pending width hash input n count batch k (write positions j v)) j batch below
          (λ i lo other. rw (write_ne positions j v i other) refl)

    pub live-moved :
        total (live width hash input n count batch (write positions j v)) batch
          + live width hash input n count batch positions j
        ≡ total (live width hash input n count batch positions) batch
          + live width hash input n count batch (write positions j v) j
    unfolding live
    live-moved =
        total-update (live width hash input n count batch positions)
          (live width hash input n count batch (write positions j v)) j batch below
          (λ i lo other. rw (write_ne positions j v i other) refl)

  unseen-elsewhere :
      (positions offsets : Memory) (j v o i : ℕ)
      → i ≢ j
      → unseen width hash input n count batch (write positions j v) (write offsets j o) i
        ≡ unseen width hash input n count batch positions offsets i
  unfolding unseen
  unseen-elsewhere positions offsets j v o i other =
      rw (write_ne positions j v i other, write_ne offsets j o i other) refl

  unseen-live :
      (positions offsets : Memory) (j : ℕ)
      → positions j < count
      → unseen width hash input n count batch positions offsets j ≡ n - offsets j
  unfolding unseen
  unseen-live positions offsets j h = ground (arith, h)

  -- A lane that is given a key has all slots ahead of it; there is then one key less to give.
  unseen-given :
      (positions offsets : Memory) (j max : ℕ)
      → unseen width hash input n count batch (write positions j (max + 1)) (write offsets j 0) j
          + (count - given width hash input n count batch (max + 1)) * n
        ≡ (count - given width hash input n count batch max) * n
  unfolding unseen given
  unseen-given positions offsets j max = elim (lt_or_le (max + 1) count) [
    | inr last ↦
        let same : (if ltb max count then max + 1 else count) ≡ count = ground (arith, last) in
        rw (write_self positions j (max + 1), le→ltb (max + 1) count last, same, zero-add) refl
    | inl more ↦
        let one : count - (max + 1) ≡ suc (count - (max + 1 + 1)) = omega (arith, more) in
        rw
          (
            write_self positions j (max + 1),
            write_self offsets j 0,
            lt→ltb (max + 1) count more,
            lt→ltb max count (omega (arith, more)),
            one,
          )
          (grind arith)
  ]

  -- The work that is left, when a live lane is given the next position.
  pub work-moved :
      (positions offsets : Memory) (j max : ℕ)
      → j < batch
      → positions j < count
      → offsets j < n
      → total
            (unseen width hash input n count batch
              (write positions j (max + 1))
              (write offsets j 0))
            batch
          + (count - given width hash input n count batch (max + 1)) * n
          + 1
        ≤ total (unseen width hash input n count batch positions offsets) batch
          + (count - given width hash input n count batch max) * n
  work-moved positions offsets j max below inside o_below =
      let changed =
        total-update (unseen width hash input n count batch positions offsets)
          (unseen width hash input n count batch (write positions j (max + 1)) (write offsets j 0))
          j batch below (λ i lo other. unseen-elsewhere positions offsets j (max + 1) 0 i other) in
      let before = unseen-live positions offsets j inside in
      let after = unseen-given positions offsets j max in
      omega (arith, changed, before, after, o_below)

  -- A live lane that moves on.
  pub work-passed :
      (positions offsets : Memory) (j : ℕ)
      → j < batch
      → positions j < count
      → offsets j < n
      → total
            (unseen width hash input n count batch positions (write offsets j (offsets j + 1)))
            batch
          + 1
        ≡ total (unseen width hash input n count batch positions offsets) batch
  unfolding unseen
  work-passed positions offsets j below inside o_below =
      let changed =
        total-update (unseen width hash input n count batch positions offsets)
          (unseen width hash input n count batch positions (write offsets j (offsets j + 1))) j
          batch below (λ i lo other. rw (write_ne offsets j (offsets j + 1) i other) refl) in
      let before = unseen-live positions offsets j inside in
      let after = unseen-live positions (write offsets j (offsets j + 1)) j inside in
      omega (arith, changed, before, after, write_self offsets j (offsets j + 1), o_below)
