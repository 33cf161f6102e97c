-- ===== src/HashSet/Batch/Advance.antt =====
-- A lane whose key is counted: the invariant after it.
use mathlib.Core.Path.{subst}
use native.Mathlib.Nat.{mod-eq_of_lt, zero-add}
use tsubasa.Base.{ℕ, ◌+◌, ◌%◌, ◌^◌, ◌<◌, ◌≡◌, ◌≢◌, ◌∙◌, ap, refl, sym, arith, inl, inr, eq_or_ne}
use tsubasa.Base.Memory.{Memory, write, write_self, write_ne}
use tsubasa.HashSet.Batch.{Batch}
use tsubasa.HashSet.Batch.Lanes.{IsBatchInput, Consistent, pending, live, live_one, given, given-le}
use tsubasa.HashSet.Batch.Tally.{
  given-next, given-live, pending-held, pending-other, pending-moved, live-moved,
}
use tsubasa.HashSet.Invariant.{occurrences, IsPlaced}
use tsubasa.HashSet.Placed.{IsPlaced-unique}
use tsubasa.HashSet.Total.{total, total-write, total_some}

module _ (width : ℕ) (hash input : ℕ → ℕ) (n count batch : ℕ)
    (good : IsBatchInput hash input n count) (t : Batch)
    (c : Consistent width hash input n count batch t) (j p : ℕ) (below : j < batch)
    (inside : t.key_positions j < count) (p-lt : p < n)
    (at : t.table.key_container p ≡ input (t.key_positions j)) where
  abbrev keys : Memory
  keys = t.table.key_container

  abbrev counts : Memory
  counts = t.table.key_count_container

  abbrev pub advanced : Batch
  advanced = record t {
    table = record t.table { key_count_container = write counts p ((counts p + 1) % 2 ^ 64) };
    offsets = write t.offsets j 0;
    max_position = t.max_position + 1;
    key_positions = write t.key_positions j (t.max_position + 1);
  }

  used_there : keys p ≢ 0
  used_there e = good.nonzero (t.key_positions j) inside (sym at ∙ e)

  pub counter-next : (counts p + 1) % 2 ^ 64 ≡ counts p + 1
  counter-next =
      let bounded = total_some counts p n p-lt in
      let one = total_some (live width hash input n count batch t.key_positions) j batch below in
      let is_live = live_one width hash input n count batch t.key_positions j inside in
      mod-eq_of_lt (
        omega (
          arith,
          bounded,
          one,
          is_live,
          c.sum,
          good.small,
          given-le width hash input n count batch t.max_position,
        ))

  -- Another slot holds another key.
  different : (q : ℕ) → q < n → keys q ≢ 0 → q ≢ p → input (t.key_positions j) ≢ keys q
  different q q_below used other same = other (
      IsPlaced-unique width hash n keys (keys q) q p (c.placed q q_below used)
        (subst (λ k. IsPlaced width hash n keys k p) (at ∙ same) (c.placed p p-lt used_there)) refl
        (at ∙ same))

  -- The lanes that hold another key.
  other-pending :
      (k : ℕ)
      → input (t.key_positions j) ≢ k
      → (m : ℕ)
      → m + total (pending width hash input n count batch k t.key_positions) batch
        ≡ occurrences input k (given width hash input n count batch t.max_position)
      → m + total (pending width hash input n count batch k advanced.key_positions) batch
        ≡ occurrences input k (given width hash input n count batch advanced.max_position)
  other-pending k other m e =
      let moved =
        pending-moved width hash input n count batch good t.key_positions j (t.max_position + 1)
          below k in
      let none_there =
        pending-other width hash input n count batch good t.key_positions k j other in
      let next =
        given-next width hash input n count batch good t.key_positions j t.max_position k in
      omega (arith, moved, none_there, next, e)

  pub advanced-Consistent : Consistent width hash input n count batch advanced
  advanced-Consistent = record {
    size = c.size;
    elements = c.elements;
    infinity = c.infinity;
    placed = c.placed;
    counted = λ q q_below used. elim (eq_or_ne q p) [
      | inl e ↦
          let k = input (t.key_positions j) in
          let moved =
            pending-moved width hash input n count batch good t.key_positions j (t.max_position + 1)
              below k in
          let held = pending-held width hash input n count batch good t.key_positions j inside in
          let next =
            given-next width hash input n count batch good t.key_positions j t.max_position k in
          let old = rw at at (c.counted p p-lt used_there) in
          rw (e, write_self counts p ((counts p + 1) % 2 ^ 64), counter-next, at)
            (omega (arith, moved, held, next, old))
      | inr ne ↦ rw (write_ne counts p ((counts p + 1) % 2 ^ 64) q ne) (
          other-pending (keys q) (different q q_below used ne) (counts q)
            (c.counted q q_below used))
    ];
    absent = λ k nonzero none_there. rw zero-add at (
        other-pending k (λ e. none_there p p-lt (at ∙ e)) 0
          (rw zero-add (c.absent k nonzero none_there)));
    free = λ q q_below empty.
        write_ne counts p ((counts p + 1) % 2 ^ 64) q (λ e. used_there (ap keys (sym e) ∙ empty))
        ∙ c.free q q_below empty;
    sum =
        let moved =
          live-moved width hash input n count batch good t.key_positions j (t.max_position + 1)
            below in
        let one = live_one width hash input n count batch t.key_positions j inside in
        let next =
          given-live width hash input n count batch good t.key_positions j t.max_position in
        let counted = total-write counts p ((counts p + 1) % 2 ^ 64) n p-lt counter-next in
        omega (arith, moved, one, next, counted, c.sum);
    bounded = λ i i_below. elim (eq_or_ne i j) [
      | inl e ↦ rw (e, write_self t.key_positions j (t.max_position + 1)) (omega arith)
      | inr ne ↦
          rw (write_ne t.key_positions j (t.max_position + 1) i ne)
            (omega (arith, c.bounded i i_below))
    ];
  }
