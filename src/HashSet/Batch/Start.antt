-- ===== src/HashSet/Batch/Start.antt =====
-- The invariant before the first round, and the two loops of rounds.
use tsubasa.Base.{
  ℕ, zero, suc, ◌+◌, ◌-◌, ◌*◌, ◌≤◌, ◌<◌, ◌≡◌, ◌∙◌, ap, refl, sym, ltb, if◌then◌else◌, arith, inl,
  inr, lt_or_le, lt→ltb, le→ltb,
}
use native.Mathlib.Nat.{zero-add, add-mul}
use tsubasa.HashSet.{Histogram}
use tsubasa.HashSet.Batch.{start_batch}
use tsubasa.HashSet.Batch.Lanes.{Steady, pending, live, unseen, given, work}
use tsubasa.HashSet.Build.{IsEmpty}
use tsubasa.HashSet.Invariant.{occurrences}
use tsubasa.HashSet.Total.{total, total_none}

module _ (width : ℕ) (hash input : ℕ → ℕ) (n count batch : ℕ) where
  abbrev least : ℕ → ℕ
  least m = if ltb m count then m else count

  least-inside : (m : ℕ) → m < count → (least m ≡ m) × (least (suc m) ≡ suc m)
  least-inside m h = (ground (arith, h), ground (arith, h))

  least-over : (m : ℕ) → count ≤ m → (least m ≡ count) × (least (suc m) ≡ count)
  least-over m h = (ground (arith, h), ground (arith, h))

  least-zero : least 0 ≡ 0
  least-zero = ground arith

  start-live : (m : ℕ) → total (live width hash input n count batch (λ i. i)) m ≡ least m
  unfolding total live
  start-live zero = ground arith
  start-live (suc m) = ground (arith, start-live m)

  start-pending :
      (k m : ℕ)
      → total (pending width hash input n count batch k (λ i. i)) m ≡ occurrences input k (least m)
  unfolding total pending occurrences
  start-pending k zero = rw least-zero refl
  start-pending k (suc m) = elim (lt_or_le m count) [
    | inl more ↦
        let (e, e') = least-inside m more in rw (e', lt→ltb m count more, start-pending k m, e) refl
    | inr last ↦
        let (e, e') = least-over m last in
        rw (e', le→ltb m count last, start-pending k m, e) (omega arith)
  ]

  start-unseen :
      (m : ℕ) → total (unseen width hash input n count batch (λ i. i) (λ i. 0)) m ≡ least m * n
  unfolding total unseen
  start-unseen zero = rw least-zero (omega arith)
  start-unseen (suc m) = elim (lt_or_le m count) [
    | inl more ↦
        let (e, e') = least-inside m more in
        rw (e', lt→ltb m count more, start-unseen m, e) (grind arith)
    | inr last ↦
        let (e, e') = least-over m last in
        rw (e', le→ltb m count last, start-unseen m, e) (omega arith)
  ]

  start-given : 0 < batch → given width hash input n count batch (batch - 1) ≡ least batch
  unfolding given
  start-given h = ground (arith, h)

  pub start-Steady :
      (s : Histogram)
      → IsEmpty n s
      → s.element_count ≡ count
      → 0 < batch
      → Steady width hash input n count batch (start_batch width hash input batch s)
  start-Steady s empty elements some_lanes = record {
    consistent = record {
      size = empty.size;
      elements = elements;
      infinity = empty.infinity;
      placed = λ p below used. absurd (used (empty.no_keys p));
      counted = λ p below used. absurd (used (empty.no_keys p));
      absent = λ k nonzero none_there. rw (start-given some_lanes) (start-pending k batch);
      free = λ p below e. empty.no_counts p;
      sum =
          rw (start-given some_lanes, total_none s.key_count_container n empty.no_counts, zero-add)
            (start-live batch);
      bounded = λ i below. omega (arith, below);
    };
    passed = λ i below h q lo. absurd (omega (arith, lo));
    positive = λ p below used. absurd (used (empty.no_keys p));
  }

  pub start-work :
      (s : Histogram)
      → 0 < batch
      → work width hash input n count batch (start_batch width hash input batch s) ≡ count * n
  unfolding work
  start-work s some_lanes =
      let fits : least batch ≤ count = ground arith in
      let sum : least batch + (count - least batch) ≡ count = omega (arith, fits) in
      rw (start-given some_lanes, start-unseen batch)
        (sym (add-mul (least batch) (count - least batch) n) ∙ ap (λ (t : ℕ). t * n) sum)
