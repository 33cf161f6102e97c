-- ===== src/HashSet/Insert.antt =====
-- Putting a key into the table keeps the invariant, whether the key is found or new.
use mathlib.Core.Path.{subst}
use native.Mathlib.Nat.{mod-lt, mod-eq_of_lt}
use native.Mathlib.Numerals.{add-one}
use tsubasa.Base.{
  ℕ, suc, ◌+◌, ◌%◌, ◌^◌, ◌≤◌, ◌<◌, ◌≡◌, ◌≢◌, ◌∙◌, ap, arith, inl, inr, lt_or_le, eq_or_ne, refl,
  sym, lt→ltb, le→ltb,
}
use tsubasa.Base.Memory.{Memory, write, write_self, write_ne}
use tsubasa.HashSet.{Histogram, offset_zero, offset_equal, idx_zero, insert}
use tsubasa.HashSet.Invariant.{
  occurrences, seq, IsSafe, IsPlaced, Holds, slot-seq, zero_found, zero_at, used_before, equal_at,
  differs_before, placed_found,
}
use tsubasa.HashSet.Placed.{
  occurrences-le, occurrences_here, occurrences_other, occurrences_next, IsPlaced-write,
  IsPlaced-unique,
}
use tsubasa.HashSet.Scan.{taken-write}
use tsubasa.HashSet.Total.{total-write}

module _ (width : ℕ) (hash_fn : ℕ → ℕ) (n : ℕ) where
  module _ (input : ℕ → ℕ) (i : ℕ) (s : Histogram) (h : Holds width hash_fn n input i s)
      (safe : IsSafe width hash_fn n (input i)) (nonzero : input i ≢ 0) (room : i < n)
      (small : suc i < 2 ^ 64) where
    abbrev key : ℕ
    key = input i

    abbrev keys : Memory
    keys = s.key_container

    abbrev counts : Memory
    counts = s.key_count_container

    abbrev z : ℕ
    z = offset_zero width hash_fn s key

    abbrev e : ℕ
    e = offset_equal width hash_fn s key

    z-lt : z < n
    z-lt = zero_found width hash_fn n s key h.size safe nonzero (omega (arith, h.room))

    -- One more occurrence does not overflow a counter.
    counter : (k c : ℕ) → c ≡ occurrences input k i → (c + 1) % 2 ^ 64 ≡ occurrences input k i + 1
    counter k c same =
        mod-eq_of_lt (omega (arith, occurrences-le input k i)) ∙ ap (λ (t : ℕ). t + 1) same

    counted_one :
        (k p : ℕ) → counts p ≡ occurrences input k i → (counts p + 1) % 2 ^ 64 ≡ counts p + 1
    counted_one k p same = mod-eq_of_lt (omega (arith, same, occurrences-le input k i))

    present_next :
        (p : ℕ) (keys' : Memory)
        → p < n
        → keys' p ≡ key
        → ((q : ℕ) → keys q ≢ 0 → keys' q ≡ keys q)
        → (k : ℕ) → k ≢ 0
        → 0 < occurrences input k (suc i)
        → (q : ℕ) × (q < n) × (keys' q ≡ k)
    present_next p keys' below at kept k used some = elim (eq_or_ne key k) [
      | inl same ↦ (p, below, at ∙ same)
      | inr other ↦
          let (q, q_below, same) =
            h.present k used (omega (arith, occurrences_other input k i other)) in
          (q, q_below, kept q (λ empty. used (sym same ∙ empty)) ∙ same)
    ]

    module _ (found : e < z) where
      abbrev p : ℕ
      p = seq width hash_fn n key e

      at_key : keys p ≡ key
      at_key = equal_at width hash_fn n s key h.size safe nonzero z-lt found

      p-lt : p < n
      p-lt = mod-lt _ (omega (arith, room))

      -- No other slot holds the key.
      different : (q : ℕ) → q < n → keys q ≢ 0 → q ≢ p → key ≢ keys q
      different q below used other same = other (
          IsPlaced-unique width hash_fn n keys (keys q) q p (h.placed q below used)
            (subst (λ k. IsPlaced width hash_fn n keys k p) (at_key ∙ same)
              (h.placed p p-lt (λ empty. nonzero (sym at_key ∙ empty))))
            refl (at_key ∙ same))

      abbrev counted_up : Histogram
      counted_up = record s { key_count_container = write counts p ((counts p + 1) % 2 ^ 64) }

      counted_up-Holds : Holds width hash_fn n input (suc i) counted_up
      counted_up-Holds = record {
        size = h.size;
        placed = h.placed;
        safe = h.safe;
        counted = λ q below used. elim (eq_or_ne q p) [
          | inl same ↦
              rw (same, write_self counts p ((counts p + 1) % 2 ^ 64))
                (counter (keys p) (counts p)
                    (h.counted p p-lt (λ empty. nonzero (sym at_key ∙ empty)))
                  ∙ sym (occurrences_here input (keys p) i (sym at_key)))
          | inr other ↦ rw (write_ne counts p ((counts p + 1) % 2 ^ 64) q other) (
              h.counted q below used
              ∙ sym (occurrences_other input (keys q) i (different q below used other)))
        ];
        free = λ q below empty.
            write_ne counts p ((counts p + 1) % 2 ^ 64) q
              (λ same. nonzero (sym at_key ∙ ap keys (sym same) ∙ empty))
            ∙ h.free q below empty;
        present = present_next p keys p-lt at_key (λ q used. refl);
        stored =
            λ q below used. omega (arith, h.stored q below used, occurrences_next input (keys q) i);
        sum =
            total-write counts p ((counts p + 1) % 2 ^ 64) n p-lt
              (counted_one (keys p) p (h.counted p p-lt (λ empty. nonzero (sym at_key ∙ empty))))
            ∙ rw h.sum (add-one i);
        distinct = h.distinct;
        room = omega (arith, h.room);
      }

    module _ (passed : z ≤ e) where
      abbrev free_at : ℕ
      free_at = seq width hash_fn n key z

      empty : keys free_at ≡ 0
      empty = zero_at width hash_fn n s key h.size safe nonzero z-lt

      free_at-lt : free_at < n
      free_at-lt = mod-lt _ (omega (arith, room))

      -- The key was in no slot, so it has not occurred.
      absent : (q : ℕ) → q < n → keys q ≢ key
      absent q below same =
          let place =
            subst (λ k. IsPlaced width hash_fn n keys k q) same
              (h.placed q below (λ none_there. nonzero (sym same ∙ none_there))) in
          omega (
            arith,
            placed_found width hash_fn n s key h.size safe nonzero q z-lt place same,
            passed,
          )

      first_time : occurrences input key i ≡ 0
      first_time = elim (lt_or_le 0 (occurrences input key i)) [
        | inl some ↦
            let (q, below, same) = h.present key nonzero some in absurd (absent q below same)
        | inr none_yet ↦ omega arith
      ]

      abbrev added : Histogram
      added = record s {
        container_distinct_count = s.container_distinct_count + 1;
        key_container = write keys free_at key;
        key_count_container = write counts free_at ((counts free_at + 1) % 2 ^ 64);
      }

      not_free : (q : ℕ) → keys q ≢ 0 → q ≢ free_at
      not_free q used same = used (ap keys same ∙ empty)

      kept : (q : ℕ) → keys q ≢ 0 → added.key_container q ≡ keys q
      kept q used = write_ne keys free_at key q (not_free q used)

      key-IsPlaced : IsPlaced width hash_fn n added.key_container key free_at
      key-IsPlaced = record {
        offset = z;
        below = z-lt;
        at = refl;
        path = λ q lo.
            let used = used_before width hash_fn n s key h.size safe nonzero q z-lt lo in
            rw (kept (seq width hash_fn n key q) used) (
              used,
              differs_before width hash_fn n s key h.size safe nonzero q z-lt
                  (omega (arith, passed)),
            );
      }

      added-Holds : Holds width hash_fn n input (suc i) added
      added-Holds = record {
        size = h.size;
        placed = λ q below used. elim (eq_or_ne q free_at) [
          | inl same ↦ rw (same, write_self keys free_at key) key-IsPlaced
          | inr other ↦
              let old = write_ne keys free_at key q other in
              rw old (
                IsPlaced-write width hash_fn n keys free_at key (keys q) q empty
                  (h.placed q below (λ none_there. used (old ∙ none_there))))
        ];
        safe = λ q below used. elim (eq_or_ne q free_at) [
          | inl same ↦ rw (same, write_self keys free_at key) safe
          | inr other ↦
              let old = write_ne keys free_at key q other in
              rw old (h.safe q below (λ none_there. used (old ∙ none_there)))
        ];
        counted = λ q below used. elim (eq_or_ne q free_at) [
          | inl same ↦
              rw
                (
                  same,
                  write_self keys free_at key,
                  write_self counts free_at ((counts free_at + 1) % 2 ^ 64),
                )
                (counter key (counts free_at) (h.free free_at free_at-lt empty ∙ sym first_time)
                  ∙ sym (occurrences_here input key i refl))
          | inr other ↦
              let old = write_ne keys free_at key q other in
              rw (old, write_ne counts free_at ((counts free_at + 1) % 2 ^ 64) q other)
                (h.counted q below (λ none_there. used (old ∙ none_there))
                  ∙ sym (occurrences_other input (keys q) i (λ same. absent q below (sym same))))
        ];
        free = λ q below free_now. elim (eq_or_ne q free_at) [
          | inl same ↦
              absurd (
                nonzero
                  (sym (ap added.key_container same ∙ write_self keys free_at key) ∙ free_now))
          | inr other ↦
              write_ne counts free_at ((counts free_at + 1) % 2 ^ 64) q other
              ∙ h.free q below (sym (write_ne keys free_at key q other) ∙ free_now)
        ];
        present =
            present_next free_at added.key_container free_at-lt (write_self keys free_at key) kept;
        stored = λ q below used. elim (eq_or_ne q free_at) [
          | inl same ↦
              rw (same, write_self keys free_at key)
                (omega (arith, occurrences_here input key i refl))
          | inr other ↦
              let old = write_ne keys free_at key q other in
              rw old (
                omega (
                  arith,
                  h.stored q below (λ none_there. used (old ∙ none_there)),
                  occurrences_next input (keys q) i,
                ))
        ];
        sum =
            total-write counts free_at ((counts free_at + 1) % 2 ^ 64) n free_at-lt
              (counted_one key free_at (h.free free_at free_at-lt empty ∙ sym first_time))
            ∙ rw h.sum (add-one i);
        distinct =
            ap (λ (t : ℕ). t + 1) h.distinct
            ∙ sym (taken-write keys free_at key n free_at-lt empty nonzero);
        room = omega (arith, h.room, taken-write keys free_at key n free_at-lt empty nonzero);
      }

    idx_zero_at : idx_zero width hash_fn s key ≡ seq width hash_fn n key z
    unfolding idx_zero
    idx_zero_at =
        rw (lt→ltb z s.container_size (omega (arith, h.size, z-lt)))
          (slot-seq width hash_fn n s key z h.size safe z-lt)

    -- Both branches of the body.
    pub insert-Holds : Holds width hash_fn n input (suc i) (insert width hash_fn s key)
    unfolding insert
    insert-Holds = elim (lt_or_le e z) [
      | inl found ↦
          rw
            (
              lt→ltb e z found,
              slot-seq width hash_fn n s key e h.size safe (omega (arith, found, z-lt)),
            )
            (counted_up-Holds found)
      | inr passed ↦ rw (le→ltb e z passed, idx_zero_at) (added-Holds passed)
    ]
