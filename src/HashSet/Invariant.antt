-- ===== src/HashSet/Invariant.antt =====
-- The invariant of the table while keys are put in, and what the two loops of `insert` find.
use native.Mathlib.Nat.{mod-eq_of_lt}
use tsubasa.Base.{
  ℕ, zero, suc, ◌+◌, ◌%◌, ◌^◌, ◌≤◌, ◌<◌, ◌≡◌, ◌≢◌, ◌∙◌, ap, false, ◌==◌, if◌then◌else◌, arith, inl,
  inr, lt_or_le, sym, ==_iff,
}
use tsubasa.Base.Memory.{Memory}
use tsubasa.HashSet.{Histogram, slot, offset_zero, offset_equal}
use tsubasa.HashSet.Scan.{IsFirst, first_index-IsFirst, reach, taken, free_slot}
use tsubasa.HashSet.Total.{total}

-- How often `k` is among the first `i` keys.
unfoldable pub occurrences : (ℕ → ℕ) → ℕ → ℕ → ℕ
occurrences input k zero = 0
occurrences input k (suc i) = occurrences input k i + (if input i == k then 1 else 0)

pub ==_ne : (a b : ℕ) → a ≢ b → (a == b) ≡ false
==_ne a b h = ground arith

pub ne_of_== : (a b : ℕ) → (a == b) ≡ false → a ≢ b
ne_of_== a b h = ground arith

module _ (width : ℕ) (hash_fn : ℕ → ℕ) (n : ℕ) where
  -- The slots that are probed for a key, when no sum wraps.
  abbrev pub seq : ℕ → ℕ → ℕ
  seq key o = (hash_fn key + o) % n

  abbrev pub IsSafe : ℕ → Type 0
  IsSafe key = hash_fn key + n ≤ 2 ^ width

  -- Key `k` stands in slot `p`, behind slots that other keys take.
  pub record IsPlaced (keys : Memory) (k p : ℕ) : Type 0 where
    pub offset : ℕ
    pub below : offset < n
    pub at : seq k offset ≡ p
    pub path : (q : ℕ) → q < offset → (keys (seq k q) ≢ 0) × (keys (seq k q) ≢ k)

  -- The table after the first `i` keys.
  pub record Holds (input : ℕ → ℕ) (i : ℕ) (s : Histogram) : Type 0 where
    pub size : s.container_size ≡ n
    pub placed :
        (p : ℕ) → p < n → s.key_container p ≢ 0 → IsPlaced s.key_container (s.key_container p) p
    pub safe : (p : ℕ) → p < n → s.key_container p ≢ 0 → IsSafe (s.key_container p)
    pub counted :
        (p : ℕ)
        → p < n
        → s.key_container p ≢ 0
        → s.key_count_container p ≡ occurrences input (s.key_container p) i
    pub free : (p : ℕ) → p < n → s.key_container p ≡ 0 → s.key_count_container p ≡ 0
    pub present :
        (k : ℕ) → k ≢ 0 → 0 < occurrences input k i → (p : ℕ) × (p < n) × (s.key_container p ≡ k)
    pub stored :
        (p : ℕ) → p < n → s.key_container p ≢ 0 → 0 < occurrences input (s.key_container p) i
    pub sum : total s.key_count_container n ≡ i
    pub distinct : s.container_distinct_count ≡ taken s.key_container n
    pub room : taken s.key_container n ≤ i

  pub slot-seq :
      (s : Histogram) (key o : ℕ)
      → s.container_size ≡ n
      → IsSafe key
      → o < n
      → slot width hash_fn s key o ≡ seq key o
  slot-seq s key o size safe below =
      ap (λ (t : ℕ). t % s.container_size) (mod-eq_of_lt (omega (arith, safe)))
      ∙ ap (λ (t : ℕ). (hash_fn key + o) % t) size

  module _ (s : Histogram) (key : ℕ) (size : s.container_size ≡ n) (safe : IsSafe key)
      (nonzero : key ≢ 0) where
    abbrev keys : Memory
    keys = s.key_container

    abbrev z : ℕ
    z = offset_zero width hash_fn s key

    abbrev e : ℕ
    e = offset_equal width hash_fn s key

    zero_first : IsFirst (λ o. keys (slot width hash_fn s key o) == 0) 0 s.container_size z
    unfolding offset_zero
    zero_first =
        first_index-IsFirst (λ o. keys (slot width hash_fn s key o) == 0) s.container_size 0
          s.container_size (omega arith)

    equal_first : IsFirst (λ o. keys (slot width hash_fn s key o) == key) 0 z e
    unfolding offset_equal
    equal_first =
        first_index-IsFirst (λ o. keys (slot width hash_fn s key o) == key) z 0 z (omega arith)

    -- With a free slot somewhere the first loop stops at a free slot, behind slots in use.
    pub zero_found : taken keys n < n → z < n
    zero_found some_free =
        let (p, below, empty) = free_slot keys n some_free in
        let (o, o_below, at) = reach (hash_fn key) n p below in
        elim (lt_or_le z n) [
          | inl h ↦ h
          | inr h ↦ absurd (
              ne_of_== _ _ (zero_first.before o (omega arith) (omega arith))
                (ap keys (slot-seq s key o size safe o_below ∙ at) ∙ empty))
        ]

    pub zero_at : z < n → keys (seq key z) ≡ 0
    zero_at h =
        ap keys (sym (slot-seq s key z size safe h))
        ∙ (==_iff _ _).0 (zero_first.hit (omega (arith, size)))

    pub used_before : (q : ℕ) → z < n → q < z → keys (seq key q) ≢ 0
    used_before q h lo empty =
        ne_of_== _ _ (zero_first.before q (omega arith) lo)
          (ap keys (slot-seq s key q size safe (omega arith)) ∙ empty)

    -- The second loop stops at the key, if it stops early.
    pub equal_at : z < n → e < z → keys (seq key e) ≡ key
    equal_at h lo =
        ap keys (sym (slot-seq s key e size safe (omega arith)))
        ∙ (==_iff _ _).0 (equal_first.hit lo)

    pub differs_before : (q : ℕ) → z < n → q < e → keys (seq key q) ≢ key
    differs_before q h lo same =
        ne_of_== _ _ (equal_first.before q (omega arith) lo)
          (ap keys (slot-seq s key q size safe (omega (arith, equal_first.high))) ∙ same)

    -- A key that is in the table is found.
    pub placed_found : (p : ℕ) → z < n → IsPlaced keys key p → keys p ≡ key → e < z
    placed_found p h place same = elim (lt_or_le place.offset z) [
      | inl early ↦ elim (lt_or_le e z) [
        | inl found ↦ found
        | inr passed ↦
            absurd (differs_before place.offset h (omega arith) (ap keys place.at ∙ same))
      ]
      | inr late ↦ elim (lt_or_le z place.offset) [
        | inl after ↦ absurd ((place.path z after).0 (zero_at h))
        | inr same_offset ↦
            let eq : place.offset ≡ z = omega arith in
            absurd (nonzero (sym same ∙ ap keys (sym place.at ∙ ap (seq key) eq) ∙ zero_at h))
      ]
    ]
