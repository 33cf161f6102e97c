-- ===== src/HashSet/Batch/Lanes.antt =====
-- What holds between two rounds of a batch build. A lane is one of the keys in flight; it is live
-- while its position is that of a key.
use tsubasa.Base.{
  ℕ, ◌+◌, ◌-◌, ◌*◌, ◌%◌, ◌^◌, ◌≤◌, ◌<◌, ◌≡◌, ◌≢◌, ◌∙◌, ap, refl, Bool, true, ltb, ◌==◌,
  if◌then◌else◌, arith, inl, inr, lt_or_le, eq_or_ne, ◌⊎◌, lt→ltb, Bool-cases,
}
use native.Mathlib.Nat.{mod-eq_of_lt}
use tsubasa.Base.Memory.{Memory}
use tsubasa.HashSet.{Histogram, probe_slot}
use tsubasa.HashSet.Batch.{Batch, is_active}
use tsubasa.HashSet.Invariant.{occurrences, seq, IsPlaced}
use tsubasa.HashSet.Scan.{taken, free_slot, reach}
use tsubasa.HashSet.Total.{total, total_some, taken-total}

-- The input keys: none is 0, none is hashed so high that a slot number wraps, and there are no more
-- of them than slots.
pub record IsBatchInput (hash input : ℕ → ℕ) (n count : ℕ) : Type 0 where
  pub nonzero : (i : ℕ) → i < count → input i ≢ 0
  pub safe : (i : ℕ) → i < count → hash (input i) + n ≤ 2 ^ 64
  pub room : count ≤ n
  pub small : count < 2 ^ 64

module _ (width : ℕ) (hash input : ℕ → ℕ) (n count batch : ℕ) where
  -- The live lanes that hold key `k`, all live lanes, and the slots that they have not looked at.
  unfoldable pub pending : ℕ → Memory → ℕ → ℕ
  pending k positions i =
      if ltb (positions i) count then (if input (positions i) == k then 1 else 0) else 0

  unfoldable pub live : Memory → ℕ → ℕ
  live positions i = if ltb (positions i) count then 1 else 0

  unfoldable pub unseen : Memory → Memory → ℕ → ℕ
  unseen positions offsets i = if ltb (positions i) count then n - offsets i else 0

  -- How many keys lanes have been given, when the last position given is `max`.
  unfoldable pub given : ℕ → ℕ
  given max = if ltb max count then max + 1 else count

  -- The slots that lanes have yet to look at, at most.
  unfoldable pub work : Batch → ℕ
  work b = total (unseen b.key_positions b.offsets) batch + (count - given b.max_position) * n

  -- The slots that a lane has passed hold other keys.
  abbrev pub Passed : Memory → Memory → Memory → ℕ → Type 0
  Passed keys positions offsets i =
      positions i < count
      → (q : ℕ) → q < offsets i
      → (keys (seq width hash n (input (positions i)) q) ≢ 0)
        × (keys (seq width hash n (input (positions i)) q) ≢ input (positions i))

  -- What holds at any time of the keys and the counters.
  pub record Consistent (b : Batch) : Type 0 where
    pub size : b.table.container_size ≡ n
    pub elements : b.table.element_count ≡ count
    pub infinity : b.table.container_infinity_value ≡ n + 1
    pub placed :
        (p : ℕ)
        → p < n
        → b.table.key_container p ≢ 0
        → IsPlaced width hash n b.table.key_container (b.table.key_container p) p
    pub counted :
        (p : ℕ)
        → p < n
        → b.table.key_container p ≢ 0
        → b.table.key_count_container p
            + total (pending (b.table.key_container p) b.key_positions) batch
          ≡ occurrences input (b.table.key_container p) (given b.max_position)
    pub absent :
        (k : ℕ)
        → k ≢ 0
        → ((p : ℕ) → p < n → b.table.key_container p ≢ k)
        → total (pending k b.key_positions) batch ≡ occurrences input k (given b.max_position)
    pub free : (p : ℕ) → p < n → b.table.key_container p ≡ 0 → b.table.key_count_container p ≡ 0
    pub sum :
        total b.table.key_count_container n + total (live b.key_positions) batch
        ≡ given b.max_position
    pub bounded : (i : ℕ) → i < batch → b.key_positions i ≤ b.max_position

  pub record Steady (b : Batch) : Type 0 where
    pub consistent : Consistent b
    pub passed : (i : ℕ) → i < batch → Passed b.table.key_container b.key_positions b.offsets i
    pub positive : (p : ℕ) → p < n → b.table.key_container p ≢ 0 → 0 < b.table.key_count_container p

  pub given-le : (max : ℕ) → given max ≤ count
  unfolding given
  given-le max = ground arith

  pub live_one : (positions : Memory) (i : ℕ) → positions i < count → live positions i ≡ 1
  unfolding live
  live_one positions i h = ground (arith, h)

  pub live_none : (positions : Memory) (i : ℕ) → count ≤ positions i → live positions i ≡ 0
  unfolding live
  live_none positions i h = ground (arith, h)

  -- Behind the slots that a live lane has passed there is another.
  pub offset-lt :
      IsBatchInput hash input n count
      → (b : Batch) → Steady b
      → (i : ℕ) → i < batch
      → b.key_positions i < count
      → b.offsets i < n
  offset-lt good b steady i below h =
      let c = steady.consistent in
      let one = total_some (live b.key_positions) i batch below in
      let some_free : taken b.table.key_container n < n = omega (
        arith,
        taken-total b.table.key_container b.table.key_count_container n steady.positive,
        c.sum,
        given-le b.max_position,
        one,
        live_one b.key_positions i h,
        good.room,
      ) in
      let (p, p_below, empty) = free_slot b.table.key_container n some_free in
      let (o, o_below, at) = reach (hash (input (b.key_positions i))) n p p_below in
      elim (lt_or_le (b.offsets i) n) [
        | inl inside ↦ inside
        | inr over ↦ absurd (
            (steady.passed i below h o (omega (arith, over, o_below))).0
              (ap b.table.key_container at ∙ empty))
      ]

  pub probe_slot-seq :
      (s : Histogram) (key o : ℕ)
      → s.container_size ≡ n
      → hash key + n ≤ 2 ^ 64
      → o < n
      → probe_slot width hash s key o ≡ seq width hash n key o
  probe_slot-seq s key o size safe below =
      ap (λ (t : ℕ). t % s.container_size) (mod-eq_of_lt (omega (arith, safe, below)))
      ∙ ap (λ (t : ℕ). (hash key + o) % t) size

  -- The first loop may leave the test out, since all its lanes are live.
  unfoldable pub Checks : Bool → Batch → Type 0
  Checks checked b = (checked ≡ true) ⊎ ((i : ℕ) → i < batch → b.key_positions i < count)

  pub is_active-live :
      (checked : Bool) (b t : Batch) (i : ℕ)
      → Checks checked b
      → t.table.element_count ≡ count
      → t.key_positions i ≡ b.key_positions i
      → i < batch
      → is_active checked t i ≡ ltb (b.key_positions i) count
  unfolding Checks
  is_active-live checked b t i checks elements same below = elim checks [
    | inl e ↦ rw (e, elements, same) refl
    | inr all_live ↦ elim (Bool-cases checked) [
      | inl e ↦ rw (e, elements, same) refl
      | inr e ↦ rw (e, lt→ltb (b.key_positions i) count (all_live i below)) refl
    ]
  ]

  -- A live lane among the first ones is not the last of them if that one is not live.
  pub earlier_lane :
      (b : Batch) (i j : ℕ)
      → i < j + 1
      → b.key_positions i < count
      → count ≤ b.key_positions j
      → i < j
  earlier_lane b i j lo h over = elim (eq_or_ne i j) [
    | inl e ↦ absurd (omega (arith, rw e at h, over))
    | inr ne ↦ omega (arith, lo, ne)
  ]
