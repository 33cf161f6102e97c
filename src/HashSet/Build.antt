-- ===== src/HashSet/Build.antt =====
-- What the table answers after it has been built.
use tsubasa.Base.{
  ℕ, ◌+◌, ◌%◌, ◌^◌, ◌≤◌, ◌<◌, ◌≡◌, ◌≢◌, ◌∙◌, ap, Bool, false, ◌==◌, arith, inl, inr, lt_or_le,
  Bool-cases, sym, ◌⊎◌, ==_iff, lt→ltb, le→ltb, ◌||◌,
}
use mathlib.Core.Path.{subst}
use native.Mathlib.Nat.{mod-lt, mod-eq_of_lt}
use native.Mathlib.Numerals.{add-one}
use tsubasa.Base.Loop.{for_range_inv}
use tsubasa.Base.Memory.{Memory}
use tsubasa.HashSet.{
  Histogram, first_index, insert, build_scalar_elem, probe, probe_slot, get_count_of, probe_count,
}
use tsubasa.HashSet.Insert.{insert-Holds}
use tsubasa.HashSet.Invariant.{occurrences, ==_ne, ne_of_==, seq, IsSafe, IsPlaced, Holds}
use tsubasa.HashSet.Scan.{IsFirst, first_index-IsFirst, IsFirst_unique, reach, taken, taken_none}
use tsubasa.HashSet.Total.{total_none}

-- A table as the constructor leaves it, with `n` slots.
pub record IsEmpty (n : ℕ) (s : Histogram) : Type 0 where
  pub size : s.container_size ≡ n
  pub infinity : s.container_infinity_value ≡ n + 1
  pub no_keys : (p : ℕ) → s.key_container p ≡ 0
  pub no_counts : (p : ℕ) → s.key_count_container p ≡ 0
  pub none_distinct : s.container_distinct_count ≡ 0

module _ (width : ℕ) (hash_fn : ℕ → ℕ) (n : ℕ) (input : ℕ → ℕ) where
  empty-Holds : (s : Histogram) → IsEmpty n s → Holds width hash_fn n input 0 s
  unfolding occurrences
  empty-Holds s empty = record {
    size = empty.size;
    placed = λ p below used. absurd (used (empty.no_keys p));
    safe = λ p below used. absurd (used (empty.no_keys p));
    counted = λ p below used. absurd (used (empty.no_keys p));
    free = λ p below e. empty.no_counts p;
    present = λ k used some. absurd (omega arith);
    stored = λ p below used. absurd (used (empty.no_keys p));
    sum = total_none s.key_count_container n empty.no_counts;
    distinct = empty.none_distinct ∙ sym (taken_none s.key_container n empty.no_keys);
    room = omega (arith, taken_none s.key_container n empty.no_keys);
  }

  -- The keys that are put in: none is 0, none is hashed so high that a slot number wraps, and
  -- there are no more of them than slots.
  pub record IsInput (count : ℕ) : Type 0 where
    pub nonzero : (i : ℕ) → i < count → input i ≢ 0
    pub safe : (i : ℕ) → i < count → IsSafe width hash_fn n (input i)
    pub room : count ≤ n
    pub small : count < 2 ^ 64

  abbrev built : Histogram → Histogram
  built s = build_scalar_elem width hash_fn input s

  pub build-Holds :
      (s : Histogram)
      → IsEmpty n s
      → IsInput s.element_count
      → Holds width hash_fn n input s.element_count (built s)
        × ((built s).container_infinity_value ≡ n + 1)
  unfolding build_scalar_elem
  build-Holds s empty good =
      for_range_inv
        (λ i (t : Histogram).
          Holds width hash_fn n input i t × (t.container_infinity_value ≡ n + 1))
        (λ i t. insert width hash_fn t (input i)) s.element_count 0 s.element_count (omega arith)
        (λ i t lo hi p. (
          rw (add-one i) (
              insert-Holds width hash_fn n input i t p.0 (good.safe i hi) (good.nonzero i hi)
                (omega (arith, good.room)) (omega (arith, good.small))),
          unfold insert in ground (arith, p.1),
        ))
        s (empty-Holds s empty, empty.infinity)

  -- The hash is taken of the key alone.
  pub probe_count_congr :
      (inline : ℕ → ℕ) (s : Histogram) (key : ℕ)
      → inline key ≡ hash_fn key
      → probe_count width inline s key ≡ probe_count width hash_fn s key
  unfolding probe_count
  probe_count_congr inline s key same = rw same

  module _ (count : ℕ) (s : Histogram) (h : Holds width hash_fn n input count s) (key : ℕ)
      (nonzero : key ≢ 0) (hashed : hash_fn key + n ≤ 2 ^ 64) where
    abbrev keys : Memory
    keys = s.key_container

    pub probe_slot-seq :
        (o : ℕ) → o < n → probe_slot width hash_fn s key o ≡ seq width hash_fn n key o
    probe_slot-seq o below =
        ap (λ (t : ℕ). t % s.container_size) (mod-eq_of_lt (omega (arith, hashed)))
        ∙ ap (λ (t : ℕ). (hash_fn key + o) % t) h.size

    pub key_counted :
        (p : ℕ) → p < n → keys p ≡ key → s.key_count_container p ≡ occurrences input key count
    key_counted p below at =
        h.counted p below (λ empty. nonzero (sym at ∙ empty))
        ∙ ap (λ (k : ℕ). occurrences input k count) at

    pub key_absent : ((p : ℕ) → p < n → keys p ≢ key) → occurrences input key count ≡ 0
    key_absent none_at = elim (lt_or_le 0 (occurrences input key count)) [
      | inl some ↦ let (p, below, at) = h.present key nonzero some in absurd (none_at p below at)
      | inr none_yet ↦ omega arith
    ]

    abbrev pub o : ℕ
    o = first_index (λ o. keys (probe_slot width hash_fn s key o) == key) s.container_size 0

    pub first : IsFirst (λ o. keys (probe_slot width hash_fn s key o) == key) 0 s.container_size o
    first =
        first_index-IsFirst (λ o. keys (probe_slot width hash_fn s key o) == key) s.container_size 0
          s.container_size (omega arith)

    pub passed_absent : s.container_size ≤ o → (p : ℕ) → p < n → keys p ≢ key
    passed_absent passed p below at =
        let (q, q_below, reached) = reach (hash_fn key) n p below in
        ne_of_== _ _ (first.before q (omega arith) (omega (arith, passed, h.size)))
          (ap keys (probe_slot-seq q q_below ∙ reached) ∙ at)

    -- `probe` visits every slot, so it finds the key wherever it stands.
    pub get_count_of-Holds :
        s.container_infinity_value ≡ n + 1
        → get_count_of width hash_fn s key ≡ occurrences input key count
    unfolding get_count_of probe
    get_count_of-Holds infinity = elim (lt_or_le o s.container_size) [
      | inl found ↦
          let below : probe_slot width hash_fn s key o < n =
            rw (probe_slot-seq o (omega (arith, found, h.size)))
              (mod-lt _ (omega (arith, found, h.size))) in
          rw
            (
              lt→ltb o s.container_size found,
              lt→ltb (probe_slot width hash_fn s key o) s.container_infinity_value (omega arith),
            )
            (key_counted (probe_slot width hash_fn s key o) below
              ((==_iff _ _).0 (first.hit found)))
      | inr passed ↦
          rw
            (
              le→ltb o s.container_size passed,
              le→ltb s.container_infinity_value s.container_infinity_value (omega arith),
            )
            (sym (key_absent (passed_absent passed)))
    ]

    abbrev stop : ℕ → Bool
    stop o =
        keys (probe_slot width hash_fn s key o) == key
        || keys (probe_slot width hash_fn s key o) == 0

    abbrev stopped : ℕ
    stopped = first_index stop s.container_size 0

    stop_first : IsFirst stop 0 s.container_size stopped
    stop_first = first_index-IsFirst stop s.container_size 0 s.container_size (omega arith)

    -- On the way to a key there is no free slot.
    stopped_at :
        (p : ℕ)
        → p < n
        → keys p ≡ key
        → (place : IsPlaced width hash_fn n keys key p) × (stopped ≡ place.offset)
    stopped_at p below at =
        let place : IsPlaced width hash_fn n keys key p =
          subst (λ k. IsPlaced width hash_fn n keys k p) at
            (h.placed p below (λ empty. nonzero (sym at ∙ empty))) in
        (
          place,
          IsFirst_unique place.offset stop_first (omega (arith, place.below, h.size))
              (rw (probe_slot-seq place.offset place.below, place.at, at) (ground arith))
              (λ q lo. rw (
                probe_slot-seq q (omega (arith, place.below)),
                ==_ne _ _ (place.path q lo).1,
                ==_ne _ _ (place.path q lo).0,
              )),
        )

    -- Where the loop does not stop at the key, the key is nowhere.
    not_stopped :
        (s.container_size ≤ stopped)
          ⊎ ((keys (probe_slot width hash_fn s key stopped) == key) ≡ false)
        → (p : ℕ) → p < n
        → keys p ≢ key
    not_stopped missed p below at =
        let (place, e) = stopped_at p below at in
        elim missed [
          | inl over ↦ omega (arith, over, e, place.below, h.size)
          | inr other ↦ ne_of_== _ _ other (
              ap (λ (t : ℕ). keys (probe_slot width hash_fn s key t)) e
              ∙ ap keys (probe_slot-seq place.offset place.below ∙ place.at)
              ∙ at)
        ]

    -- `probe_count_vectorized` gives the same count, though it stops at the first free slot.
    pub probe_count-Holds : probe_count width hash_fn s key ≡ occurrences input key count
    unfolding probe_count
    probe_count-Holds = elim (lt_or_le stopped s.container_size) [
      | inr over ↦
          rw (le→ltb stopped s.container_size over) (sym (key_absent (not_stopped (inl over))))
      | inl inside ↦ elim (Bool-cases (keys (probe_slot width hash_fn s key stopped) == key)) [
        | inr other ↦
            rw (lt→ltb stopped s.container_size inside, other)
              (sym (key_absent (not_stopped (inr other))))
        | inl hit ↦
            rw (lt→ltb stopped s.container_size inside, hit)
              (key_counted (probe_slot width hash_fn s key stopped)
                (rw (probe_slot-seq stopped (omega (arith, inside, h.size)))
                  (mod-lt _ (omega (arith, inside, h.size))))
                ((==_iff _ _).0 hit))
      ]
    ]

  -- After the keys have been put in, `get_count( key )` is the number of times that the key occurs
  -- among them, and so is `probe_count_vectorized( key )`, if its own hash agrees on the key; and
  -- `container_distinct_count` is the number of slots in use.
  pub counts-build :
      (inline : ℕ → ℕ) (s : Histogram) (key : ℕ)
      → IsEmpty n s
      → IsInput s.element_count
      → key ≢ 0
      → hash_fn key + n ≤ 2 ^ 64
      → inline key ≡ hash_fn key
      → (get_count_of width hash_fn (built s) key ≡ occurrences input key s.element_count)
        × (probe_count width inline (built s) key ≡ occurrences input key s.element_count)
        × ((built s).container_distinct_count ≡ taken (built s).key_container n)
  counts-build inline s key empty good nonzero hashed same =
      let (h, infinity) = build-Holds s empty good in
      (
        get_count_of-Holds s.element_count (built s) h key nonzero hashed infinity,
        probe_count_congr inline (built s) key same
            ∙ probe_count-Holds s.element_count (built s) h key nonzero hashed,
        h.distinct,
      )
