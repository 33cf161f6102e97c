-- ===== src/HashSet/Batch/Answers.antt =====
-- What a table that was built in batches answers.
use tsubasa.Base.{
  ℕ, zero, suc, ◌+◌, ◌*◌, ◌/◌, ◌%◌, ◌^◌, ◌≤◌, ◌<◌, ◌≡◌, ◌≢◌, ◌∙◌, ap, refl, sym, some, arith, inl,
  inr, ◌⊎◌, lt_or_le, eq_or_ne, le→ltb,
}
use tsubasa.Base.Memory.{Memory}
use tsubasa.Base.Power.{two-pow-le}
use tsubasa.HashSet.{Histogram, construct, get_count_of, probe, probe_count}
use tsubasa.HashSet.Batch.{Batch, build_scalar_batch, build_vectorized_batch}
use tsubasa.HashSet.Batch.Built.{build_scalar_batch-ends}
use tsubasa.HashSet.Batch.Lanes.{IsBatchInput, Steady, pending, live, live_one, given}
use tsubasa.HashSet.Build.{get_count_of-Holds, probe_count-Holds, probe_count_congr}
use tsubasa.HashSet.Counts.{slots-le, construct-IsEmpty, table, counts-construct}
use tsubasa.HashSet.Invariant.{occurrences, Holds, IsPlaced, seq}
use tsubasa.HashSet.Scan.{taken}
use tsubasa.HashSet.Total.{total, total-same, total_some, taken-total}

find_slot :
    (keys : Memory) (n k : ℕ) → ((p : ℕ) × (p < n) × (keys p ≡ k)) ⊎ ((p : ℕ) → p < n → keys p ≢ k)
find_slot keys zero k = inr (λ p below. absurd (omega (arith, below)))
find_slot keys (suc n) k = elim (eq_or_ne (keys n) k) [
  | inl e ↦ inl (n, omega arith, e)
  | inr ne ↦ elim (find_slot keys n k) [
    | inl (p, below, e) ↦ inl (p, omega (arith, below), e)
    | inr none_there ↦ inr (λ p below e. elim (eq_or_ne p n) [
      | inl last ↦ ne (ap keys (sym last) ∙ e)
      | inr other ↦ none_there p (omega (arith, below, other)) e
    ])
  ]
]

occurrences-some :
    (input : ℕ → ℕ) (k m : ℕ) → 0 < occurrences input k m → (i : ℕ) × (i < m) × (input i ≡ k)
unfolding occurrences
occurrences-some input k zero h = absurd (omega (arith, h))
occurrences-some input k (suc m) h = elim (eq_or_ne (input m) k) [
  | inl e ↦ (m, omega arith, e)
  | inr ne ↦
      let (i, below, e) = occurrences-some input k m (ground (arith, h, ne)) in
      (i, omega (arith, below), e)
]

module _ (width : ℕ) (hash hash_fn input : ℕ → ℕ) (n count batch : ℕ)
    (same : (i : ℕ) → i < count → hash (input i) ≡ hash_fn (input i))
    (safe : (i : ℕ) → i < count → hash_fn (input i) + n ≤ 2 ^ width) (u : Batch)
    (steady : Steady width hash input n count batch u) (over : count ≤ u.max_position)
    (idle : total (live width hash input n count batch u.key_positions) batch ≡ 0) where
  abbrev keys : Memory
  keys = u.table.key_container

  given-all : given width hash input n count batch u.max_position ≡ count
  unfolding given
  given-all = rw (le→ltb u.max_position count over) refl

  pending-none :
      (k : ℕ) → total (pending width hash input n count batch k u.key_positions) batch ≡ 0
  unfolding pending
  pending-none k =
      total-same (live width hash input n count batch u.key_positions)
        (pending width hash input n count batch k u.key_positions) batch
        (λ i below.
          let some =
            total_some (live width hash input n count batch u.key_positions) i batch below in
          elim (lt_or_le (u.key_positions i) count) [
            | inl inside ↦ absurd (
                omega (
                  arith,
                  some,
                  idle,
                  live_one width hash input n count batch u.key_positions i inside,
                ))
            | inr dead ↦ rw (le→ltb (u.key_positions i) count dead) (omega (arith, some, idle))
          ])
      ∙ idle

  counter :
      (p : ℕ)
      → p < n
      → keys p ≢ 0
      → u.table.key_count_container p ≡ occurrences input (keys p) count
  counter p below used =
      omega (arith, rw given-all at (steady.consistent.counted p below used), pending-none (keys p))

  input-at : (p : ℕ) → p < n → keys p ≢ 0 → (i : ℕ) × (i < count) × (input i ≡ keys p)
  input-at p below used =
      occurrences-some input (keys p) count
        (omega (arith, counter p below used, steady.positive p below used))

  rehashed : (p : ℕ) → p < n → keys p ≢ 0 → IsPlaced width hash_fn n keys (keys p) p
  rehashed p below used =
      let place = steady.consistent.placed p below used in
      let (i, i_below, e) = input-at p below used in
      let agree : hash (keys p) ≡ hash_fn (keys p) = rw e at (same i i_below) in
      let seq_same : (q : ℕ) → seq width hash_fn n (keys p) q ≡ seq width hash n (keys p) q =
        λ q. ap (λ (t : ℕ). (t + q) % n) (sym agree) in
      record {
        offset = place.offset;
        below = place.below;
        at = seq_same place.offset ∙ place.at;
        path = λ q lo. rw (seq_same q) (place.path q lo);
      }

  -- The counter of distinct keys is not kept.
  abbrev pub recounted : Histogram
  recounted = record u.table { container_distinct_count = taken keys n }

  pub recounted-Holds : Holds width hash_fn n input count recounted
  recounted-Holds = record {
    size = steady.consistent.size;
    placed = rehashed;
    safe = λ p below used. let (i, i_below, e) = input-at p below used in rw e at (safe i i_below);
    counted = counter;
    free = steady.consistent.free;
    present = λ k used some_times. elim (find_slot keys n k) [
      | inl found ↦ found
      | inr none_there ↦ absurd (
          omega (
            arith,
            rw given-all at (steady.consistent.absent k used none_there),
            pending-none k,
            some_times,
          ))
    ];
    stored = λ p below used. omega (arith, counter p below used, steady.positive p below used);
    sum = omega (arith, rw given-all at steady.consistent.sum, idle);
    distinct = refl;
    room = omega (
      arith,
      taken-total keys u.table.key_count_container n steady.positive,
      rw given-all at steady.consistent.sum,
    );
  }

vectorized-scalar :
    (width : ℕ) (hash input : ℕ → ℕ) (batch fuel : ℕ) (s : Histogram)
    → build_vectorized_batch width hash input batch fuel s
      ≡ build_scalar_batch width hash input batch fuel s
unfolding build_vectorized_batch build_scalar_batch
vectorized-scalar width hash input batch fuel s = refl

elements-construct :
    (width count load_factor : ℕ) → (construct width count load_factor).element_count ≡ count
unfolding construct
elements-construct width count load_factor = refl

-- With a load factor from 1 to 100 percent, a table sized for its keys without overflow in T,
-- nonzero keys that are hashed at least the table's size below the top of T, a hash written out in
-- the builds that agrees with `hash_fn` on all of them, a nonzero key that is asked for, hashed at
-- least the table's size below 2^64, on which the hash written out in the probe agrees with
-- `hash_fn`, at least one key in flight, and fuel of more than the number of keys times the number
-- of slots: both batch builds end, and their table gives the key the same `get_count` as the table
-- that is built element by element, which is the number of times that the key occurs, and so does
-- its `probe_count_vectorized`.
pub build_scalar_batch-counts :
    (width : ℕ) (hash_fn written inline input : ℕ → ℕ) (count load_factor batch : ℕ)
    → width ≤ 64
    → 0 < load_factor
    → load_factor ≤ 100
    → count * 100 + 1 < 2 ^ width
    → ((i : ℕ)
        → i < count
        → (input i ≢ 0) × (hash_fn (input i) + count * 100 / load_factor ≤ 2 ^ width))
    → ((i : ℕ) → i < count → written (input i) ≡ hash_fn (input i))
    → 0 < batch
    → (key : ℕ) → key ≢ 0
    → hash_fn key + count * 100 / load_factor ≤ 2 ^ 64
    → inline key ≡ hash_fn key
    → (fuel : ℕ) → count * (count * 100 / load_factor) < fuel
    → (t : Histogram) × (build_scalar_batch width written input batch fuel
          (construct width count load_factor)
        ≡ some t)
      × (build_vectorized_batch width written input batch fuel (construct width count load_factor)
          ≡ some t)
      × (get_count_of width hash_fn t key
          ≡ get_count_of width hash_fn (table width hash_fn inline input count load_factor) key)
      × (get_count_of width hash_fn t key ≡ occurrences input key count)
      × (probe_count width inline t key ≡ occurrences input key count)
unfolding get_count_of probe probe_count
build_scalar_batch-counts width hash_fn written inline input count load_factor batch wide pos most
      small keys same some_lanes key nonzero hashed same_key fuel enough =
    let n = count * 100 / load_factor in
    let top = two-pow-le width 64 wide in
    let good : IsBatchInput written input n count = record {
      nonzero = λ i below. (keys i below).0;
      safe = λ i below. omega (arith, (keys i below).1, same i below, top);
      room = slots-le count load_factor pos most;
      small = omega (arith, small, top);
    } in
    let empty = construct-IsEmpty width hash_fn inline input count load_factor small in
    let (u, ends, steady, over, idle) =
      build_scalar_batch-ends width written input n count batch good some_lanes
        (construct width count load_factor) empty (elements-construct width count load_factor) fuel
        enough in
    let h =
      recounted-Holds width written hash_fn input n count batch same (λ i below. (keys i below).1) u
        steady over idle in
    let t =
      recounted width written hash_fn input n count batch same (λ i below. (keys i below).1) u
        steady over idle in
    let counted : get_count_of width hash_fn u.table key ≡ occurrences input key count =
      get_count_of-Holds width hash_fn n input count t h key nonzero hashed
        steady.consistent.infinity in
    let built =
      counts-construct width hash_fn inline input count load_factor key wide pos most small keys
        nonzero hashed same_key in
    (
      u.table,
      ends,
      vectorized-scalar width written input batch fuel (construct width count load_factor) ∙ ends,
      counted ∙ sym built.0,
      counted,
      probe_count_congr width hash_fn n input inline u.table key same_key
          ∙ probe_count-Holds width hash_fn n input count t h key nonzero hashed,
    )
