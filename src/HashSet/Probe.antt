-- ===== src/HashSet/Probe.antt =====
-- The probe for an array of keys, after the table has been built.
use mathlib.Core.Path.{subst}
use native.Mathlib.Nat.{mod-lt, mod-eq_of_lt}
use native.Mathlib.Numerals.{add-one}
use tsubasa.Base.{
  ℕ, zero, suc, ◌+◌, ◌*◌, ◌%◌, ◌^◌, ◌≤◌, ◌<◌, ◌≡◌, ◌≢◌, ◌∙◌, ap, ltb, if◌then◌else◌, arith, inl,
  inr, lt_or_le, refl, sym, ◌⊎◌, ==_iff, lt→ltb, le→ltb,
}
use tsubasa.Base.Loop.{for_range_inv}
use tsubasa.Base.Memory.{Memory, write, write_self, write_ne}
use tsubasa.HashSet.{Histogram, Probed, probe_slot, probe_key, probe_keys, construct}
use tsubasa.HashSet.Build.{
  key_counted, key_absent, probe_slot-seq, passed_absent, first, o, build-Holds,
}
use tsubasa.HashSet.Counts.{slots, table, keys-IsInput, construct-IsEmpty}
use tsubasa.HashSet.Invariant.{occurrences, Holds}
use tsubasa.HashSet.Placed.{occurrences-le}

-- How many of the first `m` probed keys occur among the keys of the table.
unfoldable pub hits : (ℕ → ℕ) → ℕ → (ℕ → ℕ) → ℕ → ℕ
hits input count probes zero = 0
hits input count probes (suc m) =
    hits input count probes m + (if ltb 0 (occurrences input (probes m) count) then 1 else 0)

module _ (width : ℕ) (hash_fn : ℕ → ℕ) (n : ℕ) (input : ℕ → ℕ) (count : ℕ) (s : Histogram)
    (h : Holds width hash_fn n input count s) (small : count < 2 ^ width) where
  -- A key that occurs is written with its number of occurrences; another changes nothing.
  probe_key-cases :
      (key : ℕ) (t : Probed)
      → key ≢ 0
      → hash_fn key + n ≤ 2 ^ 64
      → ((0 < occurrences input key count)
          × (probe_key width hash_fn s key t ≡ record {
            probe_result = write t.probe_result t.result_position key;
            probe_result_count =
                write t.probe_result_count t.result_position (occurrences input key count);
            result_position = t.result_position + 1 + 1;
          }))
        ⊎ ((occurrences input key count ≡ 0) × (probe_key width hash_fn s key t ≡ t))
  unfolding probe_key
  probe_key-cases key t nonzero hashed =
      let at = o width hash_fn n input count s h key nonzero hashed in
      elim (lt_or_le at s.container_size) [
        | inr passed ↦ inr (
          key_absent width hash_fn n input count s h key nonzero hashed
              (passed_absent width hash_fn n input count s h key nonzero hashed passed),
          rw (le→ltb at s.container_size passed) refl,
        )
        | inl found ↦
            let p = probe_slot width hash_fn s key at in
            let below : p < n =
              rw
                (probe_slot-seq width hash_fn n input count s h key nonzero hashed at
                  (omega (arith, found, h.size)))
                (mod-lt _ (omega (arith, found, h.size))) in
            let hit : s.key_container p ≡ key =
              (==_iff _ _).0
                ((first width hash_fn n input count s h key nonzero hashed).hit found) in
            let counted =
              key_counted width hash_fn n input count s h key nonzero hashed p below hit in
            let fits : occurrences input key count % 2 ^ width ≡ occurrences input key count =
              mod-eq_of_lt (omega (arith, small, occurrences-le input key count)) in
            inl (
              subst (λ k. 0 < occurrences input k count) hit
                  (h.stored p below (λ e. nonzero (sym hit ∙ e))),
              rw (lt→ltb at s.container_size found, counted, fits) refl,
            )
      ]

hits_next :
    (input : ℕ → ℕ) (count : ℕ) (probes : ℕ → ℕ) (m : ℕ)
    → ((0 < occurrences input (probes m) count)
        → hits input count probes (suc m) ≡ hits input count probes m + 1)
      × ((occurrences input (probes m) count ≡ 0)
          → hits input count probes (suc m) ≡ hits input count probes m)
unfolding hits
hits_next input count probes m = (λ h. ground arith, λ h. ground arith)

hits_before :
    (input : ℕ → ℕ) (count : ℕ) (probes : ℕ → ℕ) (i m : ℕ)
    → i < m
    → 0 < occurrences input (probes i) count
    → hits input count probes i < hits input count probes m
unfolding hits
hits_before input count probes i zero h some_times = absurd (omega arith)
hits_before input count probes i (suc m) h some_times = elim (lt_or_le i m) [
  | inl below ↦ ground (arith, hits_before input count probes i m below some_times)
  | inr here ↦ let e : i ≡ m = omega arith in rw e (ground (arith, (rw e at some_times)))
]

module _ (input : ℕ → ℕ) (count : ℕ) (probes : ℕ → ℕ) (before before_counts : Memory) where
  -- The answers to the first `m` keys: each stands two places behind the one before it, and the
  -- places between them are not written.
  pub record Answered (m : ℕ) (t : Probed) : Type 0 where
    pub position : t.result_position ≡ 2 * hits input count probes m
    pub answers :
        (i : ℕ)
        → i < m
        → 0 < occurrences input (probes i) count
        → (t.probe_result (2 * hits input count probes i) ≡ probes i)
          × (t.probe_result_count (2 * hits input count probes i)
              ≡ occurrences input (probes i) count)
    pub between :
        (k : ℕ)
        → (t.probe_result (2 * k + 1) ≡ before (2 * k + 1))
          × (t.probe_result_count (2 * k + 1) ≡ before_counts (2 * k + 1))

  answer-Answered :
      (m : ℕ) (t : Probed)
      → 0 < occurrences input (probes m) count
      → Answered m t
      → Answered (suc m) (record {
        probe_result = write t.probe_result t.result_position (probes m);
        probe_result_count =
            write t.probe_result_count t.result_position (occurrences input (probes m) count);
        result_position = t.result_position + 1 + 1;
      })
  answer-Answered m t some_times a = record {
    position = omega (arith, a.position, (hits_next input count probes m).0 some_times);
    answers = λ i below times. elim (lt_or_le i m) [
      | inl old ↦
          let lower = hits_before input count probes i m old times in
          let ne : 2 * hits input count probes i ≢ t.result_position =
            omega (arith, lower, a.position) in
          rw
            (
              write_ne t.probe_result t.result_position (probes m) _ ne,
              write_ne t.probe_result_count t.result_position (occurrences input (probes m) count) _
                  ne,
            )
            (a.answers i old times)
      | inr new ↦
          let e : i ≡ m = omega (arith, new, below) in
          rw (e, sym a.position)
            (
              write_self t.probe_result t.result_position (probes m),
              write_self t.probe_result_count t.result_position
                  (occurrences input (probes m) count),
            )
    ];
    between = λ k.
        let ne : 2 * k + 1 ≢ t.result_position = omega (arith, a.position) in
        rw
          (
            write_ne t.probe_result t.result_position (probes m) _ ne,
            write_ne t.probe_result_count t.result_position (occurrences input (probes m) count) _
                ne,
          )
          (a.between k);
  }

  skip-Answered :
      (m : ℕ) (t : Probed)
      → occurrences input (probes m) count ≡ 0
      → Answered m t
      → Answered (suc m) t
  skip-Answered m t none_yet a = record {
    position =
        a.position ∙ ap (λ (k : ℕ). 2 * k) (sym ((hits_next input count probes m).1 none_yet));
    answers = λ i below times. elim (lt_or_le i m) [
      | inl old ↦ a.answers i old times
      | inr new ↦
          let e : i ≡ m = omega (arith, new, below) in
          absurd (omega (arith, rw e at times, none_yet))
    ];
    between = a.between;
  }

-- In a table with a load factor from 1 to 100 percent, sized for its keys without overflow in T, with
-- nonzero keys that are hashed at least the table's size below the top of T, the probe for an array
-- of nonzero keys, hashed at least the table's size below 2^64, answers exactly those that occur in
-- the table, in their order, each with the number of its occurrences; but the answers stand two
-- places apart, the places between them are not written, and the number that is returned is twice
-- the number of answers.
pub probe_keys-construct :
    (width : ℕ) (hash_fn inline : ℕ → ℕ) (input : ℕ → ℕ) (count load_factor : ℕ)
    → width ≤ 64
    → 0 < load_factor
    → load_factor ≤ 100
    → count * 100 + 1 < 2 ^ width
    → ((i : ℕ)
        → i < count
        → (input i ≢ 0)
          × (hash_fn (input i) + slots width hash_fn inline input count load_factor ≤ 2 ^ width))
    → (probes : ℕ → ℕ) (m : ℕ)
    → ((i : ℕ)
        → i < m
        → (probes i ≢ 0)
          × (hash_fn (probes i) + slots width hash_fn inline input count load_factor ≤ 2 ^ 64))
    → (result result_count : Memory)
    → Answered input count probes result result_count m (
        probe_keys width hash_fn
          (table width hash_fn inline input count load_factor)
          probes
          m
          result
          result_count)
unfolding probe_keys construct hits
probe_keys-construct width hash_fn inline input count load_factor wide pos most small keys probes m
      good result result_count =
    let n = slots width hash_fn inline input count load_factor in
    let built =
      (build-Holds width hash_fn n input (construct width count load_factor)
        (construct-IsEmpty width hash_fn inline input count load_factor small)
        (keys-IsInput width hash_fn inline input count load_factor wide pos most keys small)).0 in
    for_range_inv (Answered input count probes result result_count)
      (λ i. probe_key width hash_fn (table width hash_fn inline input count load_factor) (probes i))
      m 0 m (omega arith)
      (λ i t lo hi a.
        rw (add-one i)
          (elim (probe_key-cases width hash_fn n input count
            (table width hash_fn inline input count load_factor) built (omega (arith, small))
            (probes i) t (good i hi).0 (good i hi).1) [
              | inl (times, e) ↦
                  rw e (answer-Answered input count probes result result_count i t times a)
              | inr (none_yet, e) ↦
                  rw e (skip-Answered input count probes result result_count i t none_yet a)
            ]))
      _
      (record {
        position = refl;
        answers = λ i below. absurd (omega arith);
        between = λ k. (refl, refl);
      })
