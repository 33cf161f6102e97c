-- ===== src/HashSet/Batch/Built.antt =====
-- The two loops of rounds end, and what the table then answers.
use tsubasa.Base.{
  ℕ, zero, suc, ◌+◌, ◌*◌, ◌≤◌, ◌<◌, ◌≡◌, ◌∙◌, refl, sym, true, false, some, ltb, if◌then◌else◌,
  arith, inl, inr, lt_or_le, lt→ltb, le→ltb,
}
use tsubasa.Base.Loop.{for_range_inv}
use tsubasa.HashSet.{Histogram}
use tsubasa.HashSet.Batch.{
  Batch, start_batch, whole_rounds, last_rounds, round, processable_elements, build_scalar_batch,
}
use tsubasa.HashSet.Batch.Lanes.{IsBatchInput, Steady, Checks, live, live_one, work}
use tsubasa.HashSet.Batch.Round.{round-Next}
use tsubasa.HashSet.Batch.Start.{start-Steady, start-work}
use tsubasa.HashSet.Build.{IsEmpty}
use tsubasa.HashSet.Total.{total, total_zero, total_next, total_some}

module _ (width : ℕ) (hash input : ℕ → ℕ) (n count batch : ℕ)
    (good : IsBatchInput hash input n count) where
  abbrev lanes : Batch → ℕ
  lanes b = total (live width hash input n count batch b.key_positions) batch

  processable_elements-live :
      (b : Batch)
      → b.table.element_count ≡ count
      → processable_elements width hash input batch b ≡ lanes b
  unfolding processable_elements live
  processable_elements-live b elements =
      for_range_inv (λ i (m : ℕ). m ≡ total (live width hash input n count batch b.key_positions) i)
        (λ i m. if ltb (b.key_positions i) b.table.element_count then m + 1 else m) batch 0 batch
        (omega arith)
        (λ i m lo hi e.
          rw (total_next (live width hash input n count batch b.key_positions) i, elements, e)
            (ground arith))
        0 (sym (total_zero (live width hash input n count batch b.key_positions)))

  -- While the last position given is that of a key, every lane is live.
  first-Checks :
      (b : Batch)
      → Steady width hash input n count batch b
      → b.max_position < count
      → Checks width hash input n count batch false b
  unfolding Checks
  first-Checks b steady more =
      inr (λ i below. omega (arith, steady.consistent.bounded i below, more))

  whole-step :
      (fuel : ℕ) (b : Batch)
      → ((ltb b.max_position b.table.element_count ≡ false)
          → whole_rounds width hash input batch (suc fuel) b ≡ some b)
        × ((ltb b.max_position b.table.element_count ≡ true)
            → whole_rounds width hash input batch (suc fuel) b
              ≡ whole_rounds width hash input batch fuel (round width hash input batch false b))
  unfolding whole_rounds
  whole-step fuel b = (λ e. rw (whole_rounds, e) refl, λ e. rw (whole_rounds, e) refl)

  last-step :
      (fuel : ℕ) (b : Batch)
      → ((ltb 0 (processable_elements width hash input batch b) ≡ false)
          → last_rounds width hash input batch (suc fuel) b ≡ some b)
        × ((ltb 0 (processable_elements width hash input batch b) ≡ true)
            → last_rounds width hash input batch (suc fuel) b
              ≡ last_rounds width hash input batch fuel (round width hash input batch true b))
  unfolding last_rounds
  last-step fuel b = (λ e. rw (last_rounds, e) refl, λ e. rw (last_rounds, e) refl)

  whole-ends :
      0 < batch
      → (fuel : ℕ) (b : Batch) → Steady width hash input n count batch b
      → work width hash input n count batch b < fuel
      → (u : Batch) × (whole_rounds width hash input batch fuel b ≡ some u)
        × Steady width hash input n count batch u
        × (count ≤ u.max_position)
        × (work width hash input n count batch u ≤ work width hash input n count batch b)
  whole-ends some_lanes zero b steady enough = absurd (omega (arith, enough))
  whole-ends some_lanes (suc fuel) b steady enough = elim (lt_or_le b.max_position count) [
    | inr over ↦ (
      b,
      (whole-step fuel b).0 (rw steady.consistent.elements (le→ltb b.max_position count over)),
      steady,
      over,
      omega arith,
    )
    | inl more ↦
        let next =
          round-Next width hash input n count batch good false b steady
            (first-Checks b steady more) in
        let one =
          total_some (live width hash input n count batch b.key_positions) 0 batch some_lanes in
        let is_live =
          live_one width hash input n count batch b.key_positions 0
            (omega (arith, steady.consistent.bounded 0 some_lanes, more)) in
        let (u, ends, steady', over, less) =
          whole-ends some_lanes fuel (round width hash input batch false b) next.steady
            (omega (arith, next.less, one, is_live, enough)) in
        (
          u,
          (whole-step fuel b).1 (rw steady.consistent.elements (lt→ltb b.max_position count more))
              ∙ ends,
          steady',
          over,
          omega (arith, next.less, less),
        )
  ]

  last-ends :
      (fuel : ℕ) (b : Batch)
      → Steady width hash input n count batch b
      → count ≤ b.max_position
      → work width hash input n count batch b < fuel
      → (u : Batch) × (last_rounds width hash input batch fuel b ≡ some u)
        × Steady width hash input n count batch u
        × (count ≤ u.max_position)
        × (lanes u ≡ 0)
  unfolding Checks
  last-ends zero b steady over enough = absurd (omega (arith, enough))
  last-ends (suc fuel) b steady over enough =
      let same = processable_elements-live b steady.consistent.elements in
      elim (lt_or_le 0 (lanes b)) [
        | inr idle ↦ (
          b,
          (last-step fuel b).0 (rw same (le→ltb 0 (lanes b) idle)),
          steady,
          over,
          omega (arith, idle),
        )
        | inl busy ↦
            let next = round-Next width hash input n count batch good true b steady (inl refl) in
            let (u, ends, steady', over', idle) =
              last-ends fuel (round width hash input batch true b) next.steady
                (omega (arith, next.max, over)) (omega (arith, next.less, busy, enough)) in
            (
              u,
              (last-step fuel b).1 (rw same (lt→ltb 0 (lanes b) busy)) ∙ ends,
              steady',
              over',
              idle,
            )
      ]

  -- With fuel of more than the number of keys times the number of slots, both loops end.
  pub build_scalar_batch-ends :
      0 < batch
      → (s : Histogram) → IsEmpty n s
      → s.element_count ≡ count
      → (fuel : ℕ) → count * n < fuel
      → (u : Batch) × (build_scalar_batch width hash input batch fuel s ≡ some u.table)
        × Steady width hash input n count batch u
        × (count ≤ u.max_position)
        × (lanes u ≡ 0)
  unfolding build_scalar_batch
  build_scalar_batch-ends some_lanes s empty elements fuel enough =
      let steady = start-Steady width hash input n count batch s empty elements some_lanes in
      let less = start-work width hash input n count batch s some_lanes in
      let (u, ends, steady', over, less') =
        whole-ends some_lanes fuel (start_batch width hash input batch s) steady
          (omega (arith, less, enough)) in
      let (v, ends', steady'', over', idle) =
        last-ends fuel u steady' over (omega (arith, less, less', enough)) in
      (v, rw (build_scalar_batch, ends, ends') refl, steady'', over', idle)
