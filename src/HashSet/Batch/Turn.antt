-- ===== src/HashSet/Batch/Turn.antt =====
-- The turn of one lane in the third loop of a round.
use native.Mathlib.Nat.{mod-lt}
use tsubasa.Base.{
  ℕ, ◌+◌, ◌%◌, ◌^◌, ◌≤◌, ◌<◌, ◌≡◌, ◌≢◌, ◌∙◌, ap, sym, Bool, arith, inl, inr, ◌⊎◌, eq_or_ne,
}
use tsubasa.Base.Memory.{Memory, write, write_self, write_ne}
use tsubasa.HashSet.Batch.{Batch}
use tsubasa.HashSet.Batch.Advance.{advanced, advanced-Consistent, counter-next}
use tsubasa.HashSet.Batch.Gather.{Looked}
use tsubasa.HashSet.Batch.Lanes.{
  IsBatchInput, Consistent, Steady, Checks, Passed, live, live_one, live_none, work, offset-lt,
}
use tsubasa.HashSet.Batch.Scatter.{Written}
use tsubasa.HashSet.Batch.Tally.{work-moved, work-passed}
use tsubasa.HashSet.Invariant.{seq}
use tsubasa.HashSet.Total.{total, total_next}

module _ (width : ℕ) (hash input : ℕ → ℕ) (n count batch : ℕ)
    (good : IsBatchInput hash input n count) (checked : Bool) (b : Batch)
    (steady : Steady width hash input n count batch b)
    (checks : Checks width hash input n count batch checked b) (x y : Memory)
    (looked : Looked width hash input n count batch good checked b steady checks batch x y)
    (keys' : Memory)
    (w : Written width hash input n count batch good checked b steady checks x y looked batch
      keys') where
  abbrev held : ℕ → ℕ
  held i = input (b.key_positions i)

  -- After the first `j` lanes.
  pub record Tallied (j : ℕ) (t : Batch) : Type 0 where
    pub consistent : Consistent width hash input n count batch t
    pub hashed : t.hashed_positions ≡ x
    pub contents : t.table.key_container ≡ keys'
    pub ahead :
        (i : ℕ) → j ≤ i → (t.key_positions i ≡ b.key_positions i) × (t.offsets i ≡ b.offsets i)
    pub passed :
        (i : ℕ) → i < j → Passed width hash input n count batch keys' t.key_positions t.offsets i
    pub counted :
        (p : ℕ)
        → p < n
        → keys' p ≢ 0
        → (0 < t.table.key_count_container p)
          ⊎ ((i : ℕ) × (j ≤ i)
              × (i < batch)
              × (b.key_positions i < count)
              × (x i ≡ p)
              × (held i ≡ keys' p))
    pub max : b.max_position ≤ t.max_position
    pub less :
        work width hash input n count batch t
          + total (live width hash input n count batch b.key_positions) j
        ≤ work width hash input n count batch b

  pub idle-Tallied :
      (j : ℕ) (t : Batch) → count ≤ b.key_positions j → Tallied j t → Tallied (j + 1) t
  idle-Tallied j t over g = record {
    consistent = g.consistent;
    hashed = g.hashed;
    contents = g.contents;
    ahead = λ i lo. g.ahead i (omega (arith, lo));
    passed = λ i lo h. elim (eq_or_ne i j) [
      | inl e ↦ absurd (omega (arith, rw e at h, (g.ahead j (omega arith)).0, over))
      | inr ne ↦ g.passed i (omega (arith, lo, ne)) h
    ];
    counted = λ p below used. elim (g.counted p below used) [
      | inl some ↦ inl some
      | inr (i, lo, i_below, inside, at, holds) ↦ elim (eq_or_ne i j) [
        | inl e ↦ absurd (omega (arith, rw e at inside, over))
        | inr ne ↦ inr (i, omega (arith, lo, ne), i_below, inside, at, holds)
      ]
    ];
    max = g.max;
    less = omega (
      arith,
      g.less,
      total_next (live width hash input n count batch b.key_positions) j,
      live_none width hash input n count batch b.key_positions j over,
    );
  }

  module _ (j : ℕ) (t : Batch) (below : j < batch) (inside : b.key_positions j < count)
      (g : Tallied j t) where
    here : x j ≡ seq width hash n (held j) (b.offsets j)
    here = looked.position j below inside

    pub lane-inside : t.key_positions j < count
    lane-inside = omega (arith, (g.ahead j (omega arith)).0, inside)

    lane-offset : t.offsets j < n
    lane-offset = omega (
      arith,
      (g.ahead j (omega arith)).1,
      offset-lt width hash input n count batch good b steady j below inside,
    )

    pub slot-lt : t.hashed_positions j < n
    slot-lt = rw (g.hashed, here) (mod-lt _ (omega (arith, lane-offset)))

    less-next :
        (v : ℕ)
        → v + 1 ≤ work width hash input n count batch t
        → v + total (live width hash input n count batch b.key_positions) (j + 1)
          ≤ work width hash input n count batch b
    less-next v h = omega (
      arith,
      h,
      g.less,
      total_next (live width hash input n count batch b.key_positions) j,
      live_one width hash input n count batch b.key_positions j inside,
    )

    -- The key of the lane stands in its slot.
    pub advance-Tallied :
        (at : t.table.key_container (t.hashed_positions j) ≡ input (t.key_positions j))
        → Tallied (j + 1) (
            advanced width hash input n count batch good t g.consistent j
              (t.hashed_positions j)
              below
              lane-inside
              slot-lt
              at)
    unfolding work
    advance-Tallied at =
        let p = t.hashed_positions j in
        let counts = t.table.key_count_container in
        record {
          consistent =
              advanced-Consistent width hash input n count batch good t g.consistent j p below
                lane-inside slot-lt at;
          hashed = g.hashed;
          contents = g.contents;
          ahead = λ i lo.
              let ne : i ≢ j = omega (arith, lo) in
              rw (write_ne t.key_positions j (t.max_position + 1) i ne, write_ne t.offsets j 0 i ne)
                (g.ahead i (omega (arith, lo)));
          passed = λ i lo h q q_lo. elim (eq_or_ne i j) [
            | inl e ↦ absurd (omega (arith, rw (e, write_self t.offsets j 0) at q_lo))
            | inr ne ↦
                let k = write_ne t.key_positions j (t.max_position + 1) i ne in
                rw k (
                  g.passed i (omega (arith, lo, ne)) (rw k at h) q
                    (rw (write_ne t.offsets j 0 i ne) at q_lo))
          ];
          counted = λ q q_below used. elim (eq_or_ne q p) [
            | inl e ↦ inl (
                rw
                  (
                    e,
                    write_self counts p ((counts p + 1) % 2 ^ 64),
                    counter-next width hash input n count batch good t g.consistent j p below
                        lane-inside slot-lt at,
                  )
                  (omega arith))
            | inr other ↦
                rw (write_ne counts p ((counts p + 1) % 2 ^ 64) q other)
                  (elim (g.counted q q_below used) [
                    | inl some ↦ inl some
                    | inr (i, lo, i_below, i_inside, found, holds) ↦ elim (eq_or_ne i j) [
                      | inl e ↦
                          absurd
                            (other (sym found ∙ ap x e ∙ sym (ap (λ (m : Memory). m j) g.hashed)))
                      | inr ne ↦ inr (i, omega (arith, lo, ne), i_below, i_inside, found, holds)
                    ]
                  ])
          ];
          max = omega (arith, g.max);
          less = less-next _ (
              work-moved width hash input n count batch good t.key_positions t.offsets j
                t.max_position below lane-inside lane-offset);
        }

    -- Another key stands there.
    pub pass-Tallied :
        t.table.key_container (t.hashed_positions j) ≢ input (t.key_positions j)
        → Tallied (j + 1) (record t { offsets = write t.offsets j (t.offsets j + 1) })
    unfolding work
    pass-Tallied differs =
        let c = g.consistent in
        let same = (g.ahead j (omega arith)).0 in
        let same_offset = (g.ahead j (omega arith)).1 in
        let slot : t.hashed_positions j ≡ x j = ap (λ (m : Memory). m j) g.hashed in
        let other : keys' (x j) ≢ held j = λ e. differs (rw (slot, g.contents, same) e) in
        record {
          consistent = record {
            size = c.size;
            elements = c.elements;
            infinity = c.infinity;
            placed = c.placed;
            counted = c.counted;
            absent = c.absent;
            free = c.free;
            sum = c.sum;
            bounded = c.bounded;
          };
          hashed = g.hashed;
          contents = g.contents;
          ahead = λ i lo.
              let ne : i ≢ j = omega (arith, lo) in
              rw (write_ne t.offsets j (t.offsets j + 1) i ne) (g.ahead i (omega (arith, lo)));
          passed = λ i lo h q q_lo. elim (eq_or_ne i j) [
            | inr ne ↦
                g.passed i (omega (arith, lo, ne)) h q
                  (rw (write_ne t.offsets j (t.offsets j + 1) i ne) at q_lo)
            | inl e ↦
                let q_below : q < b.offsets j + 1 =
                  rw (e, write_self t.offsets j (t.offsets j + 1), same_offset) at q_lo in
                rw (e, same)
                  (elim (eq_or_ne q (b.offsets j)) [
                    | inl last ↦ rw (last, sym here) (w.filled j below inside, other)
                    | inr ne ↦
                        let old = steady.passed j below inside q (omega (arith, q_below, ne)) in
                        rw (w.kept (seq width hash n (held j) q) old.0) old
                  ])
          ];
          counted = λ q q_below used. elim (g.counted q q_below used) [
            | inl some ↦ inl some
            | inr (i, lo, i_below, i_inside, found, holds) ↦ elim (eq_or_ne i j) [
              | inl e ↦ absurd (other (ap keys' (ap x (sym e) ∙ found) ∙ sym holds ∙ ap held e))
              | inr ne ↦ inr (i, omega (arith, lo, ne), i_below, i_inside, found, holds)
            ]
          ];
          max = g.max;
          less = less-next _ (
              omega (
                arith,
                work-passed width hash input n count batch good t.key_positions t.offsets j below
                    lane-inside lane-offset,
              ));
        }
