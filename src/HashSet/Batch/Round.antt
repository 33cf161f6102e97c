-- ===== src/HashSet/Batch/Round.antt =====
-- A round of a batch build keeps the invariant and leaves less work.
use tsubasa.Base.{
  ℕ, ◌+◌, ◌≤◌, ◌<◌, refl, Bool, arith, inl, inr, lt_or_le, eq_or_ne, lt→ltb, le→ltb, ==_iff,
}
use tsubasa.Base.Loop.{for_range, for_range_inv}
use tsubasa.Base.Memory.{Memory}
use tsubasa.HashSet.Batch.{Batch, tally, round}
use tsubasa.HashSet.Batch.Gather.{Looked, gather-loop}
use tsubasa.HashSet.Batch.Lanes.{IsBatchInput, Steady, Checks, live, work, is_active-live}
use tsubasa.HashSet.Batch.Scatter.{
  Written, written_batch, scatter-loop, written-Consistent, written-counted,
}
use tsubasa.HashSet.Batch.Turn.{Tallied, idle-Tallied, advance-Tallied, pass-Tallied}
use tsubasa.HashSet.Invariant.{==_ne}
use tsubasa.HashSet.Total.{total, total_zero}

-- What a round gives.
pub record Next (width : ℕ) (hash input : ℕ → ℕ) (n count batch : ℕ) (b u : Batch) : Type 0 where
  pub steady : Steady width hash input n count batch u
  pub max : b.max_position ≤ u.max_position
  pub less :
      work width hash input n count batch u
        + total (live width hash input n count batch b.key_positions) batch
      ≤ work width hash input n count batch b

module _ (width : ℕ) (hash input : ℕ → ℕ) (n count batch : ℕ)
    (good : IsBatchInput hash input n count) (checked : Bool) (b : Batch)
    (steady : Steady width hash input n count batch b)
    (checks : Checks width hash input n count batch checked b) (x y : Memory)
    (looked : Looked width hash input n count batch good checked b steady checks batch x y)
    (keys' : Memory)
    (w : Written width hash input n count batch good checked b steady checks x y looked batch
      keys') where
  abbrev Turns : ℕ → Batch → Type 0
  Turns = Tallied width hash input n count batch good checked b steady checks x y looked keys' w

  tally-Turns :
      (j : ℕ) (t : Batch)
      → j < batch
      → Turns j t
      → Turns (j + 1) (tally width hash input checked j t)
  unfolding tally
  tally-Turns j t below g =
      let active =
        is_active-live width hash input n count batch checked b t j checks g.consistent.elements
          (g.ahead j (omega arith)).0 below in
      elim (lt_or_le (b.key_positions j) count) [
        | inr over ↦
            rw (active, le→ltb (b.key_positions j) count over)
              (idle-Tallied width hash input n count batch good checked b steady checks x y looked
                keys' w j t over g)
        | inl inside ↦
            elim (eq_or_ne (t.table.key_container (t.hashed_positions j))
              (input (t.key_positions j))) [
                | inl at ↦
                    rw (active, lt→ltb (b.key_positions j) count inside, (==_iff _ _).1 at)
                      (advance-Tallied width hash input n count batch good checked b steady checks x
                        y looked keys' w j t below inside g at)
                | inr differs ↦
                    rw (active, lt→ltb (b.key_positions j) count inside, ==_ne _ _ differs)
                      (pass-Tallied width hash input n count batch good checked b steady checks x y
                        looked keys' w j t below inside g differs)
              ]
      ]

  start-Turns :
      Turns 0
        (written_batch width hash input n count batch good checked b steady checks x y looked keys')
  unfolding work
  start-Turns = record {
    consistent =
        written-Consistent width hash input n count batch good checked b steady checks x y looked
          keys' w;
    hashed = refl;
    contents = refl;
    ahead = λ i lo. (refl, refl);
    passed = λ i lo. absurd (omega (arith, lo));
    counted = λ p below used.
        elim (written-counted width hash input n count batch good checked b steady checks x y looked
          keys' w p below used) [
            | inl some ↦ inl some
            | inr (i, i_below, inside, at, holds) ↦ inr (i, omega arith, i_below, inside, at, holds)
          ];
    max = omega arith;
    less = omega (arith, total_zero (live width hash input n count batch b.key_positions));
  }

  pub tally-loop : Next width hash input n count batch b (
      for_range batch 0 (tally width hash input checked) (
        written_batch width hash input n count batch good checked b steady checks x y looked keys'))
  tally-loop =
      let g =
        for_range_inv Turns (tally width hash input checked) batch 0 batch (omega arith)
          (λ j t lo below g. tally-Turns j t below g) _ start-Turns in
      record {
        steady = record {
          consistent = g.consistent;
          passed = λ i lo. rw g.contents (g.passed i lo);
          positive = λ p below used. elim (g.counted p below (rw g.contents at used)) [
            | inl some ↦ some
            | inr (i, lo, i_below, inside, at, holds) ↦ absurd (omega (arith, lo, i_below))
          ];
        };
        max = g.max;
        less = g.less;
      }

pub round-Next :
    (width : ℕ) (hash input : ℕ → ℕ) (n count batch : ℕ)
    → IsBatchInput hash input n count
    → (checked : Bool) (b : Batch) → Steady width hash input n count batch b
    → Checks width hash input n count batch checked b
    → Next width hash input n count batch b (round width hash input batch checked b)
unfolding round
round-Next width hash input n count batch good checked b steady checks =
    let (x, y, gathered, looked) =
      gather-loop width hash input n count batch good checked b steady checks in
    let (keys', scattered, w) =
      scatter-loop width hash input n count batch good checked b steady checks x y looked in
    rw (gathered, scattered)
      (tally-loop width hash input n count batch good checked b steady checks x y looked keys' w)
