-- ===== src/HashSet/Batch/Gather.antt =====
-- The first loop of a round: each live lane looks at a slot.
use tsubasa.Base.{
  ℕ, ◌+◌, ◌<◌, ◌≡◌, ◌∙◌, refl, Bool, arith, inl, inr, lt_or_le, eq_or_ne, lt→ltb, le→ltb,
}
use tsubasa.Base.Loop.{for_range, for_range_inv}
use tsubasa.Base.Memory.{Memory, write, write_self, write_ne}
use tsubasa.HashSet.{probe_slot}
use tsubasa.HashSet.Batch.{Batch, gather}
use tsubasa.HashSet.Batch.Lanes.{
  IsBatchInput, Steady, Checks, is_active-live, offset-lt, probe_slot-seq, earlier_lane,
}
use tsubasa.HashSet.Invariant.{seq}

module _ (width : ℕ) (hash input : ℕ → ℕ) (n count batch : ℕ)
    (good : IsBatchInput hash input n count) (checked : Bool) (b : Batch)
    (steady : Steady width hash input n count batch b)
    (checks : Checks width hash input n count batch checked b) where
  abbrev pub key : ℕ → ℕ
  key i = input (b.key_positions i)

  -- The slots that the first `j` lanes look at, and the keys there.
  pub record Looked (j : ℕ) (x y : Memory) : Type 0 where
    pub position :
        (i : ℕ) → i < j → b.key_positions i < count → x i ≡ seq width hash n (key i) (b.offsets i)
    pub element : (i : ℕ) → i < j → b.key_positions i < count → y i ≡ b.table.key_container (x i)

  abbrev pub looked_batch : Memory → Memory → Batch
  looked_batch x y = record b { hashed_positions = x; gathered_elements = y }

  record Gathered (j : ℕ) (t : Batch) : Type 0 where
    positions : Memory
    elements : Memory
    at : t ≡ looked_batch positions elements
    looked : Looked j positions elements

  gather-Gathered :
      (j : ℕ) (t : Batch)
      → j < batch
      → Gathered j t
      → Gathered (j + 1) (gather width hash input checked j t)
  unfolding gather
  gather-Gathered j t below g =
      let x = g.positions in
      let y = g.elements in
      let u = looked_batch x y in
      let active =
        is_active-live width hash input n count batch checked b u j checks
          steady.consistent.elements refl below in
      elim (lt_or_le (b.key_positions j) count) [
        | inr over ↦
            let earlier = λ (i : ℕ) (lo : i < j + 1) (h : b.key_positions i < count).
              earlier_lane width hash input n count batch b i j lo h over in
            rw (g.at, active, le→ltb (b.key_positions j) count over)
              (record {
                positions = x;
                elements = y;
                at = refl;
                looked = record {
                  position = λ i lo h. g.looked.position i (earlier i lo h) h;
                  element = λ i lo h. g.looked.element i (earlier i lo h) h;
                };
              })
        | inl inside ↦
            let o_below = offset-lt width hash input n count batch good b steady j below inside in
            let p =
              probe_slot-seq width hash input n count batch b.table (key j) (b.offsets j)
                steady.consistent.size (good.safe (b.key_positions j) inside) o_below in
            let v = probe_slot width hash b.table (key j) (b.offsets j) in
            let w = b.table.key_container v in
            rw (g.at, active, lt→ltb (b.key_positions j) count inside)
              (record {
                positions = write x j v;
                elements = write y j w;
                at = refl;
                looked = record {
                  position = λ i lo h. elim (eq_or_ne i j) [
                    | inl e ↦ rw (e, write_self x j v) p
                    | inr ne ↦ write_ne x j v i ne ∙ g.looked.position i (omega (arith, lo, ne)) h
                  ];
                  element = λ i lo h. elim (eq_or_ne i j) [
                    | inl e ↦ rw (e, write_self x j v, write_self y j w) refl
                    | inr ne ↦
                        rw (write_ne x j v i ne, write_ne y j w i ne)
                          (g.looked.element i (omega (arith, lo, ne)) h)
                  ];
                };
              })
      ]

  pub gather-loop :
      (x : Memory) × (y : Memory) × (for_range batch 0 (gather width hash input checked) b
        ≡ looked_batch x y)
      × Looked batch x y
  gather-loop =
      let g =
        for_range_inv Gathered (gather width hash input checked) batch 0 batch (omega arith)
          (λ j t lo below g. gather-Gathered j t below g) b
          (record {
            positions = b.hashed_positions;
            elements = b.gathered_elements;
            at = refl;
            looked = record {
              position = λ i lo. absurd (omega (arith, lo));
              element = λ i lo. absurd (omega (arith, lo));
            };
          }) in
      (g.positions, g.elements, g.at, g.looked)
