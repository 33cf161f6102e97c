-- ===== src/HashSet/Batch/Scatter.antt =====
-- The second loop of a round: the live lanes that found a free slot write their keys, and where
-- several write to one slot the last key stays.
use mathlib.Core.Path.{subst}
use native.Mathlib.Nat.{zero-add}
use tsubasa.Base.{
  ℕ, ◌+◌, ◌<◌, ◌≡◌, ◌≢◌, ◌∙◌, ap, refl, sym, Bool, arith, inl, inr, lt_or_le, eq_or_ne, lt→ltb,
  le→ltb, ==_iff, ◌⊎◌,
}
use tsubasa.Base.Loop.{for_range, for_range_inv}
use tsubasa.Base.Memory.{Memory, write, write_self, write_ne}
use tsubasa.HashSet.Batch.{Batch, scatter}
use tsubasa.HashSet.Batch.Gather.{Looked, looked_batch}
use tsubasa.HashSet.Batch.Lanes.{
  IsBatchInput, Consistent, Steady, Checks, offset-lt, is_active-live,
}
use tsubasa.HashSet.Invariant.{seq, IsPlaced, ==_ne}

module _ (width : ℕ) (hash input : ℕ → ℕ) (n count batch : ℕ)
    (good : IsBatchInput hash input n count) (checked : Bool) (b : Batch)
    (steady : Steady width hash input n count batch b)
    (checks : Checks width hash input n count batch checked b) (x y : Memory)
    (looked : Looked width hash input n count batch good checked b steady checks batch x y) where
  abbrev keys : Memory
  keys = b.table.key_container

  abbrev held : ℕ → ℕ
  held i = input (b.key_positions i)

  -- The keys after the first `j` lanes.
  pub record Written (j : ℕ) (keys' : Memory) : Type 0 where
    pub kept : (p : ℕ) → keys p ≢ 0 → keys' p ≡ keys p
    pub fresh :
        (p : ℕ)
        → keys' p ≢ 0
        → keys p ≡ 0
        → (i : ℕ) × (i < batch) × (b.key_positions i < count) × (x i ≡ p) × (held i ≡ keys' p)
    pub filled : (i : ℕ) → i < j → b.key_positions i < count → keys' (x i) ≢ 0

  abbrev pub written_batch : Memory → Batch
  written_batch keys' =
      record (looked_batch width hash input n count batch good checked b steady checks x y) {
        table = record b.table { key_container = keys' };
      }

  record Scattered (j : ℕ) (t : Batch) : Type 0 where
    contents : Memory
    at : t ≡ written_batch contents
    written : Written j contents

  write-Written :
      (j : ℕ) (keys' : Memory)
      → j < batch
      → b.key_positions j < count
      → keys (x j) ≡ 0
      → Written j keys'
      → Written (j + 1) (write keys' (x j) (held j))
  write-Written j keys' below inside empty w = record {
    kept =
        λ p used. write_ne keys' (x j) (held j) p (λ e. used (ap keys e ∙ empty)) ∙ w.kept p used;
    fresh = λ p used free. elim (eq_or_ne p (x j)) [
      | inl e ↦ (j, below, inside, sym e, rw (e, write_self keys' (x j) (held j)) refl)
      | inr ne ↦
          let old = write_ne keys' (x j) (held j) p ne in
          let (i, i_below, i_inside, at, holds) = w.fresh p (λ e. used (old ∙ e)) free in
          (i, i_below, i_inside, at, holds ∙ sym old)
    ];
    filled = λ i lo h. elim (eq_or_ne (x i) (x j)) [
      | inl e ↦ rw (e, write_self keys' (x j) (held j)) (good.nonzero (b.key_positions j) inside)
      | inr ne ↦ elim (eq_or_ne i j) [
        | inl e ↦ absurd (ne (ap x e))
        | inr other ↦
            rw (write_ne keys' (x j) (held j) (x i) ne) (w.filled i (omega (arith, lo, other)) h)
      ]
    ];
  }

  leave-Written :
      (j : ℕ) (keys' : Memory)
      → (b.key_positions j < count → keys (x j) ≢ 0)
      → Written j keys'
      → Written (j + 1) keys'
  leave-Written j keys' used w = record {
    kept = w.kept;
    fresh = w.fresh;
    filled = λ i lo h. elim (eq_or_ne i j) [
      | inl e ↦ let here = used (rw e at h) in rw (e, w.kept (x j) here) here
      | inr ne ↦ w.filled i (omega (arith, lo, ne)) h
    ];
  }

  scatter-Scattered :
      (j : ℕ) (t : Batch)
      → j < batch
      → Scattered j t
      → Scattered (j + 1) (scatter width hash input checked j t)
  unfolding scatter
  scatter-Scattered j t below g =
      let u = written_batch g.contents in
      let active =
        is_active-live width hash input n count batch checked b u j checks
          steady.consistent.elements refl below in
      elim (lt_or_le (b.key_positions j) count) [
        | inr over ↦
            rw (g.at, active, le→ltb (b.key_positions j) count over)
              (record {
                contents = g.contents;
                at = refl;
                written =
                    leave-Written j g.contents (λ h. absurd (omega (arith, h, over))) g.written;
              })
        | inl inside ↦ elim (eq_or_ne (y j) 0) [
          | inl e ↦
              rw (g.at, active, lt→ltb (b.key_positions j) count inside, (==_iff _ _).1 e)
                (record {
                  contents = write g.contents (x j) (held j);
                  at = refl;
                  written =
                      write-Written j g.contents below inside
                        (sym (looked.element j below inside) ∙ e) g.written;
                })
          | inr ne ↦
              rw (g.at, active, lt→ltb (b.key_positions j) count inside, ==_ne (y j) 0 ne)
                (record {
                  contents = g.contents;
                  at = refl;
                  written =
                      leave-Written j g.contents (λ h e. ne (looked.element j below inside ∙ e))
                        g.written;
                })
        ]
      ]

  pub scatter-loop :
      (keys' : Memory) × (for_range batch 0
          (scatter width hash input checked)
          (looked_batch width hash input n count batch good checked b steady checks x y)
        ≡ written_batch keys')
      × Written batch keys'
  scatter-loop =
      let g =
        for_range_inv Scattered (scatter width hash input checked) batch 0 batch (omega arith)
          (λ j t lo below g. scatter-Scattered j t below g)
          (looked_batch width hash input n count batch good checked b steady checks x y)
          (record {
            contents = keys;
            at = refl;
            written = record {
              kept = λ p used. refl;
              fresh = λ p used free. absurd (used free);
              filled = λ i lo. absurd (omega (arith, lo));
            };
          }) in
      (g.contents, g.at, g.written)

  module _ (keys' : Memory) (w : Written batch keys') where
    -- A key that a lane holds is in no slot if the lane has found a free one.
    held-absent :
        (i : ℕ)
        → i < batch
        → b.key_positions i < count
        → keys (x i) ≡ 0
        → (q : ℕ) → q < n
        → keys q ≢ held i
    held-absent i below inside empty q q_below same =
        let nonzero = good.nonzero (b.key_positions i) inside in
        let here = looked.position i below inside in
        let place : IsPlaced width hash n keys (held i) q =
          subst (λ k. IsPlaced width hash n keys k q) same
            (steady.consistent.placed q q_below (λ e. nonzero (sym same ∙ e))) in
        elim (lt_or_le place.offset (b.offsets i)) [
          | inl early ↦
              (steady.passed i below inside place.offset early).1 (ap keys place.at ∙ same)
          | inr late ↦ elim (eq_or_ne place.offset (b.offsets i)) [
            | inl e ↦ nonzero (
                sym same
                ∙ ap keys (sym place.at ∙ ap (seq width hash n (held i)) e ∙ sym here)
                ∙ empty)
            | inr ne ↦
                (place.path (b.offsets i) (omega (arith, late, ne))).0 (ap keys (sym here) ∙ empty)
          ]
        ]

    held-IsPlaced :
        (i : ℕ) → i < batch → b.key_positions i < count → IsPlaced width hash n keys' (held i) (x i)
    held-IsPlaced i below inside = record {
      offset = b.offsets i;
      below = offset-lt width hash input n count batch good b steady i below inside;
      at = sym (looked.position i below inside);
      path = λ q lo.
          let old = steady.passed i below inside q lo in
          rw (w.kept (seq width hash n (held i) q) old.0) old;
    }

    kept-IsPlaced : (p : ℕ) → p < n → keys p ≢ 0 → IsPlaced width hash n keys' (keys p) p
    kept-IsPlaced p below used =
        let place = steady.consistent.placed p below used in
        record {
          offset = place.offset;
          below = place.below;
          at = place.at;
          path = λ q lo.
              let old = place.path q lo in rw (w.kept (seq width hash n (keys p) q) old.0) old;
        }

    pub written-Consistent : Consistent width hash input n count batch (written_batch keys')
    written-Consistent =
        let c = steady.consistent in
        record {
          size = c.size;
          elements = c.elements;
          infinity = c.infinity;
          placed = λ p below used. elim (eq_or_ne (keys p) 0) [
            | inr old ↦ rw (w.kept p old) (kept-IsPlaced p below old)
            | inl new ↦
                let (i, i_below, inside, at, holds) = w.fresh p used new in
                rw (sym holds, sym at) (held-IsPlaced i i_below inside)
          ];
          counted = λ p below used. elim (eq_or_ne (keys p) 0) [
            | inr old ↦ rw (w.kept p old) (c.counted p below old)
            | inl new ↦
                let (i, i_below, inside, at, holds) = w.fresh p used new in
                rw (c.free p below new, sym holds, zero-add)
                  (c.absent (held i) (good.nonzero (b.key_positions i) inside)
                    (held-absent i i_below inside (ap keys at ∙ new)))
          ];
          absent = λ k nonzero none_there.
              c.absent k nonzero (λ p below same.
                none_there p below (w.kept p (λ e. nonzero (sym same ∙ e)) ∙ same));
          free = λ p below empty. elim (eq_or_ne (keys p) 0) [
            | inl old ↦ c.free p below old
            | inr used ↦ absurd (used (sym (w.kept p used) ∙ empty))
          ];
          sum = c.sum;
          bounded = c.bounded;
        }

    -- A slot in use has been counted, or a live lane that holds its key has just written it.
    pub written-counted :
        (p : ℕ)
        → p < n
        → keys' p ≢ 0
        → (0 < b.table.key_count_container p)
          ⊎ ((i : ℕ) × (i < batch) × (b.key_positions i < count) × (x i ≡ p) × (held i ≡ keys' p))
    written-counted p below used = elim (eq_or_ne (keys p) 0) [
      | inr old ↦ inl (steady.positive p below old)
      | inl new ↦ inr (w.fresh p used new)
    ]
