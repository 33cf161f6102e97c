-- ===== src/Datagen/Bounds.antt =====
-- Every distribution draws between the bounds that it reports.
use tsubasa.Base.{
  ℕ, zero, suc, ◌+◌, ◌-◌, ◌^◌, ◌≤◌, ◌<◌, ◌≡◌, refl, List, [], ◌∷◌, some, none, ltb, if◌then◌else◌,
  length, arith, inl, inr, ◌⊎◌, lt_or_le,
}
use tsubasa.Datagen.Distribution.{
  RandomDistribution, binomial, composite, constant_distribution, binomial_distribution,
  composite_distribution, least_value, greatest_value, draw_at,
}

module _ {R : Type 0} where
  -- Each draw lies between the reported bounds, which are 32-bit values.
  pub record IsBounded (d : RandomDistribution R) : Type 0 where
    pub least : (r : R) → d.get_min_value ≤ (d.get_rnd_value r).0
    pub greatest : (r : R) → (d.get_rnd_value r).0 ≤ d.get_max_value
    pub fits : d.get_max_value < 2 ^ 32

  pub constant_distribution-IsBounded :
      (value : ℕ) → value < 2 ^ 32 → IsBounded (constant_distribution value)
  constant_distribution-IsBounded value h = record {
    least = λ r. omega arith;
    greatest = λ r. omega arith;
    fits = h;
  }

  binomial-IsBounded :
      (draw : ℕ → ℕ → ℕ → R → ℕ × R) (trials numerator denominator offset : ℕ)
      → ((r : R) → (draw trials numerator denominator r).0 ≤ trials)
      → offset + trials < 2 ^ 32
      → IsBounded (binomial draw trials numerator denominator offset)
  binomial-IsBounded draw trials numerator denominator offset drawn small = record {
    least = λ r. omega (arith, drawn r, small);
    greatest = λ r. omega (arith, drawn r, small);
    fits = omega arith;
  }

  -- What the checks of the constructor let pass.
  binomial_distribution-some :
      (draw : ℕ → ℕ → ℕ → R → ℕ × R) (trials numerator denominator offset : ℕ)
      → trials < 2 ^ 64 - 2 ^ 32
      → offset < 2 ^ 32
      → {d : RandomDistribution R}
      → binomial_distribution draw trials numerator denominator offset ≡ some d
      → (d ≡ binomial draw trials numerator denominator offset) × (offset + trials < 2 ^ 32)
  unfolding binomial_distribution
  binomial_distribution-some draw trials numerator denominator offset fit fit' made = ground arith

  unfoldable pub IsBoundedList : List (RandomDistribution R) → Type 0
  IsBoundedList [] = Unit
  IsBoundedList (d ∷ ds) = IsBounded d × IsBoundedList ds

  least_value-le : (ds : List (RandomDistribution R)) (start : ℕ) → least_value ds start ≤ start
  unfolding least_value
  least_value-le [] start = omega arith
  least_value-le (d ∷ ds) start =
      ground
        (arith, least_value-le ds (if ltb d.get_min_value start then d.get_min_value else start))

  le-greatest_value :
      (ds : List (RandomDistribution R)) (start : ℕ) → start ≤ greatest_value ds start
  unfolding greatest_value
  le-greatest_value [] start = omega arith
  le-greatest_value (d ∷ ds) start =
      ground
        (arith, le-greatest_value ds (if ltb start d.get_max_value then d.get_max_value else start))

  greatest_value-lt :
      (ds : List (RandomDistribution R)) (start : ℕ)
      → IsBoundedList ds
      → start < 2 ^ 32
      → greatest_value ds start < 2 ^ 32
  unfolding greatest_value IsBoundedList
  greatest_value-lt [] start b h = h
  greatest_value-lt (d ∷ ds) start b h =
      greatest_value-lt ds (if ltb start d.get_max_value then d.get_max_value else start) b.1
        (ground (arith, h, b.0.fits))

  draw_at-bounds :
      (ds : List (RandomDistribution R)) (i low high : ℕ) (r : R)
      → IsBoundedList ds
      → i < length ds
      → (least_value ds low ≤ (draw_at ds i r).0) × ((draw_at ds i r).0 ≤ greatest_value ds high)
  unfolding draw_at IsBoundedList least_value greatest_value
  draw_at-bounds [] i low high r b h = absurd (omega arith)
  draw_at-bounds (d ∷ ds) zero low high r b h = ground (
    arith,
    b.0.least r,
    b.0.greatest r,
    least_value-le ds (if ltb d.get_min_value low then d.get_min_value else low),
    le-greatest_value ds (if ltb high d.get_max_value then d.get_max_value else high),
  )
  draw_at-bounds (d ∷ ds) (suc i) low high r b h =
      draw_at-bounds ds i (if ltb d.get_min_value low then d.get_min_value else low)
        (if ltb high d.get_max_value then d.get_max_value else high) r b.1 (omega arith)

  -- The constructor of CompositeDistribution throws exactly if there is no distribution or the
  -- chooser may draw an index past the last one. What it builds from distributions that draw
  -- between the bounds that they report does so too: it never draws past the end.
  pub composite_distribution-IsBounded :
      (ds : List (RandomDistribution R)) (chooser : RandomDistribution R)
      → IsBoundedList ds
      → IsBounded chooser
      → ((composite_distribution ds chooser ≡ none) × (length ds ≤ chooser.get_max_value))
        ⊎ ((d : RandomDistribution R) × (composite_distribution ds chooser ≡ some d)
            × (chooser.get_max_value < length ds)
            × IsBounded d)
  unfolding composite_distribution
  composite_distribution-IsBounded [] chooser b c = inl (refl, omega arith)
  composite_distribution-IsBounded (d ∷ ds) chooser b c =
      elim (lt_or_le chooser.get_max_value (length (d ∷ ds))) [
        | inr high ↦ inl (ground (arith, high), high)
        | inl below ↦ inr (
          composite (d ∷ ds) chooser,
          ground (arith, below),
          below,
          record {
            least = λ r.
                (draw_at-bounds (d ∷ ds) _ (2 ^ 32 - 1) 0 _ b
                  (omega (arith, c.greatest r, below))).0;
            greatest = λ r.
                (draw_at-bounds (d ∷ ds) _ (2 ^ 32 - 1) 0 _ b
                  (omega (arith, c.greatest r, below))).1;
            fits = greatest_value-lt (d ∷ ds) 0 b (omega arith);
          },
        )
      ]

  -- A BinomialDistribution that is constructed, with an offset of 32 bits and a number of trials
  -- whose sum with the offset does not wrap in 64 bits, draws between the bounds that it reports,
  -- if std::binomial_distribution draws at most the number of trials.
  pub binomial_distribution-IsBounded :
      (draw : ℕ → ℕ → ℕ → R → ℕ × R) (trials numerator denominator offset : ℕ)
      → ((r : R) → (draw trials numerator denominator r).0 ≤ trials)
      → trials < 2 ^ 64 - 2 ^ 32
      → offset < 2 ^ 32
      → (d : RandomDistribution R)
      → binomial_distribution draw trials numerator denominator offset ≡ some d
      → IsBounded d
  binomial_distribution-IsBounded draw trials numerator denominator offset drawn fit fit' d made =
      let (e, small) =
        binomial_distribution-some draw trials numerator denominator offset fit fit' made in
      rw e (binomial-IsBounded draw trials numerator denominator offset drawn small)
