-- ===== src/Datagen/BitWidth.antt =====
-- UniformDistributionBw draws values of a given bit width.
use native.Mathlib.Nat.{mod-eq_of_lt}
use tsubasa.Base.{
  ℕ, suc, ◌+◌, ◌*◌, ◌-◌, ◌%◌, ◌^◌, ◌≤◌, ◌<◌, ◌≡◌, refl, true, false, Option, some, none, ◌==◌,
  arith, inl, inr, ◌⊎◌, lt_or_le, eq_or_ne, lt→ltb, le→ltb, ==_iff,
}
use tsubasa.Base.Power.{two-pow-le, two-pow-pos, two-pow-suc}
use tsubasa.Datagen.Distribution.{
  RandomDistribution, undefined_shift, thrown, constructed, uniform_distribution_bw, min_value_bw,
  max_value_bw, shift_one, check_bw,
}

-- The shifts are defined for the widths 1 to 63.
min_value_bw-zero : min_value_bw 0 ≡ none
unfolding min_value_bw shift_one
min_value_bw-zero = refl

max_value_bw-none : (bw : ℕ) → 64 ≤ bw → max_value_bw bw ≡ none
unfolding max_value_bw shift_one
max_value_bw-none bw h = rw (max_value_bw, le→ltb bw 64 h) refl

min_value_bw-some :
    (bw : ℕ)
    → 1 ≤ bw
    → bw < 64
    → (low : ℕ) × (min_value_bw bw ≡ some low)
      × (bw ≤ 32 → ((bw ≡ 1) × (low ≡ 0)) ⊎ ((1 < bw) × (low ≡ 2 ^ (bw - 1))))
unfolding min_value_bw shift_one
min_value_bw-some bw lo hi = elim (eq_or_ne bw 1) [
  | inl one ↦ (0, rw (min_value_bw, (==_iff bw 1).1 one) refl, λ small. inl (one, refl))
  | inr more ↦
      let ne : bw == 1 ≡ false = ground (arith, more) in
      let same : (bw + 2 ^ 64 - 1) % 2 ^ 64 ≡ bw - 1 = omega (arith, lo, hi) in
      (
        2 ^ (bw - 1) % 2 ^ 32,
        rw (min_value_bw, ne, same, lt→ltb (bw - 1) 64 (omega (arith, hi))) refl,
        λ small. inr (
          omega (arith, lo, more),
          mod-eq_of_lt (omega (arith, two-pow-le (bw - 1) 31 (omega (arith, small)))),
        ),
      )
]

max_value_bw-some :
    (bw : ℕ) → bw < 64 → (high : ℕ) × (max_value_bw bw ≡ some high) × (bw ≤ 32 → high + 1 ≡ 2 ^ bw)
unfolding max_value_bw shift_one
max_value_bw-some bw hi = (
  (2 ^ bw + 2 ^ 64 - 1) % 2 ^ 64 % 2 ^ 32,
  rw (max_value_bw, lt→ltb bw 64 hi) refl,
  λ small. let fits = two-pow-le bw 32 small in omega (arith, fits, two-pow-pos bw),
)

check_bw-passes : (bw : ℕ) → 1 ≤ bw → bw ≤ 32 → check_bw bw ≡ false
unfolding check_bw
check_bw-passes bw lo hi = ground (arith, lo, hi)

check_bw-throws : (bw : ℕ) → 32 < bw → check_bw bw ≡ true
unfolding check_bw
check_bw-throws bw h = ground (arith, h)

module _ {R : Type 0} where
  drawn-width :
      (uniform : ℕ → ℕ → RandomDistribution R)
      → ((low high : ℕ) (r : R)
          → low ≤ high
          → (low ≤ ((uniform low high).get_rnd_value r).0)
            × (((uniform low high).get_rnd_value r).0 ≤ high))
      → (bw low high : ℕ) (r : R) → 1 ≤ bw
      → ((bw ≡ 1) × (low ≡ 0)) ⊎ ((1 < bw) × (low ≡ 2 ^ (bw - 1)))
      → high + 1 ≡ 2 ^ bw
      → (((uniform low high).get_rnd_value r).0 < 2 ^ bw)
        × ((bw ≡ 1) ⊎ (2 ^ (bw - 1) ≤ ((uniform low high).get_rnd_value r).0))
  drawn-width uniform drawn bw low high r lo least top = elim least [
    | inl (one, e) ↦
        let b = drawn low high r (omega (arith, e)) in (omega (arith, b.1, top), inl one)
    | inr (more, e) ↦
        let same : suc (bw - 1) ≡ bw = omega (arith, lo) in
        let double : 2 ^ bw ≡ 2 * 2 ^ (bw - 1) = rw same at (two-pow-suc (bw - 1)) in
        let b = drawn low high r (omega (arith, e, top, double, two-pow-pos (bw - 1))) in
        (omega (arith, b.1, top), inr (omega (arith, b.0, e)))
  ]

  undefined-max :
      (uniform : ℕ → ℕ → RandomDistribution R) (bw : ℕ) (low : Option ℕ)
      → min_value_bw bw ≡ low
      → max_value_bw bw ≡ none
      → uniform_distribution_bw uniform bw ≡ undefined_shift
  unfolding uniform_distribution_bw
  undefined-max uniform bw none e e' = rw (uniform_distribution_bw, e) refl
  undefined-max uniform bw (some low) e e' = rw (uniform_distribution_bw, e, e') refl

  -- The constructor of UniformDistributionBw shifts by an amount that is undefined exactly for the
  -- width 0 and for widths of at least 64, throws exactly for the widths 33 to 63, and returns
  -- exactly for the widths 1 to 32. If the uniform distribution draws between the two bounds that it
  -- is given, every value that is then drawn takes exactly that many bits, or, for the width 1, at
  -- most one.
  pub uniform_distribution_bw-width :
      (uniform : ℕ → ℕ → RandomDistribution R)
      → ((low high : ℕ) (r : R)
          → low ≤ high
          → (low ≤ ((uniform low high).get_rnd_value r).0)
            × (((uniform low high).get_rnd_value r).0 ≤ high))
      → (bw : ℕ)
      → ((uniform_distribution_bw uniform bw ≡ undefined_shift) × ((bw ≡ 0) ⊎ (64 ≤ bw)))
        ⊎ ((uniform_distribution_bw uniform bw ≡ thrown) × (32 < bw) × (bw < 64))
        ⊎ ((d : RandomDistribution R) × (uniform_distribution_bw uniform bw ≡ constructed d)
            × (1 ≤ bw)
            × (bw ≤ 32)
            × ((r : R)
                → ((d.get_rnd_value r).0 < 2 ^ bw)
                  × ((bw ≡ 1) ⊎ (2 ^ (bw - 1) ≤ (d.get_rnd_value r).0))))
  unfolding uniform_distribution_bw
  uniform_distribution_bw-width uniform drawn bw = elim (eq_or_ne bw 0) [
    | inl zero_width ↦
        inl (rw (uniform_distribution_bw, zero_width, min_value_bw-zero) refl, inl zero_width)
    | inr some_width ↦ elim (lt_or_le bw 64) [
      | inr over ↦
          inl
            (undefined-max uniform bw (min_value_bw bw) refl (max_value_bw-none bw over), inr over)
      | inl inside ↦
          let lo : 1 ≤ bw = omega (arith, some_width) in
          let (low, low_is, low_at) = min_value_bw-some bw lo inside in
          let (high, high_is, high_at) = max_value_bw-some bw inside in
          elim (lt_or_le 32 bw) [
            | inl wide ↦ inr (
                inl (
                  rw (uniform_distribution_bw, low_is, high_is, check_bw-throws bw wide) refl,
                  wide,
                  inside,
                ))
            | inr hi ↦ inr (
                inr (
                  uniform low high,
                  rw (uniform_distribution_bw, low_is, high_is, check_bw-passes bw lo hi) refl,
                  lo,
                  hi,
                  λ r. drawn-width uniform drawn bw low high r lo (low_at hi) (high_at hi),
                ))
          ]
    ]
  ]
