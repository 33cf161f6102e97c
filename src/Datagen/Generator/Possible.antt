-- ===== src/Datagen/Generator/Possible.antt =====
-- What `checkIfPossible` guarantees.
use tsubasa.Base.{
  ℕ, zero, suc, ◌+◌, ◌-◌, ◌*◌, ◌%◌, ◌^◌, ◌≤◌, ◌<◌, ◌≡◌, true, List, [], ◌∷◌, ltb, if◌then◌else◌,
  arith, inl, inr, Bool-cases,
}
use mathlib.Core.Option.{some-injective}
use mathlib.Core.Path.{subst}
use native.Mathlib.Nat.{mod-eq_of_lt, mul-le-mul}
use tsubasa.Datagen.Bounds.{IsBounded}
use tsubasa.Datagen.Generator.{
  StreamInfo, ComplexDataGenerator, max_possible_value, check_if_possible, is_unsorted,
}
use tsubasa.Datagen.Generator.Loop.{IsPositive, IsProductive, AreProductive}

module _ {R : Type 0} where
  -- The values lie between the bounds that their distribution reports.
  unfoldable pub AreBounded : List (StreamInfo R) → Type 0
  AreBounded [] = Unit
  AreBounded (s ∷ ss) = IsBounded s.value_distr × IsPositive s.runlength_distr × AreBounded ss

  le-max_possible_value : (ss : List (StreamInfo R)) (max : ℕ) → max ≤ max_possible_value ss max
  unfolding max_possible_value
  le-max_possible_value [] max = omega arith
  le-max_possible_value (s ∷ ss) max =
      let next = if ltb max s.value_distr.get_max_value then s.value_distr.get_max_value else max in
      ground (arith, le-max_possible_value ss next)

  pub max_possible_value-lt :
      (ss : List (StreamInfo R)) (max : ℕ)
      → AreBounded ss
      → max < 2 ^ 32
      → max_possible_value ss max < 2 ^ 32
  unfolding max_possible_value AreBounded
  max_possible_value-lt [] max b h = h
  max_possible_value-lt (s ∷ ss) max b h =
      max_possible_value-lt ss _ b.2 (ground (arith, h, b.0.fits))

  pub AreProductive-max_possible_value :
      (ss : List (StreamInfo R)) (max : ℕ)
      → AreBounded ss
      → AreProductive (λ v. v ≤ max_possible_value ss max) ss
  unfolding max_possible_value AreBounded AreProductive
  AreProductive-max_possible_value [] max b i s found = absurd (ground arith)
  AreProductive-max_possible_value (t ∷ ss) max b zero s found =
      let next = if ltb max t.value_distr.get_max_value then t.value_distr.get_max_value else max in
      subst (IsProductive (λ v. v ≤ max_possible_value ss next)) (some-injective t s found)
        (record {
          draws = λ r. ground (arith, b.0.greatest r, le-max_possible_value ss next);
          runs = b.1;
        })
  AreProductive-max_possible_value (t ∷ ss) max b (suc i) s found =
      AreProductive-max_possible_value ss _ b.2 i s found

  pub check_if_possible-small :
      (g : ComplexDataGenerator R)
      → g.apply_prefix_sum ≡ true
      → AreBounded g.streams
      → 0 < g.count_values
      → g.count_values < 2 ^ 32
      → g.prefix_sum_first_value < 2 ^ 32
      → check_if_possible g ≡ true
      → g.prefix_sum_first_value + (g.count_values - 1) * max_possible_value g.streams 0
        < 2 ^ 32 - 1
  unfolding check_if_possible
  check_if_possible-small g summed b some_values small fit possible =
      let most = max_possible_value-lt g.streams 0 b (omega arith) in
      let area =
        mul-le-mul {n₁ = g.count_values - 1} {m₁ = max_possible_value g.streams 0} {n₂ = 2 ^ 32 - 2}
          {m₂ = 2 ^ 32 - 1} (omega (arith, small)) (omega (arith, most)) in
      let same : (g.count_values + 2 ^ 64 - 1) % 2 ^ 64 ≡ g.count_values - 1 =
        omega (arith, small) in
      let fits : g.prefix_sum_first_value + (g.count_values - 1) * max_possible_value g.streams 0
          < 2 ^ 64 =
        omega (arith, area, fit) in
      elim (Bool-cases (is_unsorted g.sort_order)) [
        | inl none_yet ↦ absurd (ground (arith, rw (summed, none_yet) at possible))
        | inr sorted ↦ ground (arith, rw (summed, sorted, same, mod-eq_of_lt fits) at possible)
      ]
