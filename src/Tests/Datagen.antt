-- ===== src/Tests/Datagen.antt =====
-- Data generation: runs of the code, and its theorems at concrete inputs.
use mathlib.Core.Path.{subst}
use native.Mathlib.Nat.{mod-lt}
use tsubasa.Base.{
  ℕ, ◌+◌, ◌-◌, ◌%◌, ◌^◌, ◌≤◌, ◌<◌, ◌≡◌, refl, sym, Bool, true, false, List, [], ◌∷◌, Option, some,
  none, arith, ltb, if◌then◌else◌, ◌⊎◌, inl, inr, eq_or_ne, lt_or_le,
}
use tsubasa.Base.Loop.{for_range, for_range_inv}
use tsubasa.Base.Memory.{Memory, write}
use tsubasa.Datagen.Bounds.{
  IsBounded, IsBoundedList, composite_distribution-IsBounded, binomial_distribution-IsBounded,
}
use tsubasa.Datagen.BitWidth.{uniform_distribution_bw-width}
use tsubasa.Datagen.Distribution.{
  RandomDistribution, constant_distribution, binomial, binomial_distribution,
  composite_distribution, uniform_distribution_bw, draw_at, least_value, greatest_value,
  min_value_bw, max_value_bw, undefined_shift, thrown, constructed, shift_one, check_bw,
}
use tsubasa.Datagen.Generator.{
  StreamInfo, ComplexDataGenerator, SortOrder, sortorder_asc, sortorder_desc, sortorder_none,
  complex_data_generator, set_property, check_if_possible, max_possible_value, generate, emit,
  emit_all, emit_stream, finish, reverse_output,
}
use tsubasa.Datagen.Generator.Loop.{IsPositive}
use tsubasa.Datagen.Generator.Possible.{AreBounded, AreProductive-max_possible_value}
use tsubasa.Datagen.Generator.Results.{
  IsReady, Generated, ascending_view, Keeps, generate-Ascends, generate-draws,
}
use tsubasa.Datagen.Generator.Sums.{Ascends}

datagen_program : Unit {0}
unfolding binomial_distribution composite_distribution uniform_distribution_bw draw_at least_value
    greatest_value min_value_bw max_value_bw shift_one check_bw complex_data_generator set_property
    check_if_possible max_possible_value generate emit emit_all emit_stream finish reverse_output
    for_range
datagen_program = tt

-- An engine that counts: the values are low, low + 1, ... and then low again.
abbrev counting : ℕ → ℕ → RandomDistribution ℕ
counting low high = record {
  get_rnd_value = λ r. (low + r % (high + 1 - low), r + 1);
  get_min_value = low;
  get_max_value = high;
}

abbrev digits : RandomDistribution ℕ
digits = counting 0 2

counting-greatest : (low high r : ℕ) → low ≤ high → low + r % (high + 1 - low) ≤ high
counting-greatest low high r h =
    let some_values : 0 < high + 1 - low = omega (arith, h) in omega (arith, mod-lt r some_values)

counting-IsBounded : (low high : ℕ) → low ≤ high → high < 2 ^ 32 → IsBounded (counting low high)
counting-IsBounded low high some_values fit = record {
  least = λ r. omega arith;
  greatest = λ r. counting-greatest low high r some_values;
  fits = fit;
}

-- A stream of single values and one of runs of two equal values.
abbrev two_streams : List (StreamInfo ℕ)
two_streams =
    record { value_distr = digits; runlength_distr = none; only_one_value_per_run = false }
    ∷ record {
      value_distr = counting 1 5;
      runlength_distr = some (constant_distribution 2);
      only_one_value_per_run = true;
    }
    ∷ []

abbrev generator_of : SortOrder → Bool → ComplexDataGenerator ℕ
generator_of order sums = record {
  count_values = 6;
  streams = two_streams;
  next_stream_idx = 0;
  sort_order = order;
  apply_prefix_sum = sums;
  prefix_sum_first_value = 10;
}

abbrev blank : Memory
blank a = 0

-- A sort by exchanges of neighbours.
abbrev exchange : ℕ → Memory → Memory
exchange j o = if ltb (o (j + 1)) (o j) then write (write o j (o (j + 1))) (j + 1) (o j) else o

unfoldable exchange_sort : Memory → ℕ → Memory
exchange_sort o n = for_range n 0 (λ i. for_range (n - 1) 0 exchange) o

exchange-at :
    (j : ℕ) (t : Memory) (n i : ℕ) → j + 1 < n → i < n → (k : ℕ) × (k < n) × (exchange j t i ≡ t k)
exchange-at j t n i room below = elim (lt_or_le (t (j + 1)) (t j)) [
  | inr in_order ↦ (i, below, ground (arith, in_order))
  | inl swapped ↦ elim (eq_or_ne i (j + 1)) [
    | inl e ↦ (j, omega (arith, room), ground (arith, swapped, e))
    | inr ne ↦ elim (eq_or_ne i j) [
      | inl e ↦ (j + 1, room, ground (arith, swapped, e))
      | inr ne' ↦ (i, below, ground (arith, swapped, ne, ne'))
    ]
  ]
]

exchange_sort-Keeps : (V : ℕ → Type 0) → Keeps V exchange_sort
unfolding exchange_sort
exchange_sort-Keeps V o n h =
    for_range_inv (λ k t. (i : ℕ) → i < n → V (t i)) (λ i. for_range (n - 1) 0 exchange) n 0 n
      (omega arith)
      (λ k t lo hi all.
        for_range_inv (λ k t. (i : ℕ) → i < n → V (t i)) exchange (n - 1) 0 (n - 1) (omega arith)
          (λ j t lo' hi' all'. λ i below.
            let (k, within, e) = exchange-at j t n i (omega (arith, hi')) below in
            subst V (sym e) (all' k within))
          t all)
      o h

abbrev value_at : Option (ComplexDataGenerator ℕ × ℕ × Memory) → ℕ → ℕ
value_at none i = 0
value_at (some (g, r, out)) i = out i

-- The deltas 0, 2, 2, 2, 4, 4 make the sums 10, 12, 14, 16, 20, 24. A distribution of run lengths
-- that draws 0 leaves the loop running.
generator_runs :
    (value_at (generate exchange_sort exchange_sort 7 (generator_of sortorder_desc true) 0 blank) 1
      ≡ 20)
    × (value_at (generate exchange_sort exchange_sort 7 (generator_of sortorder_asc true) 0 blank) 5
        ≡ 24)
    × (value_at
          (generate exchange_sort exchange_sort 7 (generator_of sortorder_none false) 0 blank)
          4
        ≡ 4)
    × (check_if_possible (generator_of sortorder_none true) ≡ false)
unfolding datagen_program exchange_sort
generator_runs = (refl, refl, refl, refl)

two_streams-AreBounded : AreBounded two_streams
unfolding AreBounded IsPositive
two_streams-AreBounded = (
  counting-IsBounded 0 2 (omega arith) (omega arith),
  tt,
  (counting-IsBounded 1 5 (omega arith) (omega arith), λ r. omega arith, tt),
)

generator_of-IsReady : (order : SortOrder) (sums : Bool) → IsReady (generator_of order sums)
generator_of-IsReady order sums = record {
  some_streams = omega arith;
  valid_idx = omega arith;
  small = omega arith;
}

generate-Ascends_example :
    Generated
      (generator_of sortorder_desc true)
      (λ o.
        let view = ascending_view sortorder_desc 6 o in
        Ascends 10 (max_possible_value two_streams 0) 6 view
        × ((i : ℕ) → i < 6 → view i < 2 ^ 32 - 1))
      (generate exchange_sort exchange_sort 7 (generator_of sortorder_desc true) 0 blank)
unfolding datagen_program
generate-Ascends_example =
    generate-Ascends exchange_sort exchange_sort (generator_of sortorder_desc true) 0 blank
      (generator_of-IsReady sortorder_desc true) two_streams-AreBounded refl (omega arith)
      (omega arith) refl 7 (omega arith)

generate-draws_example :
    Generated
      (generator_of sortorder_asc false)
      (λ o. (i : ℕ) → i < 6 → o i ≤ 5)
      (generate exchange_sort exchange_sort 7 (generator_of sortorder_asc false) 0 blank)
unfolding datagen_program
generate-draws_example =
    generate-draws exchange_sort exchange_sort (λ v. v ≤ 5) (exchange_sort-Keeps (λ v. v ≤ 5))
      (exchange_sort-Keeps (λ v. v ≤ 5)) (generator_of sortorder_asc false) 0 blank
      (generator_of-IsReady sortorder_asc false)
      (AreProductive-max_possible_value two_streams 0 two_streams-AreBounded) refl 7 (omega arith)

composite_distribution-IsBounded_example :
    ((composite_distribution (digits ∷ counting 1 5 ∷ []) (counting 0 1) ≡ none) × (2 ≤ 1))
    ⊎ ((d : RandomDistribution ℕ) × (composite_distribution
            (digits ∷ counting 1 5 ∷ [])
            (counting 0 1)
          ≡ some d)
        × (1 < 2)
        × IsBounded d)
unfolding IsBoundedList
composite_distribution-IsBounded_example =
    composite_distribution-IsBounded (digits ∷ counting 1 5 ∷ []) (counting 0 1)
      (
        counting-IsBounded 0 2 (omega arith) (omega arith),
        (counting-IsBounded 1 5 (omega arith) (omega arith), tt),
      )
      (counting-IsBounded 0 1 (omega arith) (omega arith))

-- Each engine state stands for a number of successes.
abbrev successes : ℕ → ℕ → ℕ → ℕ → ℕ × ℕ
successes trials numerator denominator r = (r % (trials + 1), r + 1)

binomial_distribution-IsBounded_example : IsBounded (binomial successes 8 1 2 100)
unfolding datagen_program
binomial_distribution-IsBounded_example =
    binomial_distribution-IsBounded successes 8 1 2 100 (λ r. omega arith) (omega arith)
      (omega arith) (binomial successes 8 1 2 100) refl

-- The widths 0 and 100 shift too far before they are checked; 33 is refused.
width_runs :
    (uniform_distribution_bw counting 0 ≡ undefined_shift)
    × (uniform_distribution_bw counting 100 ≡ undefined_shift)
    × (uniform_distribution_bw counting 33 ≡ thrown)
unfolding datagen_program
width_runs = (refl, refl, refl)

-- A bit width.
abbrev width : ℕ
width = 4

uniform_distribution_bw-width_example :
    ((uniform_distribution_bw counting width ≡ undefined_shift) × ((width ≡ 0) ⊎ (64 ≤ width)))
    ⊎ ((uniform_distribution_bw counting width ≡ thrown) × (32 < width) × (width < 64))
    ⊎ ((d : RandomDistribution ℕ) × (uniform_distribution_bw counting width ≡ constructed d)
        × (1 ≤ width)
        × (width ≤ 32)
        × ((r : ℕ)
            → ((d.get_rnd_value r).0 < 2 ^ width)
              × ((width ≡ 1) ⊎ (2 ^ (width - 1) ≤ (d.get_rnd_value r).0))))
uniform_distribution_bw-width_example =
    uniform_distribution_bw-width counting
      (λ low high r h. (omega arith, counting-greatest low high r h)) width
