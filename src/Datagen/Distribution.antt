-- ===== src/Datagen/Distribution.antt =====
-- The subclasses of RandomDistribution. `R` is the state of all random engines together, so that
-- two pointers to one distribution draw from one engine. UniformDistribution.h is no file of the
-- repository: its class is a parameter, and so are the draws of std::binomial_distribution. `none`
-- is an exception that is thrown, unless a comment says another thing.
use tsubasa.Base.{
  ℕ, zero, suc, ◌+◌, ◌-◌, ◌%◌, ◌^◌, Bool, List, [], ◌∷◌, Option, some, none, ltb, leb, ◌==◌, ◌||◌,
  if◌then◌else◌, length,
}

-- RandomDistribution.h.
pub record RandomDistribution (R : Type 0) : Type 0 where
  pub get_rnd_value : R → ℕ × R
  pub get_min_value : ℕ
  pub get_max_value : ℕ

-- The elements are counted from 0; no element is there past the end.
abbrev pub get_elem? {ℓ} : {A : Type ℓ} → List A → ℕ → Option A
get_elem? [] i = none
get_elem? (x ∷ xs) zero = some x
get_elem? (x ∷ xs) (suc i) = get_elem? xs i

-- `static_cast< uint64_t >( 1 ) << amount`, which is undefined (`none`) from 64 on.
unfoldable pub shift_one : ℕ → Option ℕ
shift_one amount = if ltb amount 64 then some (2 ^ amount) else none

-- minValueBw and maxValueBw of general/utils.h; `bw - 1` is of type size_t.
unfoldable pub min_value_bw : ℕ → Option ℕ
min_value_bw bw = if bw == 1 then some 0 else (elim (shift_one ((bw + 2 ^ 64 - 1) % 2 ^ 64)) [
  | none ↦ none
  | some v ↦ some (v % 2 ^ 32)
])

unfoldable pub max_value_bw : ℕ → Option ℕ
max_value_bw bw = elim (shift_one bw) [
  | none ↦ none
  | some v ↦ some ((v + 2 ^ 64 - 1) % 2 ^ 64 % 2 ^ 32)
]

-- `checkBw`: whether it throws.
unfoldable pub check_bw : ℕ → Bool
check_bw bw = ltb bw 1 || ltb 32 bw

-- How the constructor of UniformDistributionBw ends.
pub data Constructed (R : Type 0) : Type 0 where
  undefined_shift : Constructed R
  thrown : Constructed R
  constructed : RandomDistribution R → Constructed R

module _ {R : Type 0} where
  -- ConstantDistribution.
  abbrev pub constant_distribution : ℕ → RandomDistribution R
  constant_distribution value = record {
    get_rnd_value = λ r. (value, r);
    get_min_value = value;
    get_max_value = value;
  }

  -- The methods of BinomialDistribution; `draw` is `distribution(generator)`.
  abbrev pub binomial : (ℕ → ℕ → ℕ → R → ℕ × R) → ℕ → ℕ → ℕ → ℕ → RandomDistribution R
  binomial draw count_trials prob_numerator prob_denominator offset = record {
    get_rnd_value = λ r.
        let (value, r') = draw count_trials prob_numerator prob_denominator r in
        ((offset + value) % 2 ^ 32, r');
    get_min_value = offset;
    get_max_value = (offset + count_trials) % 2 ^ 32;
  }

  -- BinomialDistribution with the checks of `initDistribution`.
  unfoldable pub binomial_distribution :
      (ℕ → ℕ → ℕ → R → ℕ × R) → ℕ → ℕ → ℕ → ℕ → Option (RandomDistribution R)
  binomial_distribution draw count_trials prob_numerator prob_denominator offset =
      if count_trials == 0
      then none
      else (if ltb prob_denominator prob_numerator
          then none
          else (if leb (2 ^ 32) ((offset + count_trials) % 2 ^ 64)
              then none
              else some (binomial draw count_trials prob_numerator prob_denominator offset)))

  -- UniformDistributionBw: the base class is constructed first, and then the width is checked.
  unfoldable pub uniform_distribution_bw : (ℕ → ℕ → RandomDistribution R) → ℕ → Constructed R
  uniform_distribution_bw uniform bw = elim (min_value_bw bw) [
    | none ↦ undefined_shift
    | some low ↦ elim (max_value_bw bw) [
      | none ↦ undefined_shift
      | some high ↦ if check_bw bw then thrown else constructed (uniform low high)
    ]
  ]

  -- The loop over `distrs` in the constructor of CompositeDistribution.
  unfoldable pub least_value : List (RandomDistribution R) → ℕ → ℕ
  least_value [] min_value = min_value
  least_value (d ∷ ds) min_value =
      least_value ds (if ltb d.get_min_value min_value then d.get_min_value else min_value)

  unfoldable pub greatest_value : List (RandomDistribution R) → ℕ → ℕ
  greatest_value [] max_value = max_value
  greatest_value (d ∷ ds) max_value =
      greatest_value ds (if ltb max_value d.get_max_value then d.get_max_value else max_value)

  -- A draw from the distribution at an index; past the end the code has no defined behaviour, and
  -- the model keeps a value that does not fit 32 bits.
  unfoldable pub draw_at : List (RandomDistribution R) → ℕ → R → ℕ × R
  draw_at distrs i r = elim (get_elem? distrs i) [ none ↦ (2 ^ 32, r) | some d ↦ d.get_rnd_value r ]

  -- The methods of CompositeDistribution.
  abbrev pub composite : List (RandomDistribution R) → RandomDistribution R → RandomDistribution R
  composite distrs chooser = record {
    get_rnd_value = λ r. let (i, r') = chooser.get_rnd_value r in draw_at distrs i r';
    get_min_value = least_value distrs (2 ^ 32 - 1);
    get_max_value = greatest_value distrs 0;
  }

  -- CompositeDistribution with the checks of its constructor.
  unfoldable pub composite_distribution :
      List (RandomDistribution R) → RandomDistribution R → Option (RandomDistribution R)
  composite_distribution [] chooser = none
  composite_distribution (d ∷ ds) chooser =
      if leb (length (d ∷ ds)) chooser.get_max_value
      then none
      else some (composite (d ∷ ds) chooser)
