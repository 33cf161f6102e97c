-- ===== src/Bitpacking/Impl/Text.antt =====
-- The groups of statements that bitpacking_impl.h is made of: each lane loop stands together
-- with the pointer increments below it.
use tsubasa.Base.{ℕ, List, [], ◌∷◌, ◌++◌}
use tsubasa.Bitpacking.Code.{
  Statement, load_init, load_or_shift, store_result, store_result_remainder, copy, increment_data,
  increment_result,
}

-- One group above the next.
infixr 66 ◌⨾◌
abbrev pub ◌⨾◌ : List Statement → List Statement → List Statement
a ⨾ b = a ++ b

abbrev pub load : List Statement
load = load_init ∷ increment_data ∷ []

abbrev pub shift_in : ℕ → List Statement
shift_in shift = load_or_shift shift ∷ increment_data ∷ []

abbrev pub store : ℕ → List Statement
store shift = store_result shift ∷ increment_data ∷ increment_result ∷ []

abbrev pub spill : ℕ → ℕ → List Statement
spill left right = store_result_remainder left right ∷ increment_data ∷ increment_result ∷ []

abbrev pub plain : List Statement
plain = copy ∷ increment_data ∷ increment_result ∷ []
