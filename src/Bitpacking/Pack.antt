-- ===== src/Bitpacking/Pack.antt =====
-- bitpacking.h: one call of `pack` and of `compress_impl`. The input and the result do not overlap.
pub mod Correct
use tsubasa.Base.{ℕ, ◌-◌, List, none, some}
use tsubasa.Base.Memory.{Memory}
use tsubasa.Bitpacking.Code.{Statement, State, exec}
use tsubasa.Bitpacking.Dispatch.{pack_code}

-- `vectors` and `tmps` are what the local arrays `result_vector` and `tmp_vector` hold before
-- they are assigned.
abbrev pub entry : Memory → Memory → ℕ → ℕ → Memory → State
entry vectors tmps data_in result memory = record {
  data_at = data_in;
  result_at = result;
  result_vector = vectors;
  tmp_vector = tmps;
  result = memory;
}

module _ (wordsize lanes : ℕ) (input vectors tmps : Memory) where
  -- The memory after `pack`, and the count of words that it returns.
  unfoldable pub pack : List Statement → ℕ → ℕ → Memory → record { memory : Memory; length : ℕ }
  pack code data_in result memory =
      let s = exec wordsize lanes input code (entry vectors tmps data_in result memory) in
      record { memory = s.result; length = s.result_at - result }

  -- A bit width with no case packs nothing.
  unfoldable pub compress_impl : ℕ → ℕ → ℕ → Memory → Memory
  unfolding pack
  compress_impl bw data_in result memory = elim (pack_code wordsize bw) [
    | none ↦ memory
    | some code ↦ (pack code data_in result memory).memory
  ]
