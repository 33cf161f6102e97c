-- ===== src/HashSet/Batch.antt =====
-- src/main/datastructures/set/hash_set.h: `build_scalar_batch` and `build_vectorized_batch`, which
-- differ in pragmas only. `batch` is the number of keys in flight, 256 in the code; arrays of that
-- many elements are functions from indices. `hash` is the hash that the code writes out.
pub mod Lanes
pub mod Gather
pub mod Scatter
pub mod Tally
pub mod Advance
pub mod Turn
pub mod Round
pub mod Start
pub mod Built
pub mod Answers
use tsubasa.Base.{
  ℕ, zero, suc, ◌+◌, ◌-◌, ◌%◌, ◌^◌, Bool, true, false, Option, none, some, ltb, ◌==◌, ◌&&◌,
  if◌then◌else◌,
}
use tsubasa.Base.Loop.{for_range}
use tsubasa.Base.Memory.{Memory, write}
use tsubasa.HashSet.{Histogram, bump, probe_slot}

pub record Batch : Type 0 where
  pub key_positions : Memory
  pub hashed_positions : Memory
  pub gathered_elements : Memory
  pub offsets : Memory
  pub max_position : ℕ
  pub table : Histogram

-- The second loop tests `key_positions[ i ] < ElementCount`; the first one does not.
abbrev pub is_active : Bool → Batch → ℕ → Bool
is_active checked b i = if checked then ltb (b.key_positions i) b.table.element_count else true

module _ (width : ℕ) (hash : ℕ → ℕ) (keys : ℕ → ℕ) where
  -- The bodies of the three loops of a round.
  unfoldable pub gather : Bool → ℕ → Batch → Batch
  gather checked i b =
      let position = probe_slot width hash b.table (keys (b.key_positions i)) (b.offsets i) in
      if is_active checked b i
      then (record b {
        hashed_positions = write b.hashed_positions i position;
        gathered_elements = write b.gathered_elements i (b.table.key_container position);
      })
      else b

  unfoldable pub scatter : Bool → ℕ → Batch → Batch
  scatter checked i b =
      if is_active checked b i && (b.gathered_elements i == 0)
      then (record b {
        table = record b.table {
          key_container =
              write b.table.key_container (b.hashed_positions i) (keys (b.key_positions i));
        };
      })
      else b

  unfoldable pub tally : Bool → ℕ → Batch → Batch
  tally checked i b =
      let position = b.hashed_positions i in
      if is_active checked b i
      then (if b.table.key_container position == keys (b.key_positions i)
          then (record b {
            table = record b.table {
              key_count_container = bump width hash b.table.key_count_container position;
            };
            offsets = write b.offsets i 0;
            max_position = b.max_position + 1;
            key_positions = write b.key_positions i (b.max_position + 1);
          })
          else (record b { offsets = write b.offsets i (b.offsets i + 1) }))
      else b

  module _ (batch : ℕ) where
    unfoldable pub round : Bool → Batch → Batch
    round checked b =
        for_range batch 0 (tally checked)
          (for_range batch 0 (scatter checked) (for_range batch 0 (gather checked) b))

    unfoldable pub processable_elements : Batch → ℕ
    processable_elements b =
        for_range batch 0
          (λ i count. if ltb (b.key_positions i) b.table.element_count then count + 1 else count) 0

    -- The two `while` loops; `none` is that the fuel ran out.
    unfoldable pub whole_rounds : ℕ → Batch → Option Batch
    whole_rounds zero b = none
    whole_rounds (suc fuel) b = elim (ltb b.max_position b.table.element_count) [
      | false ↦ some b
      | true ↦ whole_rounds fuel (round false b)
    ]

    unfoldable pub last_rounds : ℕ → Batch → Option Batch
    last_rounds zero b = none
    last_rounds (suc fuel) b = elim (ltb 0 (processable_elements b)) [
      | false ↦ some b
      | true ↦ last_rounds fuel (round true b)
    ]

    abbrev pub start_batch : Histogram → Batch
    start_batch s = record {
      key_positions = λ i. i;
      hashed_positions = λ i. 0;
      gathered_elements = λ i. 0;
      offsets = λ i. 0;
      max_position = batch - 1;
      table = s;
    }

    unfoldable pub build_scalar_batch : ℕ → Histogram → Option Histogram
    build_scalar_batch fuel s = elim (whole_rounds fuel (start_batch s)) [
      | none ↦ none
      | some b ↦ elim (last_rounds fuel b) [ none ↦ none | some b' ↦ some b'.table ]
    ]

    -- The same loops with other pragmas; lanes that write to one slot do so in ascending order here
    -- too.
    unfoldable pub build_vectorized_batch : ℕ → Histogram → Option Histogram
    build_vectorized_batch fuel s = elim (whole_rounds fuel (start_batch s)) [
      | none ↦ none
      | some b ↦ elim (last_rounds fuel b) [ none ↦ none | some b' ↦ some b'.table ]
    ]
