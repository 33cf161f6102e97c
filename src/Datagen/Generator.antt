-- ===== src/Datagen/Generator.antt =====
-- ComplexDataGenerator, with SORT_VARIANT 1 and PREFIXSUM_VARIANT 0. `out` is the memory that the
-- output pointer points into, from position 0; std::sort is the parameter `sort`, which is given an
-- array and the number of its values.
pub mod Loop
pub mod Sums
pub mod Reverse
pub mod Possible
pub mod Results
use tsubasa.Base.{
  ℕ, zero, suc, ◌+◌, ◌-◌, ◌*◌, ◌/◌, ◌%◌, ◌^◌, Bool, true, false, List, [], ◌∷◌, Option, some, none,
  ltb, ◌==◌, if◌then◌else◌, length,
}
use tsubasa.Base.Loop.{for_range}
use tsubasa.Base.Memory.{Memory, write}
use tsubasa.Datagen.Distribution.{RandomDistribution, get_elem?}

pub record StreamInfo (R : Type 0) : Type 0 where
  pub value_distr : RandomDistribution R
  pub runlength_distr : Option (RandomDistribution R)
  pub only_one_value_per_run : Bool

pub data SortOrder : Type 0 where
  sortorder_asc : SortOrder
  sortorder_desc : SortOrder
  sortorder_none : SortOrder

pub record ComplexDataGenerator (R : Type 0) : Type 0 where
  pub count_values : ℕ
  pub streams : List (StreamInfo R)
  pub next_stream_idx : ℕ
  pub sort_order : SortOrder
  pub apply_prefix_sum : Bool
  pub prefix_sum_first_value : ℕ

-- The state of the random engines, the member and globals that `generate` changes, `out32` and
-- the output.
pub record Run (R : Type 0) : Type 0 where
  pub random : R
  pub next_stream_idx : ℕ
  pub emitted : Bool
  pub last_value : ℕ
  pub out32 : ℕ
  pub out : Memory

abbrev pub is_unsorted : SortOrder → Bool
is_unsorted sortorder_asc = false
is_unsorted sortorder_desc = false
is_unsorted sortorder_none = true

-- The loop that reverses the output.
unfoldable pub reverse_output : ℕ → Memory → Memory
reverse_output count out =
    for_range (count / 2) 0
      (λ i o. let help = o i in write (write o i (o (count - 1 - i))) (count - 1 - i) help) out

module _ {R : Type 0} where
  -- The constructor, which throws if there is no stream.
  unfoldable pub complex_data_generator :
      ℕ → List (StreamInfo R) → SortOrder → Option (ComplexDataGenerator R)
  complex_data_generator count_values [] sort_order = none
  complex_data_generator count_values (s ∷ ss) sort_order = some (record {
    count_values = count_values;
    streams = s ∷ ss;
    next_stream_idx = 0;
    sort_order = sort_order;
    apply_prefix_sum = false;
    prefix_sum_first_value = 0;
  })

  abbrev pub set_prefix_sum_first_value : ℕ → ComplexDataGenerator R → ComplexDataGenerator R
  set_prefix_sum_first_value value g = record g {
    apply_prefix_sum = true;
    prefix_sum_first_value = value;
  }

  -- `setProperty`, which throws at another key.
  unfoldable pub set_property : ℕ → ℕ → ComplexDataGenerator R → Option (ComplexDataGenerator R)
  set_property key value g =
      if key == 0
      then some (record g { count_values = value })
      else (if key == 1 then some (set_prefix_sum_first_value (value % 2 ^ 32) g) else none)

  -- The loop over the streams in `checkIfPossible`.
  unfoldable pub max_possible_value : List (StreamInfo R) → ℕ → ℕ
  max_possible_value [] max = max
  max_possible_value (s ∷ ss) max =
      max_possible_value ss
        (if ltb max s.value_distr.get_max_value then s.value_distr.get_max_value else max)

  -- `checkIfPossible`: false if it throws. The bound is computed in 64 bits.
  unfoldable pub check_if_possible : ComplexDataGenerator R → Bool
  check_if_possible g =
      if g.apply_prefix_sum
      then (if is_unsorted g.sort_order
          then false
          else ltb
              ((g.prefix_sum_first_value
                  + (g.count_values + 2 ^ 64 - 1) % 2 ^ 64 * max_possible_value g.streams 0)
                % 2 ^ 64)
              (2 ^ 32 - 1))
      else true

  -- `emit( out32++, value )`.
  unfoldable pub emit : ComplexDataGenerator R → ℕ → Run R → Run R
  emit g value s =
      if g.apply_prefix_sum
      then (let last =
            if s.emitted
            then s.last_value
            else (g.prefix_sum_first_value + (2 ^ 32 - value)) % 2 ^ 32 in
          let value2 = (last + value) % 2 ^ 32 in
          record s {
            emitted = true;
            last_value = value2;
            out32 = s.out32 + 1;
            out = write s.out s.out32 value2;
          })
      else (record s { out32 = s.out32 + 1; out = write s.out s.out32 value })

  abbrev pub emit_random : ComplexDataGenerator R → RandomDistribution R → Run R → Run R
  emit_random g d s =
      let (value, r) = d.get_rnd_value s.random in emit g value (record s { random = r })

  -- One round of the `while` loop for the stream.
  unfoldable pub emit_stream : ComplexDataGenerator R → StreamInfo R → Run R → Run R
  emit_stream g stream s = elim stream.runlength_distr [
    | none ↦ emit_random g stream.value_distr s
    | some runlength_distr ↦
        let values_left = (g.count_values - s.out32) % 2 ^ 32 in
        let (drawn, r) = runlength_distr.get_rnd_value s.random in
        let runlength = if ltb drawn values_left then drawn else values_left in
        let t = record s { random = r } in
        if stream.only_one_value_per_run
        then (let (value, r') = stream.value_distr.get_rnd_value r in
            for_range runlength 0 (λ i u. emit g value u) (record t { random = r' }))
        else for_range runlength 0 (λ i u. emit_random g stream.value_distr u) t
  ]

  -- The `while` loop; `none` is that the fuel ran out, or an index past the streams.
  unfoldable pub emit_all : ℕ → ComplexDataGenerator R → Run R → Option (Run R)
  emit_all zero g s = none
  emit_all (suc fuel) g s = elim (ltb s.out32 g.count_values) [
    | false ↦ some s
    | true ↦ elim (get_elem? g.streams s.next_stream_idx) [
      | none ↦ none
      | some stream ↦ emit_all fuel g (
          emit_stream g stream
            (record s { next_stream_idx = (s.next_stream_idx + 1) % length g.streams }))
    ]
  ]

  -- The part of `generate` behind the loop; `sort_desc` is the call with the reverse iterators.
  unfoldable pub finish :
      (Memory → ℕ → Memory) → (Memory → ℕ → Memory) → ComplexDataGenerator R → Memory → Memory
  finish sort sort_desc g out =
      let out' = if g.apply_prefix_sum then write out 0 g.prefix_sum_first_value else out in
      elim g.sort_order [
        | sortorder_asc ↦ if g.apply_prefix_sum then out' else sort out' g.count_values
        | sortorder_desc ↦
            if g.apply_prefix_sum
            then reverse_output g.count_values out'
            else sort_desc out' g.count_values
        | sortorder_none ↦ out'
      ]

  -- `generate`: the generator and the engines after it, and the output.
  unfoldable pub generate :
      (Memory → ℕ → Memory)
      → (Memory → ℕ → Memory)
      → ℕ
      → ComplexDataGenerator R
      → R
      → Memory
      → Option (ComplexDataGenerator R × R × Memory)
  generate sort sort_desc fuel g random out =
      elim (emit_all fuel g (record {
        random = random;
        next_stream_idx = g.next_stream_idx;
        emitted = false;
        last_value = 0;
        out32 = 0;
        out = out;
      })) [
        | none ↦ none
        | some s ↦ some (
          record g { next_stream_idx = s.next_stream_idx },
          s.random,
          finish sort sort_desc g s.out,
        )
      ]
