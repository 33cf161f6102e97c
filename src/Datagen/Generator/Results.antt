-- ===== src/Datagen/Generator/Results.antt =====
-- What `generate` returns.
use tsubasa.Base.{
  ℕ, ◌-◌, ◌^◌, ◌≤◌, ◌<◌, ◌≡◌, ◌∙◌, refl, sym, ap, true, false, Option, some, length, arith, inl,
  inr, ◌⊎◌, eq_or_ne,
}
use mathlib.Core.Path.{subst}
use tsubasa.Base.Memory.{Memory, write, write_ne, write_self}
use tsubasa.Datagen.Generator.{
  ComplexDataGenerator, Run, SortOrder, sortorder_asc, sortorder_desc, sortorder_none,
  max_possible_value, check_if_possible, finish, generate, emit, emit_all,
}
use tsubasa.Datagen.Generator.Possible.{
  AreBounded, AreProductive-max_possible_value, check_if_possible-small, max_possible_value-lt,
}
use tsubasa.Datagen.Generator.Loop.{AreProductive, emit_all-full}
use tsubasa.Datagen.Generator.Sums.{Ascends, Ascends-congr, Summed, emit-Summed, below_bound}
use tsubasa.Datagen.Generator.Reverse.{reverse_output-at}

-- What holds of each value of an array holds of each value of the sorted array.
abbrev pub Keeps : (ℕ → Type 0) → (Memory → ℕ → Memory) → Type 0
Keeps V sort = (o : Memory) (n : ℕ) → ((i : ℕ) → i < n → V (o i)) → (i : ℕ) → i < n → V (sort o n i)

SortOrder-cases :
    (o : SortOrder) → (o ≡ sortorder_asc) ⊎ (o ≡ sortorder_desc) ⊎ (o ≡ sortorder_none)
SortOrder-cases sortorder_asc = inl refl
SortOrder-cases sortorder_desc = inr (inl refl)
SortOrder-cases sortorder_none = inr (inr refl)

-- The values in ascending order.
abbrev pub ascending_view : SortOrder → ℕ → Memory → Memory
ascending_view sortorder_asc count out = out
ascending_view sortorder_desc count out = λ i. out (count - 1 - i)
ascending_view sortorder_none count out = out

module _ {R : Type 0} where
  -- A generator that `generate` may be called on: the index is one of a stream.
  pub record IsReady (g : ComplexDataGenerator R) : Type 0 where
    pub some_streams : 0 < length g.streams
    pub valid_idx : g.next_stream_idx < length g.streams
    pub small : g.count_values < 2 ^ 32

  start_run : ComplexDataGenerator R → R → Memory → Run R
  start_run g random out = record {
    random = random;
    next_stream_idx = g.next_stream_idx;
    emitted = false;
    last_value = 0;
    out32 = 0;
    out = out;
  }

  generate-emit_all :
      (sort sort_desc : Memory → ℕ → Memory) (fuel : ℕ) (g : ComplexDataGenerator R) (random : R)
      (out : Memory) (s : Run R)
      → emit_all fuel g (start_run g random out) ≡ some s
      → generate sort sort_desc fuel g random out
        ≡ some (
          record g { next_stream_idx = s.next_stream_idx },
          s.random,
          finish sort sort_desc g s.out,
        )
  unfolding generate start_run
  generate-emit_all sort sort_desc fuel g random out s e = rw (generate, e) refl

  first_value :
      (g : ComplexDataGenerator R) (out : Memory)
      → out 0 ≡ g.prefix_sum_first_value
      → (i : ℕ) → write out 0 g.prefix_sum_first_value i ≡ out i
  first_value g out start i = elim (eq_or_ne i 0) [
    | inl e ↦ rw e (sym start)
    | inr ne ↦ write_ne out 0 g.prefix_sum_first_value i ne
  ]

  -- With prefix sums the order is all that changes.
  finish-values :
      (sort sort_desc : Memory → ℕ → Memory) (g : ComplexDataGenerator R) (out : Memory)
      → g.apply_prefix_sum ≡ true
      → out 0 ≡ g.prefix_sum_first_value
      → (i : ℕ) → i < g.count_values
      → ascending_view g.sort_order g.count_values (finish sort sort_desc g out) i ≡ out i
  unfolding finish
  finish-values sort sort_desc g out summed start i h = elim (SortOrder-cases g.sort_order) [
    | inl asc ↦ rw (finish, asc, summed) (first_value g out start i)
    | inr (inl desc) ↦
        let same : g.count_values - 1 - (g.count_values - 1 - i) ≡ i = omega (arith, h) in
        rw (finish, desc, summed)
          ((reverse_output-at g.count_values (write out 0 g.prefix_sum_first_value)
                (g.count_values - 1 - i)).0
              (omega (arith, h))
            ∙ ap (write out 0 g.prefix_sum_first_value) same
            ∙ first_value g out start i)
    | inr (inr unsorted) ↦ rw (finish, unsorted, summed) (first_value g out start i)
  ]

  finish-Ascends :
      (sort sort_desc : Memory → ℕ → Memory) (g : ComplexDataGenerator R) (out : Memory) (step : ℕ)
      → g.apply_prefix_sum ≡ true
      → 0 < g.count_values
      → Ascends g.prefix_sum_first_value step g.count_values out
      → Ascends g.prefix_sum_first_value step g.count_values
          (ascending_view g.sort_order g.count_values (finish sort sort_desc g out))
  finish-Ascends sort sort_desc g out step summed some_values a =
      Ascends-congr out _ (finish-values sort sort_desc g out summed (a.start some_values)) a

  -- The output, and the generator after it.
  pub record Generated (g : ComplexDataGenerator R) (A : Memory → Type 0)
      (result : Option (ComplexDataGenerator R × R × Memory)) : Type 0 where
    pub generator : ComplexDataGenerator R
    pub random : R
    pub out : Memory
    pub returned : result ≡ some (generator, random, out)
    pub ready : IsReady generator
    pub all : A out

  emit-draws :
      (V : ℕ → Type 0) (g : ComplexDataGenerator R)
      → g.apply_prefix_sum ≡ false
      → (s : Run R) (v : ℕ) → V v
      → ((i : ℕ) → i < s.out32 → V (s.out i))
      → (i : ℕ) → i < (emit g v s).out32
      → V ((emit g v s).out i)
  unfolding emit
  emit-draws V g plain s v h inv = rw plain (λ i below. elim (eq_or_ne i s.out32) [
    | inl e ↦ rw e (subst V (sym (write_self s.out s.out32 v)) h)
    | inr ne ↦ subst V (sym (write_ne s.out s.out32 v i ne)) (inv i (omega (arith, below, ne)))
  ])

  finish-draws :
      (sort sort_desc : Memory → ℕ → Memory) (V : ℕ → Type 0)
      → Keeps V sort
      → Keeps V sort_desc
      → (g : ComplexDataGenerator R) (out : Memory) → g.apply_prefix_sum ≡ false
      → ((i : ℕ) → i < g.count_values → V (out i))
      → (i : ℕ) → i < g.count_values
      → V (finish sort sort_desc g out i)
  unfolding finish
  finish-draws sort sort_desc V kept kept' g out plain h = elim (SortOrder-cases g.sort_order) [
    | inl asc ↦ rw (asc, plain) (kept out g.count_values h)
    | inr (inl desc) ↦ rw (desc, plain) (kept' out g.count_values h)
    | inr (inr unsorted) ↦ rw (unsorted, plain) h
  ]

  -- For a generator whose index is that of a stream, with at least one and fewer than 2^32 values,
  -- streams whose values lie between 32-bit bounds that they report and whose run lengths are at
  -- least one, prefix sums, and a first value of 32 bits: if `checkIfPossible` does not throw, then
  -- with fuel of more than the number of values `generate` returns, the generator can be called
  -- again, and the output in ascending order (that is, reversed for SORTORDER_DESC) starts with the
  -- first value, ascends by no more than the largest value of a stream, and stays below 2^32 - 1.
  pub generate-Ascends :
      (sort sort_desc : Memory → ℕ → Memory) (g : ComplexDataGenerator R) (random : R)
      (out : Memory)
      → IsReady g
      → AreBounded g.streams
      → g.apply_prefix_sum ≡ true
      → g.prefix_sum_first_value < 2 ^ 32
      → 0 < g.count_values
      → check_if_possible g ≡ true
      → (fuel : ℕ) → g.count_values < fuel
      → Generated g
          (λ o.
            let view = ascending_view g.sort_order g.count_values o in
            Ascends g.prefix_sum_first_value (max_possible_value g.streams 0) g.count_values view
            × ((i : ℕ) → i < g.count_values → view i < 2 ^ 32 - 1))
          (generate sort sort_desc fuel g random out)
  unfolding start_run
  generate-Ascends sort sort_desc g random out ready b summed fit some_values possible fuel enough =
      let bound = check_if_possible-small g summed b some_values ready.small fit possible in
      let step = max_possible_value g.streams 0 in
      let most = max_possible_value-lt g.streams 0 b (omega arith) in
      let start : Summed g summed step (start_run g random out) = record {
        fresh = λ e. refl;
        going = λ i e. absurd (omega (arith, e));
        ascends = record {
          start = λ h. absurd (omega (arith, h));
          ascending = λ i h. absurd (omega (arith, h));
          limited = λ i h. absurd (omega (arith, h));
        };
      } in
      let (s, ended, full, inv, idx) =
        emit_all-full g ready.small (λ v. v ≤ step) (Summed g summed step)
          (λ s r i inv. record { fresh = inv.fresh; going = inv.going; ascends = inv.ascends })
          (λ s v below h inv. emit-Summed g summed step most (omega (arith, bound)) s v below h inv)
          ready.some_streams (AreProductive-max_possible_value g.streams 0 b) fuel
          (start_run g random out) (omega (arith, enough)) (omega arith) ready.valid_idx start in
      let a =
        finish-Ascends sort sort_desc g s.out step summed some_values (rw full at inv.ascends) in
      record {
        generator = record g { next_stream_idx = s.next_stream_idx };
        random = s.random;
        out = finish sort sort_desc g s.out;
        returned = generate-emit_all sort sort_desc fuel g random out s ended;
        ready = record { some_streams = ready.some_streams; valid_idx = idx; small = ready.small };
        all = (a, below_bound a bound);
      }

  -- For a generator whose index is that of a stream, with fewer than 2^32 values, without prefix
  -- sums, and streams whose run lengths are at least one: with fuel of more than the number of
  -- values `generate` returns, the generator can be called again, and what holds of every value that
  -- a stream draws holds of every value of the output, if sorting keeps it.
  pub generate-draws :
      (sort sort_desc : Memory → ℕ → Memory) (V : ℕ → Type 0)
      → Keeps V sort
      → Keeps V sort_desc
      → (g : ComplexDataGenerator R) (random : R) (out : Memory) → IsReady g
      → AreProductive V g.streams
      → g.apply_prefix_sum ≡ false
      → (fuel : ℕ) → g.count_values < fuel
      → Generated g
          (λ o. (i : ℕ) → i < g.count_values → V (o i))
          (generate sort sort_desc fuel g random out)
  unfolding start_run
  generate-draws sort sort_desc V kept kept' g random out ready productive plain fuel enough =
      let (s, ended, full, inv, idx) =
        emit_all-full g ready.small V (λ s. (i : ℕ) → i < s.out32 → V (s.out i)) (λ s r i inv. inv)
          (λ s v below h inv. emit-draws V g plain s v h inv) ready.some_streams productive fuel
          (start_run g random out) (omega (arith, enough)) (omega arith) ready.valid_idx
          (λ i h. absurd (omega (arith, h))) in
      record {
        generator = record g { next_stream_idx = s.next_stream_idx };
        random = s.random;
        out = finish sort sort_desc g s.out;
        returned = generate-emit_all sort sort_desc fuel g random out s ended;
        ready = record { some_streams = ready.some_streams; valid_idx = idx; small = ready.small };
        all = finish-draws sort sort_desc V kept kept' g s.out plain (rw full at inv);
      }
