-- ===== src/Datagen/Generator/Loop.antt =====
-- The loop of `generate` ends with the output full, and keeps what each `emit` keeps.
use mathlib.Core.Path.{subst}
use native.Mathlib.Nat.{mod-lt, mod-eq_of_lt}
use tsubasa.Base.{
  ℕ, zero, suc, ◌+◌, ◌-◌, ◌%◌, ◌^◌, ◌≤◌, ◌<◌, ◌≡◌, ◌∙◌, refl, List, [], ◌∷◌, Option, some, none,
  ltb, if◌then◌else◌, length, arith, lt→ltb, le→ltb, lt_or_le, inl, inr, ◌⊎◌, Bool-cases,
}
use tsubasa.Base.Loop.{for_range, for_range_inv}
use tsubasa.Datagen.Distribution.{RandomDistribution, get_elem?}
use tsubasa.Datagen.Generator.{
  StreamInfo, ComplexDataGenerator, Run, emit, emit_random, emit_stream, emit_all,
}

pub get_elem?-some :
    {A : Type 0} (xs : List A) (i : ℕ) → i < length xs → (x : A) × (get_elem? xs i ≡ some x)
get_elem?-some [] i h = absurd (omega arith)
get_elem?-some (x ∷ xs) zero h = (x, refl)
get_elem?-some (x ∷ xs) (suc i) h = get_elem?-some xs i (omega arith)

Option-cases : {A : Type 0} (o : Option A) → (o ≡ none) ⊎ ((x : A) × (o ≡ some x))
Option-cases none = inl refl
Option-cases (some x) = inr (x, refl)

module _ {R : Type 0} where
  -- Every run length that is drawn is at least one.
  unfoldable pub IsPositive : Option (RandomDistribution R) → Type 0
  IsPositive none = Unit
  IsPositive (some d) = (r : R) → 0 < (d.get_rnd_value r).0

  -- The stream draws values that `V` holds of, and runs that are not empty.
  pub record IsProductive (V : ℕ → Type 0) (s : StreamInfo R) : Type 0 where
    pub draws : (r : R) → V (s.value_distr.get_rnd_value r).0
    pub runs : IsPositive s.runlength_distr

  unfoldable pub AreProductive : (ℕ → Type 0) → List (StreamInfo R) → Type 0
  AreProductive V streams =
      (i : ℕ) (s : StreamInfo R) → get_elem? streams i ≡ some s → IsProductive V s

  drawn_some :
      {V : ℕ → Type 0} (stream : StreamInfo R) (d : RandomDistribution R)
      → stream.runlength_distr ≡ some d
      → IsProductive V stream
      → (r : R) → 0 < (d.get_rnd_value r).0
  unfolding IsPositive
  drawn_some stream d e productive r = let h = subst IsPositive e productive.runs in h r

  emit-out32 : (g : ComplexDataGenerator R) (v : ℕ) (s : Run R) → (emit g v s).out32 ≡ s.out32 + 1
  unfolding emit
  emit-out32 g v s = elim (Bool-cases g.apply_prefix_sum) [ inl e ↦ rw e refl | inr e ↦ rw e refl ]

  emit-next_stream_idx :
      (g : ComplexDataGenerator R) (v : ℕ) (s : Run R)
      → (emit g v s).next_stream_idx ≡ s.next_stream_idx
  unfolding emit
  emit-next_stream_idx g v s = elim (Bool-cases g.apply_prefix_sum) [
    | inl e ↦ rw e refl
    | inr e ↦ rw e refl
  ]

  emit_all-round :
      (g : ComplexDataGenerator R) (fuel : ℕ) (s : Run R) (stream : StreamInfo R)
      → s.out32 < g.count_values
      → get_elem? g.streams s.next_stream_idx ≡ some stream
      → emit_all (suc fuel) g s
        ≡ emit_all fuel g (
            emit_stream g stream
              (record s { next_stream_idx = (s.next_stream_idx + 1) % length g.streams }))
  unfolding emit_all
  emit_all-round g fuel s stream below found =
      rw (emit_all, lt→ltb s.out32 g.count_values below, found) refl

  module _ (g : ComplexDataGenerator R) (small : g.count_values < 2 ^ 32) (V : ℕ → Type 0)
      (P : Run R → Type 0)
      (steady : (s : Run R) (r : R) (i : ℕ)
        → P s
        → P (record s { random = r; next_stream_idx = i }))
      (keep : (s : Run R) (v : ℕ) → s.out32 < g.count_values → V v → P s → P (emit g v s)) where
    -- `n` values were emitted.
    record Emitted (s : Run R) (n : ℕ) (u : Run R) : Type 0 where
      holds : P u
      count : u.out32 ≡ s.out32 + n
      idx : u.next_stream_idx ≡ s.next_stream_idx

    emit-Emitted :
        (s u : Run R) (n v : ℕ)
        → s.out32 + n < g.count_values
        → V v
        → Emitted s n u
        → Emitted s (n + 1) (emit g v u)
    emit-Emitted s u n v h from e = record {
      holds = keep u v (omega (arith, h, e.count)) from e.holds;
      count = omega (arith, emit-out32 g v u, e.count);
      idx = emit-next_stream_idx g v u ∙ e.idx;
    }

    emit_random-Emitted :
        (stream : StreamInfo R)
        → IsProductive V stream
        → (s u : Run R) (n : ℕ) → s.out32 + n < g.count_values
        → Emitted s n u
        → Emitted s (n + 1) (emit_random g stream.value_distr u)
    emit_random-Emitted stream productive s u n h e =
        let draw = stream.value_distr.get_rnd_value u.random in
        emit-Emitted s (record u { random = draw.1 }) n draw.0 h (productive.draws u.random)
          (record {
            holds = steady u draw.1 u.next_stream_idx e.holds;
            count = e.count;
            idx = e.idx;
          })

    Emitted-refl : (s : Run R) → P s → Emitted s 0 s
    Emitted-refl s p = record { holds = p; count = omega arith; idx = refl }

    random-Emitted : (s : Run R) (r : R) → P s → Emitted s 0 (record s { random = r })
    random-Emitted s r p = record {
      holds = steady s r s.next_stream_idx p;
      count = omega arith;
      idx = refl;
    }

    -- A round emits at least one value and no more than are left.
    Advances : Run R → Run R → Type 0
    Advances s u = (n : ℕ) × (0 < n) × (s.out32 + n ≤ g.count_values) × Emitted s n u

    run_of :
        (s t : Run R) (runlength : ℕ)
        → 0 < runlength
        → s.out32 + runlength ≤ g.count_values
        → Emitted s 0 t
        → (body : Run R → Run R)
        → ((u : Run R) (n : ℕ)
            → s.out32 + n < g.count_values
            → Emitted s n u
            → Emitted s (n + 1) (body u))
        → Advances s (for_range runlength 0 (λ i. body) t)
    unfolding Advances
    run_of s t runlength some_values fit start body round = (
      runlength,
      some_values,
      fit,
      for_range_inv (Emitted s) (λ i. body) runlength 0 runlength (omega arith)
          (λ k u lo hi e. round u k (omega (arith, hi, fit)) e) t start,
    )

    runlength_of :
        (s : Run R) (drawn : ℕ)
        → s.out32 < g.count_values
        → 0 < drawn
        → let left = (g.count_values - s.out32) % 2 ^ 32 in
          let runlength = if ltb drawn left then drawn else left in
          (0 < runlength) × (s.out32 + runlength ≤ g.count_values)
    runlength_of s drawn below h =
        let e : (g.count_values - s.out32) % 2 ^ 32 ≡ g.count_values - s.out32 =
          mod-eq_of_lt (omega (arith, small)) in
        rw e (ground (arith, below, h))

    emit_stream-Advances :
        (stream : StreamInfo R)
        → IsProductive V stream
        → (s : Run R) → s.out32 < g.count_values
        → P s
        → Advances s (emit_stream g stream s)
    unfolding emit_stream Advances
    emit_stream-Advances stream productive s below p = elim (Option-cases stream.runlength_distr) [
      | inl e ↦ rw e (
        1,
        omega arith,
        omega arith,
        emit_random-Emitted stream productive s s 0 (omega arith) (Emitted-refl s p),
      )
      | inr (d, e) ↦
          let draw = d.get_rnd_value s.random in
          let t = record s { random = draw.1 } in
          let fit = runlength_of s draw.0 below (drawn_some stream d e productive s.random) in
          elim (Bool-cases stream.only_one_value_per_run) [
            | inl one ↦
                let draw' = stream.value_distr.get_rnd_value draw.1 in
                let t' = record s { random = draw'.1 } in
                rw (e, one)
                  (run_of s t' _ fit.0 fit.1 (random-Emitted s draw'.1 p) (emit g draw'.0)
                    (λ u n h. emit-Emitted s u n draw'.0 h (productive.draws draw.1)))
            | inr many ↦
                rw (e, many)
                  (run_of s t _ fit.0 fit.1 (random-Emitted s draw.1 p)
                    (emit_random g stream.value_distr) (emit_random-Emitted stream productive s))
          ]
    ]

    -- With as much fuel as values are left and one more, the loop ends, with the output full.
    pub emit_all-full :
        0 < length g.streams
        → AreProductive V g.streams
        → (fuel : ℕ) (s : Run R) → g.count_values < s.out32 + fuel
        → s.out32 ≤ g.count_values
        → s.next_stream_idx < length g.streams
        → P s
        → (u : Run R) × (emit_all fuel g s ≡ some u)
          × (u.out32 ≡ g.count_values)
          × P u
          × (u.next_stream_idx < length g.streams)
    unfolding emit_all Advances AreProductive
    emit_all-full some_streams productive zero s enough fit idx p = absurd (omega arith)
    emit_all-full some_streams productive (suc fuel) s enough fit idx p =
        elim (lt_or_le s.out32 g.count_values) [
          | inr full ↦
              (s, rw (emit_all, le→ltb s.out32 g.count_values full) refl, omega arith, p, idx)
          | inl below ↦
              let (stream, found) = get_elem?-some g.streams s.next_stream_idx idx in
              let next = (s.next_stream_idx + 1) % length g.streams in
              let t = record s { next_stream_idx = next } in
              let (n, some_values, fit', e) =
                emit_stream-Advances stream (productive s.next_stream_idx stream found) t below
                  (steady s s.random next p) in
              let (u, ended, full, p', idx') =
                emit_all-full some_streams productive fuel (emit_stream g stream t)
                  (omega (arith, e.count, enough, some_values)) (omega (arith, e.count, fit'))
                  (omega (arith, e.idx, mod-lt (s.next_stream_idx + 1) some_streams)) e.holds in
              (u, emit_all-round g fuel s stream below found ∙ ended, full, p', idx')
        ]
