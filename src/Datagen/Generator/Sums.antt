-- ===== src/Datagen/Generator/Sums.antt =====
-- The prefix sums that `emit` writes ascend, by no more than the largest value, without overflow.
use native.Mathlib.Nat.{mod-eq_of_lt, mul-le-mul_right}
use tsubasa.Base.{
  ℕ, zero, suc, ◌+◌, ◌-◌, ◌*◌, ◌^◌, ◌≤◌, ◌<◌, ◌≡◌, ◌∙◌, refl, true, false, arith, eq_or_ne, inl,
  inr,
}
use tsubasa.Base.Memory.{Memory, write}
use tsubasa.Base.Modular.{difference-add}
use tsubasa.Datagen.Generator.{ComplexDataGenerator, Run, emit}

-- The first `count` values start with `first`, and each is the one before plus at most `step`.
pub record Ascends (first step count : ℕ) (out : Memory) : Type 0 where
  pub start : 0 < count → out 0 ≡ first
  pub ascending : (i : ℕ) → i + 1 < count → out i ≤ out (i + 1)
  pub limited : (i : ℕ) → i + 1 < count → out (i + 1) ≤ out i + step

pub bounded :
    {first step count : ℕ} {out : Memory}
    → Ascends first step count out
    → (i : ℕ) → i < count
    → out i ≤ first + i * step
bounded a zero h = omega (arith, a.start h)
bounded a (suc i) h = grind (arith, bounded a i (omega arith), a.limited i (omega arith))

pub below_bound :
    {first step count limit : ℕ} {out : Memory}
    → Ascends first step count out
    → first + (count - 1) * step < limit
    → (i : ℕ) → i < count
    → out i < limit
below_bound {step = step} {count = count} a small i h =
    let last : i ≤ count - 1 = omega (arith, h) in
    omega (arith, bounded a i h, mul-le-mul_right step last, small)

pub Ascends-congr :
    {first step count : ℕ} (out out' : Memory)
    → ((i : ℕ) → i < count → out' i ≡ out i)
    → Ascends first step count out
    → Ascends first step count out'
Ascends-congr out out' same a = record {
  start = λ h. same 0 h ∙ a.start h;
  ascending = λ i h. rw (same i (omega arith), same (i + 1) h) (a.ascending i h);
  limited = λ i h. rw (same i (omega arith), same (i + 1) h) (a.limited i h);
}

Ascends-suc :
    {first step count : ℕ} {out : Memory} (v : ℕ)
    → (count ≡ 0 → v ≡ first)
    → ((i : ℕ) → i + 1 ≡ count → (out i ≤ v) × (v ≤ out i + step))
    → Ascends first step count out
    → Ascends first step (count + 1) (write out count v)
Ascends-suc v at_first after a = record {
  start = λ h. ground (arith, at_first, a.start);
  ascending = λ i h. ground (arith, a.ascending i, after i);
  limited = λ i h. ground (arith, a.limited i, after i);
}

-- The next sum does not overflow if the bound on the last of `total` sums does not.
sum_fits :
    {first step count total : ℕ} {out : Memory}
    → Ascends first step count out
    → (i v : ℕ) → i + 1 ≡ count
    → count < total
    → first + (total - 1) * step < 2 ^ 32
    → v ≤ step
    → out i + v < 2 ^ 32
sum_fits {step = step} {total = total} a i v e below small h =
    let next : i + 1 ≤ total - 1 = omega (arith, e, below) in
    let last : (i + 1) * step ≡ i * step + step = grind arith in
    omega (arith, bounded a i (omega (arith, e)), mul-le-mul_right step next, small, h, last)

module _ {R : Type 0} (g : ComplexDataGenerator R) (summed : g.apply_prefix_sum ≡ true) where
  emit-first :
      (v : ℕ) (s : Run R)
      → s.emitted ≡ false
      → g.prefix_sum_first_value < 2 ^ 32
      → v ≤ 2 ^ 32
      → emit g v s ≡ record s {
        emitted = true;
        last_value = g.prefix_sum_first_value;
        out32 = s.out32 + 1;
        out = write s.out s.out32 g.prefix_sum_first_value;
      }
  unfolding emit
  emit-first v s fresh fit fit' =
      rw (summed, fresh, difference-add (2 ^ 32) v g.prefix_sum_first_value fit' fit) refl

  emit-next :
      (v : ℕ) (s : Run R)
      → s.emitted ≡ true
      → s.last_value + v < 2 ^ 32
      → emit g v s ≡ record s {
        emitted = true;
        last_value = s.last_value + v;
        out32 = s.out32 + 1;
        out = write s.out s.out32 (s.last_value + v);
      }
  unfolding emit
  emit-next v s old fit = rw (summed, old, mod-eq_of_lt fit) refl

  -- What holds between two calls of `emit`.
  pub record Summed (step : ℕ) (s : Run R) : Type 0 where
    pub fresh : s.out32 ≡ 0 → s.emitted ≡ false
    pub going : (i : ℕ) → i + 1 ≡ s.out32 → (s.emitted ≡ true) × (s.last_value ≡ s.out i)
    pub ascends : Ascends g.prefix_sum_first_value step s.out32 s.out

  pub emit-Summed :
      (step : ℕ)
      → step < 2 ^ 32
      → g.prefix_sum_first_value + (g.count_values - 1) * step < 2 ^ 32
      → (s : Run R) (v : ℕ) → s.out32 < g.count_values
      → v ≤ step
      → Summed step s
      → Summed step (emit g v s)
  emit-Summed step fit small s v below h inv = elim (eq_or_ne s.out32 0) [
    | inl none_yet ↦
        rw (emit-first v s (inv.fresh none_yet) (omega (arith, small)) (omega (arith, fit, h)))
          (record {
            fresh = λ e. absurd (omega arith);
            going = λ i e. (refl, ground arith);
            ascends =
                Ascends-suc g.prefix_sum_first_value (λ e. refl)
                  (λ i e. absurd (omega (arith, none_yet))) inv.ascends;
          })
    | inr some_yet ↦
        let i = s.out32 - 1 in
        let (old, last) = inv.going i (omega (arith, some_yet)) in
        let fit' = sum_fits inv.ascends i v (omega (arith, some_yet)) below small h in
        rw (emit-next v s old (rw last fit')) (record {
          fresh = λ e. absurd (omega arith);
          going = λ i e. (refl, ground arith);
          ascends =
              Ascends-suc (s.last_value + v) (λ e. absurd (some_yet e))
                (λ j e.
                  let same : j ≡ i = omega (arith, e) in
                  rw (same, last) (omega arith, omega (arith, h)))
                inv.ascends;
        })
  ]
