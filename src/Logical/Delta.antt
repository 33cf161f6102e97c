-- ===== src/Logical/Delta.antt =====
-- src/main/algorithms/compression/logical/delta.h.
use tsubasa.Base.{ℕ, zero, suc, ◌+◌, ◌-◌, ◌%◌, ◌^◌, ◌<◌, ◌≡◌, ◌∙◌, sym, ap, arith, Bool, true}
use tsubasa.Base.Fill.{for_range-at, for_range-elsewhere}
use tsubasa.Base.Loop.{for_range}
use tsubasa.Base.Modular.{add-difference, difference-difference, difference-add}
use tsubasa.Base.Memory.{Memory, write, write_self}
use tsubasa.Logical.{same_from, same_from-true}

module _ (width : ℕ) where
  -- `operator( )` of `delta_compression`: the first value, then the differences in T.
  unfoldable pub delta_compression : Memory → ℕ → Memory → Memory
  delta_compression values data_count result =
      for_range (data_count - 1) 1
        (λ position r.
          write r position ((values position + (2 ^ width - values (position - 1))) % 2 ^ width))
        (write result 0 (values 0))

  -- `operator( )` of `delta_decompression`.
  unfoldable pub delta_decompression : Memory → ℕ → Memory → Memory
  delta_decompression values data_count result =
      for_range (data_count - 1) 1
        (λ position r. write r position ((values position + values (position + 1)) % 2 ^ width))
        (write result 0 (values 0))

  -- `operator( )` of `delta_validator`; `compressed` and `decompressed` are the arrays before the
  -- calls, which `malloc` returned.
  unfoldable pub delta_validator : Memory → ℕ → Memory → Memory → Bool
  delta_validator values data_count compressed decompressed =
      same_from values
        (delta_decompression (delta_compression values data_count compressed) data_count
          decompressed)
        data_count 0

  module _ (values result : Memory) (data_count : ℕ) where
    delta_compression-first : delta_compression values data_count result 0 ≡ values 0
    unfolding delta_compression
    delta_compression-first =
        for_range-elsewhere (λ i. i) _ (λ i j e. e) (write result 0 (values 0)) (data_count - 1) 1 0
          (λ i lo hi. omega arith)
        ∙ write_self result 0 (values 0)

    delta_compression-later :
        (p : ℕ)
        → 0 < p
        → p < data_count
        → delta_compression values data_count result p
          ≡ (values p + (2 ^ width - values (p - 1))) % 2 ^ width
    unfolding delta_compression
    delta_compression-later p pos h =
        for_range-at (λ i. i) _ (λ i j e. e) (write result 0 (values 0)) (data_count - 1) 1 p
          (omega arith) (omega arith)

    delta_decompression-first : delta_decompression values data_count result 0 ≡ values 0
    unfolding delta_decompression
    delta_decompression-first =
        for_range-elsewhere (λ i. i) _ (λ i j e. e) (write result 0 (values 0)) (data_count - 1) 1 0
          (λ i lo hi. omega arith)
        ∙ write_self result 0 (values 0)

    delta_decompression-later :
        (p : ℕ)
        → 0 < p
        → p < data_count
        → delta_decompression values data_count result p ≡ (values p + values (p + 1)) % 2 ^ width
    unfolding delta_decompression
    delta_decompression-later p pos h =
        for_range-at (λ i. i) _ (λ i j e. e) (write result 0 (values 0)) (data_count - 1) 1 p
          (omega arith) (omega arith)

  -- The reference decoder: the sum of the differences in T.
  pub running_sum : Memory → ℕ → ℕ
  running_sum deltas zero = deltas 0
  running_sum deltas (suc p) = (running_sum deltas p + deltas (suc p)) % 2 ^ width

  -- Compression loses nothing: for values of T, the running sums in T of the compressed array are
  -- the values.
  pub running_sum-delta_compression :
      (values result : Memory) (data_count p : ℕ)
      → ((q : ℕ) → q < data_count → values q < 2 ^ width)
      → p < data_count
      → running_sum (delta_compression values data_count result) p ≡ values p
  unfolding running_sum
  running_sum-delta_compression values result data_count zero fits h =
      delta_compression-first values result data_count
  running_sum-delta_compression values result data_count (suc p) fits h =
      rw
        (
          running_sum-delta_compression values result data_count p fits (omega arith),
          delta_compression-later values result data_count (suc p) (omega arith) h,
          before,
        )
        (add-difference (2 ^ width) (values p) (values (suc p))
          (omega (arith, fits p (omega arith))) (fits (suc p) h))
    where
      before : suc p - 1 ≡ p
      before = omega arith

  module _ (values compressed decompressed : Memory) (data_count : ℕ)
      (fits : (q : ℕ) → q < data_count → values q < 2 ^ width) where
    -- What the code decompresses to: at an inner position the difference of the values beside it.
    pub delta_decompression-compressed :
        (p : ℕ)
        → 0 < p
        → p + 1 < data_count
        → delta_decompression
            (delta_compression values data_count compressed)
            data_count
            decompressed
            p
          ≡ (values (p + 1) + (2 ^ width - values (p - 1))) % 2 ^ width
    delta_decompression-compressed p pos h =
        rw
          (
            delta_decompression-later (delta_compression values data_count compressed) decompressed
                data_count p pos (omega arith),
            delta_compression-later values compressed data_count p pos (omega arith),
            delta_compression-later values compressed data_count (p + 1) (omega arith) h,
            here,
          )
          (difference-difference (2 ^ width) (values (p - 1)) (values p) (values (p + 1))
            (omega (arith, fits (p - 1) (omega arith))) (omega (arith, fits p (omega arith))))
      where
        here : p + 1 - 1 ≡ p
        here = omega arith

    -- So on values of T the validator accepts only arrays in which every value after the second is,
    -- in T, the sum of the two values before it.
    pub delta_validator-true :
        delta_validator values data_count compressed decompressed ≡ true
        → (p : ℕ) → 0 < p
        → p + 1 < data_count
        → values (p + 1) ≡ (values p + values (p - 1)) % 2 ^ width
    unfolding delta_validator
    delta_validator-true accepted p pos h = sym (
        ap (λ (t : ℕ). (t + values (p - 1)) % 2 ^ width)
          (same_from-true values _ data_count 0 accepted p (omega arith) (omega arith)
            ∙ delta_decompression-compressed p pos h)
        ∙ difference-add (2 ^ width) (values (p - 1)) (values (p + 1))
            (omega (arith, fits (p - 1) (omega arith))) (fits (p + 1) h))
