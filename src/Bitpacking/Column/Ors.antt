-- ===== src/Bitpacking/Column/Ors.antt =====
-- The value that step 1 of the constructor gathers for a chunk has the bits of all its values.
use tsubasa.Base.{ℕ, ◌+◌, ◌*◌, ◌^◌, ◌≤◌, ◌<◌, ◌≡◌, refl, inl, inr, lt_or_le, ◌⊎◌, arith, bit_or}
use tsubasa.Base.Bits.{bit_or_grows, bit_or_fits}
use tsubasa.Base.Fill.{for_range-write}
use tsubasa.Base.Loop.{for_range_inv}
use tsubasa.Base.Memory.{Memory}
use tsubasa.Base.Power.{two-pow-pos}
use tsubasa.Bitpacking.Column.{or_vector, or_vectors, or_chunk, bitwidth}
use tsubasa.Bitpacking.Column.Width.{IsLeadingZeros, ldz-bitwidth}
use tsubasa.Bitpacking.Packed.{lane_word}

bit_or-le : (a b c : ℕ) → c ≤ a ⊎ c ≤ b → c ≤ bit_or a b
bit_or-le a b c h = omega (arith, h, bit_or_grows a a b (omega arith))

module _ (bytes lanes : ℕ) (ldz : ℕ → ℕ) (input : Memory) (base : ℕ) where
  or_vector_lane :
      (at : ℕ) (tmps : Memory) (i : ℕ)
      → i < lanes
      → or_vector bytes lanes ldz input at tmps i ≡ bit_or (tmps i) (input (at + i))
  unfolding or_vector
  or_vector_lane at tmps i h = for_range-write lanes (λ i t. bit_or t (input (at + i))) tmps i h

  -- `tmps` has gathered the first `k` vectors.
  record Gathered (k : ℕ) (tmps : Memory) : Type 0 where
    above : (i j : ℕ) → i < lanes → j < k → lane_word input lanes base i j ≤ tmps i
    within :
        (b i : ℕ)
        → i < lanes
        → ((j : ℕ) → j < 64 → lane_word input lanes base i j < 2 ^ b)
        → tmps i < 2 ^ b

  gather :
      (k : ℕ) (tmps : Memory)
      → k < 64
      → Gathered k tmps
      → Gathered (k + 1) (or_vector bytes lanes ldz input (base + k * lanes) tmps)
  gather k tmps small g = record {
    above = λ i j h q. rw (or_vector_lane (base + k * lanes) tmps i h) (
        bit_or-le (tmps i) (lane_word input lanes base i k) (lane_word input lanes base i j)
          (older_or_new i j h q));
    within = λ b i h all.
        rw (or_vector_lane (base + k * lanes) tmps i h)
          (bit_or_fits b _ _ (g.within b i h all) (all k small));
  }
    where
      older_or_new :
          (i j : ℕ)
          → i < lanes
          → j < k + 1
          → (lane_word input lanes base i j ≤ tmps i)
            ⊎ (lane_word input lanes base i j ≤ lane_word input lanes base i k)
      older_or_new i j h q = elim (lt_or_le j k) [
        | inl old ↦ inl (g.above i j h old)
        | inr new ↦ let e : j ≡ k = omega arith in inr (rw e (omega arith))
      ]

  or_vectors-Gathered : Gathered 64 (or_vectors bytes lanes ldz input base)
  unfolding or_vectors
  or_vectors-Gathered =
      for_range_inv Gathered (λ k tmps. or_vector bytes lanes ldz input (base + k * lanes) tmps) 64
        0 64 refl (λ k tmps lo hi g. gather k tmps hi g) (λ _. 0)
        (record { above = λ i j h q. absurd (omega arith); within = λ b i h all. two-pow-pos b })

  -- `acc` has gathered the first `k` lanes.
  record Collected (k acc : ℕ) : Type 0 where
    above : (i j : ℕ) → i < k → j < 64 → lane_word input lanes base i j ≤ acc
    within :
        (b : ℕ)
        → ((j i : ℕ) → j < 64 → i < lanes → lane_word input lanes base i j < 2 ^ b)
        → acc < 2 ^ b

  collect :
      (k acc : ℕ)
      → k < lanes
      → Collected k acc
      → Collected (k + 1) (bit_or acc (or_vectors bytes lanes ldz input base k))
  collect k acc small g =
      let tmps = or_vectors bytes lanes ldz input base in
      record {
        above = λ i j h q.
            bit_or-le acc (tmps k) (lane_word input lanes base i j) (elim (lt_or_le i k) [
              | inl old ↦ inl (g.above i j old q)
              | inr new ↦
                  let e : i ≡ k = omega arith in inr (rw e (or_vectors-Gathered.above k j small q))
            ]);
        within = λ b all.
            bit_or_fits b acc (tmps k) (g.within b all)
              (or_vectors-Gathered.within b k small (λ j q. all j k q small));
      }

  or_chunk-Collected : Collected lanes (or_chunk bytes lanes ldz input base)
  unfolding or_chunk
  or_chunk-Collected =
      let tmps = or_vectors bytes lanes ldz input base in
      for_range_inv Collected (λ i acc. bit_or acc (tmps i)) lanes 0 lanes (omega arith)
        (λ k acc lo hi g. collect k acc hi g) 0
        (record { above = λ i j h q. absurd (omega arith); within = λ b all. two-pow-pos b })

  abbrev pub AllFit : ℕ → Type 0
  AllFit b = (k i : ℕ) → k < 64 → i < lanes → lane_word input lanes base i k < 2 ^ b

  -- For values of type T the bit width of a chunk holds every value of it, and no smaller one
  -- does; it is at most that of T.
  pub bitwidth_least :
      IsLeadingZeros ldz
      → (bytes ≡ 4) ⊎ (bytes ≡ 8)
      → AllFit (bytes * 8)
      → AllFit (bitwidth bytes lanes ldz input base)
        × (bitwidth bytes lanes ldz input base ≤ bytes * 8)
        × ((b : ℕ) → AllFit b → bitwidth bytes lanes ldz input base ≤ b)
  bitwidth_least counts known fit =
      let g = or_chunk-Collected in
      let width = ldz-bitwidth counts bytes lanes input base known (g.within (bytes * 8) fit) in
      (
        λ k i p q. omega (arith, g.above i k q p, width.holds),
        width.least (bytes * 8) (g.within (bytes * 8) fit),
        λ b all. width.least b (g.within b all),
      )
