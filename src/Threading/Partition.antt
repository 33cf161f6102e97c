-- ===== src/Threading/Partition.antt =====
-- `get_chunk` and its two variants, after `set_thread_count`.
use mathlib.Core.Option.{some-injective}
use tsubasa.Base.{
  ℕ, ◌+◌, ◌-◌, ◌*◌, ◌/◌, ◌≤◌, ◌<◌, ◌≡◌, ◌∙◌, refl, sym, ap, arith, some, none, lt_or_le, inl, inr,
}
use tsubasa.Threading.{
  PartitionManager, construct, set_thread_count, get_chunk, get_chunk_with_size,
  get_chunk_base_addr,
}
use tsubasa.Threading.Tiles.{
  Divides, share, share_inside, share-found, share_unique, get_chunk-share,
  get_chunk_with_size-share, get_chunk_base_addr-share,
}

-- The chunk of thread `t` has address `a`.
pub Covers : ℕ → PartitionManager → ℕ → ℕ → Type 0
Covers max_threads m t a =
    (c : ℕ × ℕ) × (get_chunk max_threads m t ≡ some c) × (c.0 ≤ a) × (a < c.1)

-- The chunk of thread `t` lies in the array, and the three functions agree on it.
pub IsChunk : ℕ → PartitionManager → ℕ → ℕ → ℕ → Type 0
IsChunk max_threads m base size t =
    (c : ℕ × ℕ) × (get_chunk max_threads m t ≡ some c)
    × (get_chunk_with_size max_threads m t ≡ some (c.0, c.1 - c.0))
    × (get_chunk_base_addr max_threads m t ≡ some (c.0))
    × (base ≤ c.0)
    × (c.1 ≤ base + size)

module _ (max_threads base size n : ℕ) where
  abbrev pub divided : PartitionManager
  divided = set_thread_count n (construct max_threads base size)

  pub divided-Divides : Divides base size n divided
  divided-Divides = record {
    base_addr = refl;
    num_threads = refl;
    chunk_size = refl;
    residual = refl;
  }

  get_chunk-none : (t : ℕ) → n ≤ t → get_chunk max_threads divided t ≡ none
  unfolding get_chunk
  get_chunk-none t h = ground (arith, h)

  Covers-lt : (t a : ℕ) → Covers max_threads divided t a → t < n
  unfolding Covers
  Covers-lt t a (c, e, p, q) = elim (lt_or_le t n) [
    | inl below ↦ below
    | inr above ↦ let missing = get_chunk-none t above in absurd (grind (arith, e, missing))
  ]

  module _ (pos : 0 < n) (most : n ≤ max_threads) where
    divided-IsChunk : (t : ℕ) → t < n → IsChunk max_threads divided base size t
    unfolding IsChunk
    divided-IsChunk t h = (
      (base + t * (size / n), base + t * (size / n) + share size n t),
      get_chunk-share divided-Divides t h most,
      get_chunk_with_size-share divided-Divides t h most
          ∙ ap (λ (s : ℕ). some (base + t * (size / n), s)) (omega arith),
      get_chunk_base_addr-share divided-Divides t h most,
      omega arith,
      omega (arith, share_inside size n t h),
    )

    Covers-share :
        (t x : ℕ)
        → Covers max_threads divided t (base + x)
        → (t * (size / n) ≤ x) × (x < t * (size / n) + share size n t)
    unfolding Covers
    Covers-share t x (c, e, p, q) =
        let same =
          some-injective _ _ (
            sym e ∙ get_chunk-share divided-Divides t (Covers-lt t (base + x) (c, e, p, q)) most) in
        (omega (arith, p, ap (λ s. s.0) same), omega (arith, q, ap (λ s. s.1) same))

    -- After `set_thread_count`, with a count from 1 to MAX_THREAD_COUNT, no assertion fails for a
    -- thread below the count, its chunk lies in the array and `get_chunk`, `get_chunk_with_size` and
    -- `get_chunk_base_addr` agree on it; each element of the array is in the chunk of exactly one
    -- thread.
    pub chunks_tile :
        ((t : ℕ) → t < n → IsChunk max_threads divided base size t)
        × ((x : ℕ)
            → x < size
            → (t : ℕ) × (t < n)
              × Covers max_threads divided t (base + x)
              × ((u : ℕ) → Covers max_threads divided u (base + x) → u ≡ t))
    unfolding Covers
    chunks_tile = (
      divided-IsChunk,
      λ x h.
          let (t, p, q, r) = share-found size n x h pos in
          (
            t,
            p,
            (_, get_chunk-share divided-Divides t p most, omega (arith, q), omega (arith, r)),
            λ u c.
                share_unique size n x u t (Covers-lt u (base + x) c) p (Covers-share u x c).0
                  (Covers-share u x c).1 q r,
          ),
    )
