-- ===== src/Threading/Tiles.antt =====
-- The chunks of the threads tile the array.
use native.Mathlib.Nat.{mul-le-mul_right, mod-add-div}
use tsubasa.Base.{
  ℕ, zero, suc, ◌+◌, ◌-◌, ◌*◌, ◌/◌, ◌%◌, ◌≤◌, ◌<◌, ◌≡◌, refl, ap, arith, ◌==◌, if◌then◌else◌, some,
  lt→ltb, lt_or_le, eq_or_ne, inl, inr, ◌≢◌,
}
use tsubasa.Threading.{PartitionManager, get_chunk, get_chunk_with_size, get_chunk_base_addr}

-- How many elements thread `t` of `n` gets.
unfoldable pub share : ℕ → ℕ → ℕ → ℕ
share size n t = if t == n - 1 then size / n + size % n else size / n

-- `m` divides `size` elements from `base` on among `n` threads.
pub record Divides (base size n : ℕ) (m : PartitionManager) : Type 0 where
  pub base_addr : m.base_addr ≡ base
  pub num_threads : m.num_threads ≡ n
  pub chunk_size : m.chunk_size ≡ size / n
  pub residual : m.residual ≡ size % n

module _ (size n : ℕ) where
  share_last : (t : ℕ) → t ≡ n - 1 → share size n t ≡ size / n + size % n
  unfolding share
  share_last t h = ground (arith, h)

  share_other : (t : ℕ) → t ≢ n - 1 → share size n t ≡ size / n
  unfolding share
  share_other t h = ground (arith, h)

  -- The shares add up.
  whole : 0 < n → (n - 1) * (size / n) + (size / n + size % n) ≡ size
  whole pos =
      let e : n - 1 + 1 ≡ n = omega arith in
      omega (arith, mod-add-div size n, ap (λ (t : ℕ). t * (size / n)) e)

  -- A chunk ends where a later one begins.
  in_order : (t u : ℕ) → t < u → suc t * (size / n) ≤ u * (size / n)
  in_order t u h = mul-le-mul_right (size / n) h

  pub share_inside : (t : ℕ) → t < n → t * (size / n) + share size n t ≤ size
  share_inside t h = elim (eq_or_ne t (n - 1)) [
    | inl e ↦ omega (arith, share_last t e, ap (λ (x : ℕ). x * (size / n)) e, whole (omega arith))
    | inr ne ↦
        omega (arith, share_other t ne, in_order t (n - 1) (omega (arith, ne)), whole (omega arith))
  ]

  -- Each element is in a chunk.
  found_below :
      (x m : ℕ)
      → x < m * (size / n)
      → (t : ℕ) × (t < m) × (t * (size / n) ≤ x) × (x < suc t * (size / n))
  found_below x zero h = absurd (omega arith)
  found_below x (suc m) h = elim (lt_or_le x (m * (size / n))) [
    | inl below ↦ let (t, p, q, r) = found_below x m below in (t, omega arith, q, r)
    | inr top ↦ (m, omega arith, top, h)
  ]

  pub share-found :
      (x : ℕ)
      → x < size
      → 0 < n
      → (t : ℕ) × (t < n) × (t * (size / n) ≤ x) × (x < t * (size / n) + share size n t)
  share-found x h pos = elim (lt_or_le x ((n - 1) * (size / n))) [
    | inl below ↦
        let (t, p, q, r) = found_below x (n - 1) below in
        (t, omega arith, q, omega (arith, r, share_other t (omega (arith, p))))
    | inr top ↦ (n - 1, omega arith, top, omega (arith, share_last (n - 1) refl, whole pos))
  ]

  -- and in one only.
  not_later : (x t u : ℕ) → u < n → x < t * (size / n) + share size n t → u * (size / n) ≤ x → u ≤ t
  not_later x t u q b c = elim (lt_or_le t u) [
    | inl later ↦
        absurd (omega (arith, later, in_order t u later, share_other t (omega (arith, later))))
    | inr fine ↦ fine
  ]

  pub share_unique :
      (x t u : ℕ)
      → t < n
      → u < n
      → t * (size / n) ≤ x
      → x < t * (size / n) + share size n t
      → u * (size / n) ≤ x
      → x < u * (size / n) + share size n u
      → t ≡ u
  share_unique x t u p q a b c d = omega (arith, not_later x t u q b c, not_later x u t p d a)

module _ {max_threads base size n : ℕ} {m : PartitionManager} (divides : Divides base size n m)
    (t : ℕ) (below : t < n) (most : n ≤ max_threads) where
  pub get_chunk_with_size-share :
      get_chunk_with_size max_threads m t ≡ some (base + t * (size / n), share size n t)
  unfolding get_chunk_with_size share
  get_chunk_with_size-share =
      rw
        (
          divides.base_addr,
          divides.num_threads,
          divides.chunk_size,
          divides.residual,
          lt→ltb t max_threads (omega arith),
          lt→ltb t n below,
        )
        (ground arith)

  pub get_chunk-share :
      get_chunk max_threads m t
      ≡ some (base + t * (size / n), base + t * (size / n) + share size n t)
  unfolding get_chunk share
  get_chunk-share =
      rw
        (
          divides.base_addr,
          divides.num_threads,
          divides.chunk_size,
          divides.residual,
          lt→ltb t max_threads (omega arith),
          lt→ltb t n below,
        )
        (ground arith)

  pub get_chunk_base_addr-share : get_chunk_base_addr max_threads m t ≡ some (base + t * (size / n))
  unfolding get_chunk_base_addr
  get_chunk_base_addr-share =
      rw
        (
          divides.base_addr,
          divides.num_threads,
          divides.chunk_size,
          lt→ltb t max_threads (omega arith),
          lt→ltb t n below,
        )
        refl
