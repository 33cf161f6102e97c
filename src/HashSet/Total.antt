-- ===== src/HashSet/Total.antt =====
-- Sums of counters.
use native.Mathlib.Nat.{mod-add-mod}
use native.Mathlib.Numerals.{add-one}
use tsubasa.Base.{ℕ, zero, suc, ◌+◌, ◌%◌, ◌^◌, ◌≤◌, ◌<◌, ◌≡◌, ◌≢◌, arith, inl, inr, lt_or_le, refl}
use tsubasa.Base.Memory.{Memory, write, write_self, write_ne}
use tsubasa.Base.Loop.{for_range_inv}
use tsubasa.HashSet.{Histogram, get_count}
use tsubasa.HashSet.Scan.{taken}

-- The sum of the first `n` counters.
unfoldable pub total : Memory → ℕ → ℕ
total counts zero = 0
total counts (suc n) = total counts n + counts n

pub total_zero : (f : Memory) → total f 0 ≡ 0
unfolding total
total_zero f = refl

pub total_next : (f : Memory) (n : ℕ) → total f (n + 1) ≡ total f n + f n
unfolding total
total_next f n = rw (add-one n) refl

pub total-same : (f g : Memory) (n : ℕ) → ((i : ℕ) → i < n → g i ≡ f i) → total g n ≡ total f n
unfolding total
total-same f g zero h = refl
total-same f g (suc n) h =
    omega (arith, total-same f g n (λ i below. h i (omega (arith, below))), h n (omega arith))

-- A sum in which one addend changes.
pub total-update :
    (f g : Memory) (j n : ℕ)
    → j < n
    → ((i : ℕ) → i < n → i ≢ j → g i ≡ f i)
    → total g n + f j ≡ total f n + g j
unfolding total
total-update f g j zero h same = absurd (omega arith)
total-update f g j (suc n) h same = elim (lt_or_le j n) [
  | inl below ↦ omega (
    arith,
    total-update f g j n below (λ i lo. same i (omega (arith, lo))),
    same n (omega arith) (omega (arith, below)),
  )
  | inr top ↦
      let e : j ≡ n = omega (arith, h, top) in
      let rest = total-same f g n (λ i lo. same i (omega (arith, lo)) (omega (arith, lo, top))) in
      rw e (omega (arith, rest))
]

pub total-write :
    (counts : Memory) (p v n : ℕ)
    → p < n
    → v ≡ counts p + 1
    → total (write counts p v) n ≡ total counts n + 1
total-write counts p v n h e =
    let changed =
      total-update counts (write counts p v) p n h (λ i below other. write_ne counts p v i other) in
    omega (arith, changed, write_self counts p v, e)

pub total_some : (f : Memory) (i n : ℕ) → i < n → f i ≤ total f n
unfolding total
total_some f i zero h = absurd (omega arith)
total_some f i (suc n) h = elim (lt_or_le i n) [
  | inl below ↦ omega (arith, total_some f i n below)
  | inr here ↦ let e : i ≡ n = omega (arith, h, here) in rw e (omega arith)
]

pub taken-total :
    (keys counts : Memory) (n : ℕ)
    → ((p : ℕ) → p < n → keys p ≢ 0 → 0 < counts p)
    → taken keys n ≤ total counts n
unfolding taken total
taken-total keys counts zero h = omega arith
taken-total keys counts (suc n) h =
    let rest = taken-total keys counts n (λ p below. h p (omega (arith, below))) in
    ground (arith, rest, h n)

pub total_none : (counts : Memory) (n : ℕ) → ((p : ℕ) → counts p ≡ 0) → total counts n ≡ 0
unfolding total
total_none counts zero h = refl
total_none counts (suc n) h = ground (arith, total_none counts n h, h n)

-- `get_count( )` adds up in 64 bits.
pub get_count-total :
    (s : Histogram) → get_count s ≡ total s.key_count_container s.container_size % 2 ^ 64
unfolding get_count total
get_count-total s =
    for_range_inv (λ i sum. sum ≡ total s.key_count_container i % 2 ^ 64)
      (λ i sum. (sum + s.key_count_container i) % 2 ^ 64) s.container_size 0 s.container_size
      (omega arith)
      (λ i sum lo hi p.
        rw (add-one i, p)
          (mod-add-mod (total s.key_count_container i) (2 ^ 64) (s.key_count_container i)))
      0 refl
