-- ===== src/BitWeaving/Fields.antt =====
-- Words as fields side by side: sums, `^` and `~` field by field.
use native.Mathlib.Nat.{mul-suc, mul-zero, pow-zero, mul_comm}
use tsubasa.Base.{ℕ, zero, suc, ◌+◌, ◌-◌, ◌*◌, ◌^◌, ◌<◌, ◌≡◌, ◌∙◌, refl, ap, arith, bit_xor}
use tsubasa.Base.Power.{two-pow-add, two-pow-pos}
use tsubasa.Base.Xor.{bit_xor_fields}
use tsubasa.Bitpacking.Stream.{stream, stream-lt, stream_congr}

module _ (w : ℕ) where
  pub stream-add : (f g : ℕ → ℕ) (n : ℕ) → stream w f n + stream w g n ≡ stream w (λ i. f i + g i) n
  unfolding stream
  stream-add f g zero = refl
  stream-add f g (suc n) = omega (arith, stream-add f g n)

  pub stream-bit_xor :
      (f g : ℕ → ℕ) (n : ℕ)
      → ((i : ℕ) → i < n → f i < 2 ^ w)
      → ((i : ℕ) → i < n → g i < 2 ^ w)
      → bit_xor (stream w f n) (stream w g n) ≡ stream w (λ i. bit_xor (f i) (g i)) n
  unfolding stream
  stream-bit_xor f g zero p q = refl
  stream-bit_xor f g (suc n) p q =
      bit_xor_fields (w * n) (stream w f n) (stream w g n) (f n) (g n)
        (stream-lt w f n (λ i h. p i (omega arith))) (stream-lt w g n (λ i h. q i (omega arith)))
      ∙ ap (λ (t : ℕ). t + bit_xor (f n) (g n) * 2 ^ (w * n))
          (stream-bit_xor f g n (λ i h. p i (omega arith)) (λ i h. q i (omega arith)))

  pub stream-scale : (c : ℕ) (f : ℕ → ℕ) (n : ℕ) → c * stream w f n ≡ stream w (λ i. c * f i) n
  unfolding stream
  stream-scale c f zero = omega arith
  stream-scale c f (suc n) = omega (arith, stream-scale c f n)

  -- The lowest field apart.
  pub stream-low :
      (f : ℕ → ℕ) (n : ℕ) → stream w f (suc n) ≡ f 0 + stream w (λ i. f (suc i)) n * 2 ^ w
  unfolding stream
  stream-low f zero = rw (mul-zero, pow-zero) (omega arith)
  stream-low f (suc n) = rw (stream-low f n, mul-suc, two-pow-add) (omega arith)

  pred-mul : (a b : ℕ) → 0 < a → (a - 1) * b + b ≡ a * b
  pred-mul a b h = let e : a - 1 + 1 ≡ a = omega arith in omega (arith, ap (λ (t : ℕ). t * b) e)

  pub stream-ones : (n : ℕ) → stream w (λ i. 2 ^ w - 1) n + 1 ≡ 2 ^ (w * n)
  unfolding stream
  stream-ones zero = rw mul-zero refl
  stream-ones (suc n) = omega (
    arith,
    stream-ones n,
    ap (λ (t : ℕ). 2 ^ t) (mul-suc w n),
    two-pow-add (w * n) w,
    two-pow-pos w,
    mul_comm (2 ^ (w * n)) (2 ^ w),
    pred-mul (2 ^ w) (2 ^ (w * n)) (two-pow-pos w),
  )

  -- `~` field by field.
  pub stream-complement :
      (f : ℕ → ℕ) (n : ℕ)
      → ((i : ℕ) → i < n → f i < 2 ^ w)
      → 2 ^ (w * n) - 1 - stream w f n ≡ stream w (λ i. 2 ^ w - 1 - f i) n
  stream-complement f n p = omega (
    arith,
    stream-ones n,
    stream-add f (λ i. 2 ^ w - 1 - f i) n,
    stream_congr w (λ i. f i + (2 ^ w - 1 - f i)) (λ i. 2 ^ w - 1) n (λ i h. omega (arith, p i h)),
  )
