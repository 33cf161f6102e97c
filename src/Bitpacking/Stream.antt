-- ===== src/Bitpacking/Stream.antt =====
-- What packed words mean: a sequence of fields of one width is the number whose digits, in base
-- 2 ^ width and lowest first, are the fields.
use native.Mathlib.Nat.{
  mul-le-mul_right, add-mul-div_right, add-mul-mod_self_right, div-eq_of_lt, mod-eq_of_lt, mul-suc,
}
use tsubasa.Base.{
  ℕ, zero, suc, ◌+◌, ◌-◌, ◌*◌, ◌/◌, ◌%◌, ◌^◌, ◌<◌, ◌≡◌, refl, ap, ◌∙◌, arith, ◌⊎◌, inl, inr,
}
use tsubasa.Base.Power.{two-pow-pos, two-pow-add}

unfoldable pub stream : ℕ → (ℕ → ℕ) → ℕ → ℕ
stream width f zero = 0
stream width f (suc n) = stream width f n + f n * 2 ^ (width * n)

pub stream-zero : (width : ℕ) (f : ℕ → ℕ) → stream width f 0 ≡ 0
unfolding stream
stream-zero width f = refl

pub stream-suc :
    (width : ℕ) (f : ℕ → ℕ) (n : ℕ)
    → stream width f (suc n) ≡ stream width f n + f n * 2 ^ (width * n)
unfolding stream
stream-suc width f n = refl

pub stream_congr :
    (width : ℕ) (f g : ℕ → ℕ) (n : ℕ)
    → ((k : ℕ) → k < n → f k ≡ g k)
    → stream width f n ≡ stream width g n
unfolding stream
stream_congr width f g zero same = refl
stream_congr width f g (suc n) same =
    rw (stream_congr width f g n (λ k h. same k (omega arith)), same n (omega arith))

-- A field of the given width above `low` fits where the width is added.
pub field-lt : (low v b k : ℕ) → low < 2 ^ k → v < 2 ^ b → low + v * 2 ^ k < 2 ^ (k + b)
field-lt low v b k p q =
    omega (arith, two-pow-add k b, mul-le-mul_right {m = suc v} {n = 2 ^ b} (2 ^ k) q)

pub stream-lt :
    (width : ℕ) (f : ℕ → ℕ) (n : ℕ)
    → ((k : ℕ) → k < n → f k < 2 ^ width)
    → stream width f n < 2 ^ (width * n)
unfolding stream
stream-lt width f zero fits = two-pow-pos (width * 0)
stream-lt width f (suc n) fits = rw (mul-suc width n) (
    field-lt (stream width f n) (f n) width (width * n)
      (stream-lt width f n (λ k h. fits k (omega arith))) (fits n (omega arith)))

-- The reference decoder: field `k` of a packed number.
pub decode : ℕ → ℕ → ℕ → ℕ
decode width k packed = packed / 2 ^ (width * k) % 2 ^ width

decode-top :
    (width low v k : ℕ)
    → low < 2 ^ (width * k)
    → v < 2 ^ width
    → decode width k (low + v * 2 ^ (width * k)) ≡ v
unfolding decode
decode-top width low v k p q =
    rw (add-mul-div_right low v (two-pow-pos (width * k)), div-eq_of_lt p)
      (mod-eq_of_lt {n = 0 + v} {m = 2 ^ width} (omega arith) ∙ omega arith)

decode_skip :
    (width low v k rest : ℕ)
    → decode width k (low + v * 2 ^ (width * (rest + suc k))) ≡ decode width k low
unfolding decode
decode_skip width low v k rest = rw (
  regroup,
  add-mul-div_right low (v * 2 ^ (width * rest) * 2 ^ width) (two-pow-pos (width * k)),
  add-mul-mod_self_right (low / 2 ^ (width * k)) (v * 2 ^ (width * rest)) (2 ^ width),
)
  where
    exponent : width * (rest + suc k) ≡ width * rest + width + width * k
    exponent = omega arith

    regroup :
        v * 2 ^ (width * (rest + suc k)) ≡ v * 2 ^ (width * rest) * 2 ^ width * 2 ^ (width * k)
    regroup =
        rw
          (
            exponent,
            two-pow-add (width * rest + width) (width * k),
            two-pow-add (width * rest) width,
          )
          (omega arith)

-- Fields above field `k` do not show in it.
decode_below :
    (width low v k n : ℕ) → k < n → decode width k (low + v * 2 ^ (width * n)) ≡ decode width k low
decode_below width low v k n h =
    let e : n ≡ n - suc k + suc k = omega arith in
    ap (λ (t : ℕ). decode width k (low + v * 2 ^ (width * t))) e
    ∙ decode_skip width low v k (n - suc k)

-- Decoding gives every field back.
pub decode-stream :
    (width : ℕ) (f : ℕ → ℕ) (n k : ℕ)
    → ((j : ℕ) → j < n → f j < 2 ^ width)
    → k < n
    → decode width k (stream width f n) ≡ f k
unfolding stream
decode-stream width f zero k fits h = absurd (omega arith)
decode-stream width f (suc n) k fits h = elim (top_or_below k n h) [
  | inl e ↦ rw e (
      decode-top width (stream width f n) (f n) n
        (stream-lt width f n (λ j p. fits j (omega arith))) (fits n (omega arith)))
  | inr p ↦
      decode_below width (stream width f n) (f n) k n p
      ∙ decode-stream width f n k (λ j q. fits j (omega arith)) p
]
  where
    top_or_below : (k n : ℕ) → k < suc n → (k ≡ n) ⊎ (k < n)
    top_or_below k n h = grind arith
