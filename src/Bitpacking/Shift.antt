-- ===== src/Bitpacking/Shift.antt =====
-- `<<`, `>>` and `|` on a word that gathers fields, as sums.
use native.Mathlib.Nat.{
  div-lt_iff_lt-mul, mod-eq_of_lt, mod-lt, mod-add-div, add-mul-mod_self_left,
  mul-lt-mul_of_pos_right,
}
use tsubasa.Base.{ℕ, ◌+◌, ◌*◌, ◌/◌, ◌%◌, ◌^◌, ◌≤◌, ◌<◌, ◌≡◌, ap, ◌∙◌, arith, bit_or}
use tsubasa.Base.Bits.{bit_or_field}
use tsubasa.Base.Power.{two-pow-pos, two-pow-add, two-pow-le}
use tsubasa.Bitpacking.Code.{shift_left, shift_right}
use tsubasa.Bitpacking.Stream.{field-lt}

-- The value of a field of `wordsize` bits that begins at bit `k`, split where the word ends.
-- `v << k` keeps the `wordsize - k` low bits of `v`, and the rest are `v >> (wordsize - k)`.
shift_split : (k r v : ℕ) → shift_left (k + r) v k ≡ v % 2 ^ r * 2 ^ k
shift_split k r v = rw (two-pow-add k r) (
    ap (λ (t : ℕ). t % (2 ^ k * 2 ^ r)) parts
    ∙ add-mul-mod_self_left (v % 2 ^ r * 2 ^ k) (2 ^ k * 2 ^ r) (v / 2 ^ r)
    ∙ mod-eq_of_lt below)
  where
    parts : v * 2 ^ k ≡ v % 2 ^ r * 2 ^ k + 2 ^ k * 2 ^ r * (v / 2 ^ r)
    parts = omega (arith, ap (λ (t : ℕ). t * 2 ^ k) (mod-add-div v (2 ^ r)))

    below : v % 2 ^ r * 2 ^ k < 2 ^ k * 2 ^ r
    below =
        omega
          (arith, mul-lt-mul_of_pos_right {k = 2 ^ k} (mod-lt v (two-pow-pos r)) (two-pow-pos k))

-- A field that ends within the word is kept whole.
pub shift_fits :
    (wordsize k b v : ℕ) → v < 2 ^ b → k + b ≤ wordsize → shift_left wordsize v k ≡ v * 2 ^ k
shift_fits wordsize k b v small room =
    mod-eq_of_lt
      (omega (arith, field-lt 0 v b k (two-pow-pos k) small, two-pow-le (k + b) wordsize room))

-- `result_vector | (v << k)` where the field ends within the word, and where the word ends first:
-- then the bits that do not fit are `v >> r`.
pub or_shift_fits :
    (wordsize k b acc v : ℕ)
    → acc < 2 ^ k
    → v < 2 ^ b
    → k + b ≤ wordsize
    → bit_or acc (shift_left wordsize v k) ≡ acc + v * 2 ^ k
or_shift_fits wordsize k b acc v low small room =
    rw (shift_fits wordsize k b v small room) (bit_or_field k acc v low)

pub or_shift_splits :
    (k r acc v : ℕ)
    → acc < 2 ^ k
    → (bit_or acc (shift_left (k + r) v k) + shift_right v r * 2 ^ (k + r) ≡ acc + v * 2 ^ k)
      × (bit_or acc (shift_left (k + r) v k) < 2 ^ (k + r))
or_shift_splits k r acc v low =
    let word : bit_or acc (shift_left (k + r) v k) ≡ acc + v % 2 ^ r * 2 ^ k =
      ap (bit_or acc) (shift_split k r v) ∙ bit_or_field k acc (v % 2 ^ r) low in
    (
      rw (word, two-pow-add k r) (omega (arith, ap (λ (t : ℕ). t * 2 ^ k) (mod-add-div v (2 ^ r)))),
      rw word (field-lt acc (v % 2 ^ r) r k low (mod-lt v (two-pow-pos r))),
    )

-- The bits that do not fit make a shorter field.
pub shift_right-lt : (b r rest v : ℕ) → r + rest ≡ b → v < 2 ^ b → shift_right v r < 2 ^ rest
shift_right-lt b r rest v e small =
    (div-lt_iff_lt-mul (two-pow-pos r)).1
      (omega (arith, two-pow-add rest r, ap (λ (t : ℕ). 2 ^ t) e', small))
  where
    e' : rest + r ≡ b
    e' = omega arith
