-- ===== src/HashSet/Scan.antt =====
-- Loops that stop at the first index which passes a test, and the slots that a probe visits.
use native.Mathlib.Nat.{mod-lt, add-mod-mod, add-mul-mod_self_left, mod-eq_of_lt, mod-add-div}
use mathlib.Core.Bool.{false≢true}
use tsubasa.Base.{
  ℕ, zero, suc, ◌+◌, ◌-◌, ◌/◌, ◌%◌, ◌≤◌, ◌<◌, ◌≡◌, ◌≢◌, ◌∙◌, ap, Bool, true, false, ◌==◌,
  if◌then◌else◌, arith, inl, inr, lt_or_le, Bool-cases, refl, sym,
}
use tsubasa.Base.Memory.{Memory, write}
use tsubasa.Base.Loop.{for_range_inv}
use tsubasa.HashSet.{Histogram, first_index, key_count}

-- `r` is the first index from `first` on that passes, or `last` if none below it does.
pub record IsFirst (test : ℕ → Bool) (first last r : ℕ) : Type 0 where
  pub low : first ≤ r
  pub high : r ≤ last
  pub before : (o : ℕ) → first ≤ o → o < r → test o ≡ false
  pub hit : r < last → test r ≡ true

pub first_index-IsFirst :
    (test : ℕ → Bool) (rounds first last : ℕ)
    → first + rounds ≡ last
    → IsFirst test first last (first_index test rounds first)
unfolding first_index
first_index-IsFirst test zero first last e = record {
  low = omega arith;
  high = omega arith;
  before = λ o lo hi. absurd (omega arith);
  hit = λ h. absurd (omega arith);
}
first_index-IsFirst test (suc rounds) first last e =
    let rest = first_index-IsFirst test rounds (first + 1) last (omega arith) in
    elim (Bool-cases (test first)) [
      | inl pass ↦
          rw (pass, first_index)
            (record {
              low = omega arith;
              high = omega arith;
              before = λ o lo hi. absurd (omega arith);
              hit = λ h. pass;
            })
      | inr fail ↦
          rw (fail, first_index)
            (record {
              low = omega (arith, rest.low);
              high = rest.high;
              before = λ o lo hi. elim (lt_or_le first o) [
                | inl later ↦ rest.before o (omega arith) hi
                | inr here ↦ let e : o ≡ first = omega arith in rw e fail
              ];
              hit = rest.hit;
            })
    ]

-- The first index that passes is the one below which none does.
pub IsFirst_unique :
    {test : ℕ → Bool} {last r : ℕ} (o : ℕ)
    → IsFirst test 0 last r
    → o < last
    → test o ≡ true
    → ((p : ℕ) → p < o → test p ≡ false)
    → r ≡ o
IsFirst_unique {r} o f h pass none_before = elim (lt_or_le r o) [
  | inl early ↦ absurd (false≢true (sym (none_before r early) ∙ f.hit (omega (arith, early))))
  | inr late ↦ elim (lt_or_le o r) [
    | inl after ↦ absurd (false≢true (sym (f.before o (omega arith) after) ∙ pass))
    | inr same ↦ omega arith
  ]
]

-- Some offset below `n` leads to each slot.
pub reach : (h n p : ℕ) → p < n → (o : ℕ) × (o < n) × ((h + o) % n ≡ p)
reach h n p below = (
  (p + (n - h % n)) % n,
  mod-lt _ (omega arith),
  add-mod-mod h (p + (n - h % n)) n
      ∙ ap (λ (t : ℕ). t % n) (omega (arith, mod-add-div h n, mod-lt h {m = n} (omega arith)))
      ∙ add-mul-mod_self_left p n (h / n + 1)
      ∙ mod-eq_of_lt below,
)

-- How many of the first `n` slots are taken.
unfoldable pub taken : Memory → ℕ → ℕ
taken keys zero = 0
taken keys (suc n) = taken keys n + (if keys n == 0 then 0 else 1)

pub free_slot : (keys : Memory) (n : ℕ) → taken keys n < n → (p : ℕ) × (p < n) × (keys p ≡ 0)
unfolding taken
free_slot keys zero h = absurd (omega arith)
free_slot keys (suc n) h = elim (Bool-cases (keys n == 0)) [
  | inl free ↦ (n, omega arith, ground arith)
  | inr used ↦ let (p, below, e) = free_slot keys n (ground arith) in (p, omega arith, e)
]

taken-write_above : (keys : Memory) (p v n : ℕ) → n ≤ p → taken (write keys p v) n ≡ taken keys n
unfolding taken
taken-write_above keys p v zero h = refl
taken-write_above keys p v (suc n) h = ground (arith, taken-write_above keys p v n)

pub taken-write :
    (keys : Memory) (p v n : ℕ)
    → p < n
    → keys p ≡ 0
    → v ≢ 0
    → taken (write keys p v) n ≡ taken keys n + 1
unfolding taken
taken-write keys p v zero h free used = absurd (omega arith)
taken-write keys p v (suc n) h free used = elim (lt_or_le p n) [
  | inl below ↦ ground (arith, taken-write keys p v n)
  | inr top ↦ ground (arith, taken-write_above keys p v n)
]

pub taken_none : (keys : Memory) (n : ℕ) → ((p : ℕ) → keys p ≡ 0) → taken keys n ≡ 0
unfolding taken
taken_none keys zero h = refl
taken_none keys (suc n) h = ground (arith, taken_none keys n h, h n)

-- `key_count( )` counts the slots that are taken.
pub key_count-taken : (s : Histogram) → key_count s ≡ taken s.key_container s.container_size
unfolding key_count taken
key_count-taken s =
    for_range_inv (λ i sum. sum ≡ taken s.key_container i)
      (λ i sum. if s.key_container i == 0 then sum else sum + 1) s.container_size 0 s.container_size
      (omega arith)
      (λ i sum lo hi p. let e : i + 1 ≡ suc i = omega arith in rw e (ground (arith, p))) 0 refl
