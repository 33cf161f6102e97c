-- ===== src/Bitpacking/Generated.antt =====
-- Every specialisation in bitpacking_impl.h is what bitpacking_generator.cpp prints for it.
use tsubasa.Base.{
  ℕ, ◌+◌, ◌≤◌, ◌<◌, ◌⊎◌, List, [], ◌∷◌, ◌≡◌, refl, Bool, true, ◌&&◌, ◌==◌, Bool-cases, inl, inr,
  length, some, arith,
}
use tsubasa.Bitpacking.Code.{Statement}
use tsubasa.Bitpacking.Dispatch.{switch, cases_uint32, cases_uint64, pack_code}
use tsubasa.Bitpacking.Generator.{Output, create_func, printed, chunksize}

abbrev Cases : Type 0
Cases = List (ℕ × List Statement)

-- What the generator prints for the label of each case, and what the cases hold.
abbrev created : ℕ → Cases → List Output
created wordsize [] = []
created wordsize ((bw, code) ∷ cases) = create_func wordsize bw ∷ created wordsize cases

abbrev listed : Cases → List Output
listed [] = []
listed ((bw, code) ∷ cases) = printed code chunksize ∷ listed cases

created_uint32 : created 32 cases_uint32 ≡ listed cases_uint32
unfolding create_func
created_uint32 = refl

created_uint64 : created 64 cases_uint64 ≡ listed cases_uint64
unfolding create_func
created_uint64 = refl

-- A case that the `switch` takes holds what the generator prints for its label.
switch-created :
    (wordsize : ℕ) (cases : Cases) (bw : ℕ) (code : List Statement)
    → created wordsize cases ≡ listed cases
    → switch bw cases ≡ some code
    → create_func wordsize bw ≡ printed code chunksize
switch-created wordsize [] bw code same found = cc
switch-created wordsize ((label, c) ∷ cases) bw code same found =
    ground (arith, switch-created wordsize cases bw code)

abbrev consecutive : ℕ → Cases → Bool
consecutive first [] = true
consecutive first ((label, c) ∷ cases) = label == first && consecutive (first + 1) cases

-- Consecutive labels leave no value out.
switch-consecutive :
    (first : ℕ) (cases : Cases) (bw : ℕ)
    → consecutive first cases ≡ true
    → first ≤ bw
    → bw < first + length cases
    → (code : List Statement) × (switch bw cases ≡ some code)
switch-consecutive first [] bw e lo hi = absurd (omega arith)
switch-consecutive first ((label, c) ∷ cases) bw e lo hi = elim (Bool-cases (bw == label)) [
  | inl hit ↦ (c, rw hit)
  | inr miss ↦
      rw miss (switch-consecutive (first + 1) cases bw (ground arith) (ground arith) (ground arith))
]

-- For a word of 32 or 64 bits every bit width from 1 to the word size has a case in the `switch`
-- of `compress_impl`, and its specialisation is what `create_func` prints, for a whole chunk.
pub pack_code-create_func :
    (wordsize bw : ℕ)
    → (wordsize ≡ 32) ⊎ (wordsize ≡ 64)
    → 0 < bw
    → bw ≤ wordsize
    → (code : List Statement) × (pack_code wordsize bw ≡ some code)
      × (create_func wordsize bw ≡ printed code chunksize)
pack_code-create_func wordsize bw (inl e) lo hi =
    let (code, found) = switch-consecutive 1 cases_uint32 bw refl lo (omega arith) in
    rw e (code, found, switch-created 32 cases_uint32 bw code created_uint32 found)
pack_code-create_func wordsize bw (inr e) lo hi =
    let (code, found) = switch-consecutive 1 cases_uint64 bw refl lo (omega arith) in
    rw e (code, found, switch-created 64 cases_uint64 bw code created_uint64 found)
