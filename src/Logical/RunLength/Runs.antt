-- ===== src/Logical/RunLength/Runs.antt =====
-- Runs as lists of values, and what the compression and the decompression make of them.
use mathlib.Core.Bool.{true, false}
use mathlib.Core.List.{append_assoc}
use native.Mathlib.Nat.{mod-eq_of_lt, add-zero, zero-add}
use tsubasa.Base.{
  ℕ, zero, suc, ◌+◌, ◌%◌, ◌^◌, ◌≤◌, ◌<◌, ◌≡◌, ◌∙◌, refl, sym, ap, arith, List, [], ◌∷◌, ◌++◌,
  length, ◌==◌, if◌then◌else◌, Bool-cases, inl, inr,
}
use tsubasa.Base.Memory.{Memory, write, write_self, write_ne}
use tsubasa.Logical.RunLength.{Encoder, encode_value}

-- `f first`, `f (first + 1)`, … as a list.
pub span : (ℕ → ℕ) → ℕ → ℕ → List ℕ
span f first zero = []
span f first (suc n) = f first ∷ span f (first + 1) n

pub span-suc :
    (f : ℕ → ℕ) (first n : ℕ) → span f first (suc n) ≡ span f first n ++ f (first + n) ∷ []
unfolding span
span-suc f first zero = rw add-zero refl
span-suc f first (suc n) =
    ap (λ xs. f first ∷ xs) (span-suc f (first + 1) n)
    ∙ ap (λ (t : ℕ). f first ∷ (span f (first + 1) n ++ f t ∷ [])) (omega arith)

pub span-add_one : (f : ℕ → ℕ) (n : ℕ) → span f 0 (n + 1) ≡ span f 0 n ++ f n ∷ []
span-add_one f n =
    ap (span f 0) (omega arith)
    ∙ span-suc f 0 n
    ∙ ap (λ (t : ℕ). span f 0 n ++ f t ∷ []) (zero-add n)

pub span_congr :
    (f g : ℕ → ℕ) (first n : ℕ)
    → ((p : ℕ) → first ≤ p → p < first + n → f p ≡ g p)
    → span f first n ≡ span g first n
unfolding span
span_congr f g first zero same = refl
span_congr f g first (suc n) same = rw (
  same first (omega arith) (omega arith),
  span_congr f g (first + 1) n (λ p lo hi. same p (omega arith) (omega (arith, hi))),
)

pub length-span : (f : ℕ → ℕ) (first n : ℕ) → length (span f first n) ≡ n
unfolding span
length-span f first zero = refl
length-span f first (suc n) = omega (arith, length-span f (first + 1) n)

pub copies : ℕ → ℕ → List ℕ
copies zero x = []
copies (suc n) x = copies n x ++ x ∷ []

-- The reference decoder: `count` runs one after the other.
pub expand : (ℕ → ℕ) → (ℕ → ℕ) → ℕ → List ℕ
expand values lengths zero = []
expand values lengths (suc k) = expand values lengths k ++ copies (lengths k) (values k)

expand_congr :
    (v w l m : ℕ → ℕ) (k : ℕ)
    → ((i : ℕ) → i < k → v i ≡ w i)
    → ((i : ℕ) → i < k → l i ≡ m i)
    → expand v l k ≡ expand w m k
unfolding expand
expand_congr v w l m zero p q = refl
expand_congr v w l m (suc k) p q = rw (
  expand_congr v w l m k (λ i h. p i (omega arith)) (λ i h. q i (omega arith)),
  p k (omega arith),
  q k (omega arith),
)

-- The values with each one that is equal to the first replaced by the value before it.
pub carried : (ℕ → ℕ) → ℕ → ℕ
carried f zero = f 0
carried f (suc p) = if f (suc p) == f 0 then carried f p else f (suc p)

pub carried_kept : (f : ℕ → ℕ) (p : ℕ) → (f (suc p) == f 0) ≡ true → carried f (suc p) ≡ carried f p
unfolding carried
carried_kept f p h = rw h refl

pub carried_new : (f : ℕ → ℕ) (p : ℕ) → (f (suc p) == f 0) ≡ false → carried f (suc p) ≡ f (suc p)
unfolding carried
carried_new f p h = rw h refl

pub copies-add_one : (n x : ℕ) → copies (n + 1) x ≡ copies n x ++ x ∷ []
unfolding copies
copies-add_one n x = let e : n + 1 ≡ suc n = omega arith in rw e refl

pub copies-zero : (x : ℕ) → copies 0 x ≡ []
unfolding copies
copies-zero x = refl

pub span-zero : (f : ℕ → ℕ) (first : ℕ) → span f first 0 ≡ []
unfolding span
span-zero f first = refl

pub expand-zero : (v l : ℕ → ℕ) → expand v l 0 ≡ []
unfolding expand
expand-zero v l = refl

pub carried-zero : (f : ℕ → ℕ) → carried f 0 ≡ f 0
unfolding carried
carried-zero f = refl

pub copies-one : (x : ℕ) → copies 1 x ≡ x ∷ []
unfolding copies
copies-one x = refl

-- Equal lists have equal elements.
pub span_elements :
    (f g : ℕ → ℕ) (first n : ℕ)
    → span f first n ≡ span g first n
    → (p : ℕ) → p < n
    → f (first + p) ≡ g (first + p)
unfolding span
span_elements f g first zero e p h = absurd (omega arith)
span_elements f g first (suc n) e zero h = rw add-zero (cc)
span_elements f g first (suc n) e (suc p) h =
    let move : first + suc p ≡ first + 1 + p = omega arith in
    rw move (span_elements f g (first + 1) n (cc) p (omega arith))

pub expand-add_one : (v l : ℕ → ℕ) (k : ℕ) → expand v l (k + 1) ≡ expand v l k ++ copies (l k) (v k)
unfolding expand
expand-add_one v l k = let e : k + 1 ≡ suc k = omega arith in rw e refl

module _ (width : ℕ) (values before : Memory) (n : ℕ) (small : n < 2 ^ width) where
  -- After position `q`.
  pub record Encoded (q : ℕ) (s : Encoder) : Type 0 where
    pub few : s.result_position ≤ q
    pub short : s.run_length ≤ suc q
    pub runs :
        expand s.result (λ i. s.result (n + i)) s.result_position
          ++ copies s.run_length (s.result s.result_position)
        ≡ span (carried values) 0 (suc q)
    pub current : s.result s.result_position ≡ carried values q

  carried_one :
      (q : ℕ)
      → span (carried values) 0 (suc (suc q))
        ≡ span (carried values) 0 (suc q) ++ carried values (suc q) ∷ []
  carried_one q =
      span-suc (carried values) 0 (suc q)
      ∙ ap (λ (t : ℕ). span (carried values) 0 (suc q) ++ carried values t ∷ []) (zero-add (suc q))

  pub start-Encoded :
      Encoded 0 (record { run_length = 1; result_position = 0; result = write before 0 (values 0) })
  unfolding expand copies span carried
  start-Encoded = record { few = omega arith; short = omega arith; runs = refl; current = refl }

  -- Writing the length of the last run completes the runs.
  module _ (s : Encoder) (q : ℕ) (inside : q < n) (e : Encoded q s) where
    abbrev pub ended : Memory
    ended = write s.result (n + s.result_position) (s.run_length % 2 ^ width)

    ended-below : (i : ℕ) → i < n + s.result_position → ended i ≡ s.result i
    ended-below i h =
        write_ne s.result (n + s.result_position) (s.run_length % 2 ^ width) i (omega (arith, h))

    ended-last : ended (n + s.result_position) ≡ s.run_length
    ended-last =
        write_self s.result (n + s.result_position) (s.run_length % 2 ^ width)
        ∙ mod-eq_of_lt {m = 2 ^ width} (omega (arith, e.short))

    pub ended-runs :
        expand ended (λ i. ended (n + i)) (s.result_position + 1) ≡ span (carried values) 0 (suc q)
    ended-runs =
        expand-add_one ended (λ i. ended (n + i)) s.result_position
        ∙ rw
            (
              expand_congr ended s.result (λ i. ended (n + i)) (λ i. s.result (n + i))
                  s.result_position (λ i h. ended-below i (omega (arith, h)))
                  (λ i h. ended-below (n + i) (omega (arith, h))),
              ended-last,
              ended-below s.result_position (omega (arith, e.few)),
            )
            e.runs

  -- The first value of the next run does not touch them.
  closed-runs :
      (s : Encoder) (q v : ℕ) (inside : suc q < n) (e : Encoded q s)
      → let r = write (ended s q (omega arith) e) (s.result_position + 1) v in
        expand r (λ i. r (n + i)) (s.result_position + 1) ≡ span (carried values) 0 (suc q)
  closed-runs s q v inside e =
      let old = ended s q (omega arith) e in
      let r = write old (s.result_position + 1) v in
      expand_congr r old (λ i. r (n + i)) (λ i. old (n + i)) (s.result_position + 1)
        (λ i h. write_ne old (s.result_position + 1) v i (omega (arith, h)))
        (λ i h. write_ne old (s.result_position + 1) v (n + i) (omega (arith, e.few)))
      ∙ ended-runs s q (omega arith) e

  pub encode_value-Encoded :
      (q : ℕ) (s : Encoder)
      → suc q < n
      → Encoded q s
      → Encoded (suc q) (encode_value width values n (suc q) s)
  unfolding encode_value
  encode_value-Encoded q s h e = elim (Bool-cases (values (suc q) == values 0)) [
    | inl same ↦ rw same (record {
      few = omega (arith, e.few);
      short = omega (arith, e.short);
      runs =
          rw
            (
              copies-add_one,
              ← append_assoc,
              e.runs,
              carried_one,
              carried_kept values q same,
              e.current,
            )
            refl;
      current = e.current ∙ sym (carried_kept values q same);
    })
    | inr new ↦ rw new (record {
      few = omega (arith, e.few);
      short = omega arith;
      runs =
          rw
            (
              closed-runs s q (values (suc q)) h e,
              carried_one,
              carried_new values q new,
              write_self (ended s q (omega arith) e) (s.result_position + 1) (values (suc q)),
              copies-one,
            )
            refl;
      current =
          write_self (ended s q (omega arith) e) (s.result_position + 1) (values (suc q))
          ∙ sym (carried_new values q new);
    })
  ]
