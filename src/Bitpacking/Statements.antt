-- ===== src/Bitpacking/Statements.antt =====
-- What each group of statements that the generator prints together does to the invariant of a
-- pack function: a lane loop and the pointer increments behind it.
use native.Mathlib.Nat.{zero-add}
use tsubasa.Base.{ℕ, suc, ◌+◌, ◌-◌, ◌^◌, ◌≤◌, ◌<◌, ◌≡◌, refl, ◌⊎◌, inl, inr, ◌∙◌, arith, lt_or_le}
use tsubasa.Base.Loop.{for_range}
use tsubasa.Base.Memory.{Memory}
use tsubasa.Bitpacking.Code.{
  Statement, load_init, load_or_shift, store_result, store_result_remainder, copy, increment_data,
  increment_result, after, lane, State, step,
}
use tsubasa.Bitpacking.Lanes.{LanesDone, for_range-LanesDone}
use tsubasa.Bitpacking.Packed.{Packed, Packed-take, Packed-store}
use tsubasa.Bitpacking.Stream.{field-lt}
use tsubasa.Bitpacking.Shift.{or_shift_fits, or_shift_splits, shift_right-lt}

module _ (wordsize : ℕ) (input : Memory) where
  -- A loop whose body leaves `result` alone writes nothing.
  unstored :
      (c : Statement) (s t : State) (lanes : ℕ)
      → ((i : ℕ) → (after wordsize input c s i).stored ≡ s.result (s.result_at + i))
      → LanesDone wordsize input c s lanes t
      → (a : ℕ) → t.result a ≡ s.result a
  unstored c s t lanes keeps d a = elim (outside_or_lane a) [
    | inl out ↦ d.result_apart a out
    | inr (i, h, e) ↦ rw e (d.stored_done i h ∙ keeps i)
  ]
    where
      outside_or_lane :
          (a : ℕ)
          → ((a < s.result_at) ⊎ (s.result_at + lanes ≤ a))
            ⊎ ((i : ℕ) × (i < lanes) × (a ≡ s.result_at + i))
      outside_or_lane a = elim (lt_or_le a s.result_at) [
        | inl low ↦ inl (inl low)
        | inr ge ↦ elim (lt_or_le a (s.result_at + lanes)) [
          | inl inside ↦ inr (a - s.result_at, omega arith, omega arith)
          | inr high ↦ inl (inr high)
        ]
      ]

module _ (wordsize bitwidth lanes : ℕ) (input start : Memory)
    (data_start result_start taken stored : ℕ) (s : State)
    (small : (i : ℕ) → i < lanes → input (s.data_at + i) < 2 ^ bitwidth) where
  abbrev Before : ℕ → Memory → Type 0
  Before set_bits acc =
      Packed wordsize bitwidth lanes input start data_start result_start taken stored set_bits acc s

  abbrev Taken : ℕ → State → Type 0
  Taken set_bits t =
      Packed wordsize bitwidth lanes input start data_start result_start (suc taken) stored set_bits
        t.result_vector t

  abbrev Stored : ℕ → Memory → State → Type 0
  Stored set_bits acc t =
      Packed wordsize bitwidth lanes input start data_start result_start (suc taken) (suc stored)
        set_bits acc t

  abbrev run : Statement → State
  run c = step wordsize lanes input c s

  abbrev Done : Statement → State → Type 0
  Done c t = LanesDone wordsize input c s lanes t

  done : (c : Statement) → Done c (for_range lanes 0 (lane wordsize input c) s)
  done c = for_range-LanesDone wordsize input c lanes s

  abbrev next_data : State → State
  next_data t = step wordsize lanes input increment_data t

  abbrev next_word : State → State
  next_word t = step wordsize lanes input increment_result (next_data t)

  -- `load_init( ); increment_data( );` at the start of a word.
  pub Packed-load_init : Before 0 (λ _. 0) → Taken bitwidth (next_data (run load_init))
  unfolding step
  Packed-load_init p =
      let d = done load_init in
      let q : Taken (0 + bitwidth) (next_data (run load_init)) =
        Packed-take wordsize bitwidth lanes input start data_start result_start taken stored 0
          (λ _. 0) s p small _ _ (omega (arith, d.data_same)) d.result_same
          (unstored wordsize input load_init s _ lanes (λ i. refl) d)
          (λ i h. d.vector_done i h ∙ omega arith) in
      rw zero-add at q

  -- `load_OR_SHIFT( set_bits ); increment_data( );`.
  pub Packed-load_or_shift :
      (set_bits : ℕ)
      → set_bits + bitwidth ≤ wordsize
      → Before set_bits s.result_vector
      → Taken (set_bits + bitwidth) (next_data (run (load_or_shift set_bits)))
  unfolding step
  Packed-load_or_shift set_bits room p =
      let d = done (load_or_shift set_bits) in
      Packed-take wordsize bitwidth lanes input start data_start result_start taken stored set_bits
        s.result_vector s p small _ _ (omega (arith, d.data_same)) d.result_same
        (unstored wordsize input (load_or_shift set_bits) s _ lanes (λ i. refl) d)
        (λ i h.
          d.vector_done i h
          ∙ or_shift_fits wordsize set_bits bitwidth (s.result_vector i) (input (s.data_at + i))
              (p.fits i h) (small i h) room)

  -- `store_result( set_bits )` and both increments, where the value ends with the word.
  pub Packed-store_result :
      (set_bits : ℕ)
      → set_bits + bitwidth ≡ wordsize
      → Before set_bits s.result_vector
      → Stored 0 (λ _. 0) (next_word (run (store_result set_bits)))
  unfolding step
  Packed-store_result set_bits full p =
      let d = done (store_result set_bits) in
      let word = λ (i : ℕ) (h : i < lanes).
        d.stored_done i h
        ∙ or_shift_fits wordsize set_bits bitwidth (s.result_vector i) (input (s.data_at + i))
            (p.fits i h) (small i h) (omega arith) in
      Packed-store wordsize bitwidth lanes input start data_start result_start taken stored set_bits
        s.result_vector s p small (λ _. 0) _ 0 (omega arith) (omega (arith, d.data_same))
        (omega (arith, d.result_same)) d.result_apart
        (λ i h. rw (word i h, ← full) (field-lt _ _ bitwidth set_bits (p.fits i h) (small i h)))
        (λ i h. omega arith) (λ i h. omega (arith, word i h))

  -- `store_result_remainder( set_bits, wordsize - set_bits )` and both increments, where the
  -- word ends within the value.
  pub Packed-store_result_remainder :
      (set_bits r rest : ℕ)
      → set_bits + r ≡ wordsize
      → r + rest ≡ bitwidth
      → Before set_bits s.result_vector
      → Stored rest
          (next_word (run (store_result_remainder set_bits r))).result_vector
          (next_word (run (store_result_remainder set_bits r)))
  unfolding step
  Packed-store_result_remainder set_bits r rest ends over p =
      let d = done (store_result_remainder set_bits r) in
      let split = λ (i : ℕ) (h : i < lanes).
        or_shift_splits set_bits r (s.result_vector i) (input (s.data_at + i)) (p.fits i h) in
      Packed-store wordsize bitwidth lanes input start data_start result_start taken stored set_bits
        s.result_vector s p small _ _ rest (omega arith) (omega (arith, d.data_same))
        (omega (arith, d.result_same)) d.result_apart
        (λ i h. rw (d.stored_done i h, ← ends) (split i h).1)
        (λ i h. rw (d.vector_done i h) (shift_right-lt bitwidth r rest _ over (small i h)))
        (λ i h. rw (d.stored_done i h, d.vector_done i h, ← ends) (split i h).0)

  -- `copy( )` and both increments, where a value is as wide as a word.
  pub Packed-copy :
      bitwidth ≡ wordsize → Before 0 (λ _. 0) → Stored 0 (λ _. 0) (next_word (run copy))
  unfolding step
  Packed-copy full p =
      let d = done copy in
      Packed-store wordsize bitwidth lanes input start data_start result_start taken stored 0
        (λ _. 0) s p small (λ _. 0) _ 0 (omega arith) (omega (arith, d.data_same))
        (omega (arith, d.result_same)) d.result_apart
        (λ i h. rw (d.stored_done i h, ← full) (small i h)) (λ i h. omega arith)
        (λ i h. omega (arith, d.stored_done i h))
