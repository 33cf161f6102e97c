-- ===== src/Base/Modular.antt =====
-- Subtraction in an unsigned type, `(a + (m - b)) % m`, undone by addition.
use native.Mathlib.Nat.{add-mod-mod, mod-add-mod, add-mul-mod_self_left, mod-eq_of_lt}
use tsubasa.Base.{ℕ, ◌+◌, ◌-◌, ◌%◌, ◌≤◌, ◌<◌, ◌≡◌, ◌∙◌, ap, arith}

module _ (m : ℕ) where
  -- Adding the modulus changes nothing.
  pub add-modulus : (a : ℕ) → (a + m) % m ≡ a % m
  add-modulus a = ap (λ (t : ℕ). t % m) (omega arith) ∙ add-mul-mod_self_left a m 1

  pub add-difference : (x y : ℕ) → x ≤ m → y < m → (x + (y + (m - x)) % m) % m ≡ y
  add-difference x y p q =
      add-mod-mod x (y + (m - x)) m
      ∙ ap (λ (t : ℕ). t % m) (omega (arith, p))
      ∙ add-modulus y
      ∙ mod-eq_of_lt q

  pub difference-add : (x y : ℕ) → x ≤ m → y < m → ((y + (m - x)) % m + x) % m ≡ y
  difference-add x y p q =
      mod-add-mod (y + (m - x)) m x
      ∙ ap (λ (t : ℕ). t % m) (omega (arith, p))
      ∙ add-modulus y
      ∙ mod-eq_of_lt q

  -- Two differences in a row.
  pub difference-difference :
      (a b c : ℕ) → a ≤ m → b ≤ m → ((b + (m - a)) % m + (c + (m - b)) % m) % m ≡ (c + (m - a)) % m
  difference-difference a b c p q =
      mod-add-mod (b + (m - a)) m ((c + (m - b)) % m)
      ∙ add-mod-mod (b + (m - a)) (c + (m - b)) m
      ∙ ap (λ (t : ℕ). t % m) (omega (arith, p, q))
      ∙ add-modulus (c + (m - a))
