-- ===== src/Base/Loop.antt =====
-- Counted loops: `for (k = first; k < first + rounds; ++k) state = body k state`.
use tsubasa.Base.{ℕ, zero, suc, ◌+◌, ◌<◌, ◌≤◌, ◌≡◌, arith}

unfoldable pub for_range {ℓ} : {S : Type ℓ} → ℕ → ℕ → (ℕ → S → S) → S → S
for_range zero first body state = state
for_range (suc rounds) first body state = for_range rounds (first + 1) body (body first state)

-- An invariant that each round carries from its index to the next holds at the end.
pub for_range_inv {ℓ κ} :
    {S : Type ℓ} (P : ℕ → S → Type κ) (body : ℕ → S → S) (rounds first last : ℕ)
    → first + rounds ≡ last
    → ((k : ℕ) (s : S) → first ≤ k → k < last → P k s → P (k + 1) (body k s))
    → (state : S) → P first state
    → P last (for_range rounds first body state)
unfolding for_range
for_range_inv P body zero first last e keep state h =
    let same : first ≡ last = omega arith in rw (← same) h
for_range_inv P body (suc rounds) first last e keep state h =
    for_range_inv P body rounds (first + 1) last (omega arith)
      (λ k s lo hi. keep k s (omega arith) hi) (body first state)
      (keep first state (omega arith) (omega arith) h)
