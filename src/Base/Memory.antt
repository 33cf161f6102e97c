-- ===== src/Base/Memory.antt =====
-- Memory as a function from addresses (counted in words) to words, and a write of one word.
use tsubasa.Base.{ℕ, ◌≡◌, ◌≢◌, arith, ◌==◌, if◌then◌else◌}

abbrev pub Memory : Type 0
Memory = ℕ → ℕ

abbrev pub write : Memory → ℕ → ℕ → Memory
write m a v x = if x == a then v else m x

pub write_self : (m : Memory) (a v : ℕ) → write m a v a ≡ v
write_self m a v = ground arith

pub write_ne : (m : Memory) (a v x : ℕ) → x ≢ a → write m a v x ≡ m x
write_ne m a v x ne = ground arith
