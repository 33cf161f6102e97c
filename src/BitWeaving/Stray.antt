-- ===== src/BitWeaving/Stray.antt =====
-- What `cmp_neq_par` leaves as it is written: its threads do not receive their contexts.
use tsubasa.Base.{ℕ, ◌+◌, ◌≤◌, ◌<◌, ◌⊎◌}
use tsubasa.Base.Memory.{Memory}
use tsubasa.BitWeaving.Threads.{Context, Threads}

-- The word is not in the result that the context names.
abbrev pub IsOutside : Context → ℕ → Type 0
IsOutside ctx a = (a < ctx.result) ⊎ (ctx.result + ctx.count ≤ a)
