-- ===== src/BitWeaving/Threads.antt =====
-- `start_thread_with_pinning`, `cmp_neq_seq_par` and `cmp_neq_par`: each thread runs the loop of a
-- method, and a schedule says which thread takes the next round.
use tsubasa.Base.{
  ℕ, zero, suc, ◌+◌, ◌%◌, ◌^◌, List, [], ◌∷◌, Option, some, none, ltb, ◌==◌, if◌then◌else◌,
}
use tsubasa.Base.Memory.{Memory, write}
use tsubasa.BitWeaving.{Store}
use tsubasa.Threading.{
  PartitionManager, construct, set_base_addr, set_thread_count, get_chunk_with_size,
  get_chunk_base_addr,
}

-- The array `contexts`; `base_addr` is counted from `data`.
pub record Context : Type 0 where
  pub predicate : ℕ
  pub base_addr : ℕ
  pub count : ℕ
  pub result : ℕ

abbrev pub Contexts : Type 0
Contexts = ℕ → Context

-- The local variable `i` of each thread, and the memory that they share.
pub record Threads : Type 0 where
  pub index : ℕ → ℕ
  pub memory : Memory

module _ (max_threads width : ℕ) where
  -- The first loop of `start_thread_with_pinning`; `none` is a failed assertion.
  unfoldable pub make_contexts :
      ℕ → PartitionManager → PartitionManager → ℕ → ℕ → Contexts → Option Contexts
  make_contexts pred on_data on_result zero i contexts = some contexts
  make_contexts pred on_data on_result (suc rounds) i contexts =
      elim (get_chunk_with_size max_threads on_data i) [
        | none ↦ none
        | some chunk ↦ elim (get_chunk_base_addr max_threads on_result i) [
          | none ↦ none
          | some res ↦ make_contexts pred on_data on_result rounds (i + 1) (λ t.
              if t == i
              then (record { predicate = pred; base_addr = chunk.0; count = chunk.1; result = res })
              else contexts t)
        ]
      ]

  -- One round of the loop in `cmp_neq_seq_par` in thread `t`, or nothing if its loop has ended;
  -- `ctx` is what `ctx_` points to there.
  unfoldable pub thread_step : Memory → Context → ℕ → Threads → Threads
  thread_step words ctx t s =
      let i = s.index t in
      if ltb i ctx.count
      then (record {
        index = λ u. if u == t then i + 1 else s.index u;
        memory =
            write s.memory (ctx.result + i)
              ((words (ctx.base_addr + i) + ctx.predicate) % 2 ^ width);
      })
      else s

  -- The threads below `numthreads` are created; `method t` is one round of what thread `t` does.
  unfoldable pub run : (ℕ → Threads → Threads) → ℕ → List ℕ → Threads → Threads
  run method numthreads [] s = s
  run method numthreads (t ∷ ts) s =
      run method numthreads ts (if ltb t numthreads then method t s else s)

  -- `method contexts t` is one round of the function that is called with `&contexts[ t ]`;
  -- `contexts` are the values before the first loop.
  unfoldable pub start_thread_with_pinning :
      Store
      → ℕ
      → ℕ
      → ℕ
      → (Contexts → ℕ → Threads → Threads)
      → Contexts
      → List ℕ
      → Memory
      → Option Threads
  start_thread_with_pinning s pred result numthreads method contexts schedule memory =
      elim (make_contexts pred (set_thread_count numthreads (construct max_threads 0 s.data_count))
        (set_thread_count numthreads (set_base_addr result (construct max_threads 0 s.data_count)))
        numthreads 0 contexts) [
          | none ↦ none
          | some started ↦ some (
              run (method started) numthreads schedule (record { index = λ _. 0; memory = memory }))
        ]

  -- `cmp_neq_seq_par` as a function that receives its argument in `ctx_`.
  abbrev pub by_argument : Memory → Contexts → ℕ → Threads → Threads
  by_argument words contexts t = thread_step words (contexts t) t

  -- `cmp_neq_par` passes a pointer to the member function as one to a function. To call it so is
  -- undefined; where the call goes through, its one argument arrives as `this`, which the body does
  -- not use, and `ctx_` is whatever stands in the place of a second argument. `stray t` is what that
  -- points to in thread `t`, if it points to a context of this array at all.
  unfoldable pub cmp_neq_par :
      Contexts → Store → ℕ → ℕ → ℕ → Contexts → List ℕ → Memory → Option Threads
  cmp_neq_par stray s pred result numthreads contexts schedule memory =
      start_thread_with_pinning s pred result numthreads
        (λ contexts t. thread_step s.words (stray t) t) contexts schedule memory
