-- ===== src/Tests/Threads.antt =====
-- The partition manager and the threads: runs of the code, and its theorems at concrete inputs.
use tsubasa.Base.{
  ℕ, zero, suc, ◌+◌, ◌%◌, ◌^◌, ◌≤◌, ◌<◌, ◌≡◌, refl, arith, Option, none, some, List, [], ◌∷◌, ◌⊎◌,
}
use tsubasa.Base.Memory.{Memory}
use tsubasa.BitWeaving.{Store}
use tsubasa.BitWeaving.Parallel.{turns, start_thread_with_pinning-written}
use tsubasa.BitWeaving.Threads.{
  Threads, Contexts, cmp_neq_par, start_thread_with_pinning, by_argument, make_contexts, run,
  thread_step,
}
use tsubasa.Threading.{get_chunk, get_chunk_with_size, get_chunk_base_addr}
use tsubasa.Threading.Partition.{divided, Covers, IsChunk, chunks_tile}
use tsubasa.Threading.Tiles.{share}

threads_program : Unit {0}
unfolding get_chunk get_chunk_with_size get_chunk_base_addr cmp_neq_par start_thread_with_pinning
    make_contexts run thread_step share turns
threads_program = tt

-- Seven elements among three threads.
last_chunk :
    (get_chunk 8 (divided 8 100 7 3) 1 ≡ some (102, 104))
    × (get_chunk 8 (divided 8 100 7 3) 2 ≡ some (104, 107))
unfolding threads_program
last_chunk = (refl, refl)

chunks_tile_example :
    ((t : ℕ) → t < 3 → IsChunk 8 (divided 8 100 7 3) 100 7 t)
    × ((x : ℕ)
        → x < 7
        → (t : ℕ) × (t < 3)
          × Covers 8 (divided 8 100 7 3) t (100 + x)
          × ((u : ℕ) → Covers 8 (divided 8 100 7 3) u (100 + x) → u ≡ t))
chunks_tile_example = chunks_tile 8 100 7 3 (omega arith) (omega arith)

-- Five words among two threads, which take turns.
abbrev small_store : Store
small_store = record {
  words = λ j. j + 10;
  data_count = 5;
  delimeter_bits_mask = 0;
  code_bits_mask = 0;
  first_bit_mask = 0;
  max_value = 0;
  code_count = 0;
}

abbrev alternating : List ℕ
alternating = 1 ∷ 0 ∷ 1 ∷ 0 ∷ 1 ∷ []

abbrev unset : Contexts
unset _ = record { predicate = 0; base_addr = 0; count = 0; result = 0 }

abbrev empty : Memory
empty _ = 0

enough_turns : (t : ℕ) → t < 2 → share 5 2 t ≤ turns t alternating
unfolding threads_program
enough_turns zero h = omega arith
enough_turns (suc zero) h = omega arith
enough_turns (suc (suc t)) h = absurd (omega arith)

start_thread_with_pinning-written_example :
    (end : Threads) × (start_thread_with_pinning 8 32 small_store 3 50 2
        (by_argument 8 32 small_store.words)
        unset
        alternating
        empty
      ≡ some end)
    × ((t : ℕ) → t < 2 → end.index t ≡ share 5 2 t)
    × ((x : ℕ) → x < 5 → end.memory (50 + x) ≡ (x + 10 + 3) % 2 ^ 32)
    × ((a : ℕ) → (a < 50) ⊎ (50 + 5 ≤ a) → end.memory a ≡ 0)
start_thread_with_pinning-written_example =
    start_thread_with_pinning-written 8 32 small_store 3 50 2 unset alternating empty (omega arith)
      (omega arith) enough_turns

-- A context that was left over: three words to 70, with another predicate.
abbrev left_over : Contexts
left_over _ = record { predicate = 9; base_addr = 1; count = 3; result = 70 }

abbrev memory_at : Option Threads → ℕ → ℕ
memory_at none a = 1000
memory_at (some s) a = s.memory a

-- The result array at 50 is not written.
stray_runs :
    let end = cmp_neq_par 8 32 left_over small_store 3 50 2 unset alternating empty in
    (memory_at end 50 ≡ 0) × (memory_at end 70 ≡ 20)
unfolding threads_program
stray_runs = (refl, refl)
