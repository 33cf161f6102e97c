-- ===== src/BitWeaving/Parallel.antt =====
-- Whatever the order of the threads, the parallel loop writes every word of the result, if each
-- thread receives its context.
use native.Mathlib.Nat.{zero-add}
use tsubasa.Base.{
  ℕ, zero, suc, ◌+◌, ◌-◌, ◌*◌, ◌/◌, ◌%◌, ◌^◌, ◌≤◌, ◌<◌, ◌≡◌, ◌≢◌, ◌∙◌, refl, sym, ap, arith, List,
  [], ◌∷◌, some, ◌==◌, if◌then◌else◌, ◌⊎◌, inl, inr, lt_or_le, eq_or_ne, lt→ltb, le→ltb, Bool-cases,
  ==_iff,
}
use tsubasa.Base.Memory.{Memory, write_ne}
use tsubasa.BitWeaving.{Store}
use tsubasa.BitWeaving.Threads.{
  Context, Contexts, Threads, make_contexts, thread_step, run, start_thread_with_pinning,
  by_argument,
}
use tsubasa.Threading.{PartitionManager, construct, set_base_addr, set_thread_count}
use tsubasa.Threading.Tiles.{
  Divides, share, share_inside, share-found, get_chunk_with_size-share, get_chunk_base_addr-share,
}

-- How often thread `t` takes a round.
unfoldable pub turns : ℕ → List ℕ → ℕ
turns t [] = 0
turns t (u ∷ us) = (if u == t then 1 else 0) + turns t us

abbrev pub chunk_context : ℕ → ℕ → ℕ → ℕ → ℕ → Context
chunk_context size n pred result t = record {
  predicate = pred;
  base_addr = t * (size / n);
  count = share size n t;
  result = result + t * (size / n);
}

-- The context of each thread is its chunk.
pub record Started (size n pred result : ℕ) (contexts : Contexts) (i : ℕ) : Type 0 where
  pub chunk : (t : ℕ) → t < i → contexts t ≡ chunk_context size n pred result t

if_eq {ℓ} : {A : Type ℓ} (t i : ℕ) (x y : A) → t ≡ i → (if t == i then x else y) ≡ x
if_eq t i x y e = rw ((==_iff t i).1 e) refl

if_ne {ℓ} : {A : Type ℓ} (t i : ℕ) (x y : A) → t ≢ i → (if t == i then x else y) ≡ y
if_ne t i x y ne = elim (Bool-cases (t == i)) [
  | inl hit ↦ absurd (ne ((==_iff t i).0 hit))
  | inr miss ↦ rw miss refl
]

module _ (max_threads width size n pred result : ℕ) (most : n ≤ max_threads) where
  make_contexts-Started :
      (on_data on_result : PartitionManager)
      → Divides 0 size n on_data
      → Divides result size n on_result
      → (rounds i : ℕ) → i + rounds ≡ n
      → (contexts : Contexts) → Started size n pred result contexts i
      → (c : Contexts) × (make_contexts max_threads width pred on_data on_result rounds i contexts
          ≡ some c)
        × Started size n pred result c n
  unfolding make_contexts
  make_contexts-Started on_data on_result p q zero i e contexts s =
      (contexts, refl, record { chunk = λ t h. s.chunk t (omega arith) })
  make_contexts-Started on_data on_result p q (suc rounds) i e contexts s =
      rw
        (
          get_chunk_with_size-share {max_threads = max_threads} p i (omega arith) most,
          get_chunk_base_addr-share {max_threads = max_threads} q i (omega arith) most,
          make_contexts,
        )
        (make_contexts-Started on_data on_result p q rounds (i + 1) (omega arith) _ (record {
          chunk = λ t h. elim (eq_or_ne t i) [
            | inl e ↦
                if_eq t i _ _ e
                ∙ ap
                    (λ (b : ℕ). record {
                      predicate = pred;
                      base_addr = b;
                      count = share size n i;
                      result = result + i * (size / n);
                    })
                    (zero-add _)
                ∙ ap (chunk_context size n pred result) (sym e)
            | inr ne ↦ if_ne t i _ _ ne ∙ s.chunk t (omega (arith, h, ne))
          ];
        }))

  module _ (words before : Memory) where
    -- What holds of the threads and their memory after a schedule.
    record Progress (schedule_turns : ℕ → ℕ) (s : Threads) : Type 0 where
      bounded : (t : ℕ) → t < n → s.index t ≤ share size n t
      fair : (t : ℕ) → t < n → (s.index t ≡ share size n t) ⊎ (schedule_turns t ≤ s.index t)
      written :
          (t i : ℕ)
          → t < n
          → i < s.index t
          → s.memory (result + (t * (size / n) + i))
            ≡ (words (t * (size / n) + i) + pred) % 2 ^ width
      kept : (a : ℕ) → (a < result) ⊎ (result + size ≤ a) → s.memory a ≡ before a

    module _ (contexts : Contexts) (started : Started size n pred result contexts n) where
      thread_step-Progress :
          (u : ℕ)
          → u < n
          → (g : ℕ → ℕ) (s : Threads) → Progress g s
          → Progress
              (λ t. (if u == t then 1 else 0) + g t)
              (thread_step max_threads width words (contexts u) u s)
      unfolding thread_step
      thread_step-Progress u below g s p =
          rw (started.chunk u below) (elim (lt_or_le (s.index u) (share size n u)) [
            | inl more ↦ rw (lt→ltb _ _ more) (record {
              bounded = λ t h. elim (eq_or_ne t u) [
                | inl e ↦ ground (arith, e, more, ap (share size n) e)
                | inr ne ↦ ground (arith, ne, p.bounded t h)
              ];
              fair = λ t h. elim (eq_or_ne t u) [
                | inl e ↦ elim (p.fair t h) [
                  | inl all ↦ absurd (omega (arith, all, more, ap s.index e, ap (share size n) e))
                  | inr some_left ↦ inr (ground (arith, e, some_left, ap s.index e))
                ]
                | inr ne ↦ elim (p.fair t h) [
                  | inl all ↦ inl (ground (arith, ne, all))
                  | inr some_left ↦ inr (ground (arith, ne, some_left))
                ]
              ];
              written = λ t i h before_end.
                  elim (eq_or_ne (t * (size / n) + i) (u * (size / n) + s.index u)) [
                    | inl e ↦ rw e (ground arith)
                    | inr ne ↦ elim (eq_or_ne t u) [
                      | inl here ↦
                          write_ne s.memory _ _ (result + (t * (size / n) + i)) (omega (arith, ne))
                          ∙ p.written t i h (last_round t i here ne before_end)
                      | inr there ↦
                          write_ne s.memory _ _ (result + (t * (size / n) + i)) (omega (arith, ne))
                          ∙ p.written t i h (ground (arith, there, before_end))
                    ]
                  ];
              kept = λ a out. write_ne s.memory _ _ a (outside more a out) ∙ p.kept a out;
            })
            | inr ended ↦ rw (le→ltb _ _ ended) (record {
              bounded = p.bounded;
              fair = λ t h. elim (eq_or_ne t u) [
                | inl e ↦
                    inl (omega (arith, ended, p.bounded t h, ap s.index e, ap (share size n) e))
                | inr ne ↦ elim (p.fair t h) [
                  | inl all ↦ inl all
                  | inr some_left ↦ inr (ground (arith, ne, some_left))
                ]
              ];
              written = p.written;
              kept = p.kept;
            })
          ])
        where
          last_round :
              (t i : ℕ)
              → t ≡ u
              → t * (size / n) + i ≢ u * (size / n) + s.index u
              → i < (if t == u then s.index u + 1 else s.index t)
              → i < s.index t
          last_round t i here ne before_end =
              ground
                (arith, here, ne, before_end, ap s.index here, ap (λ (x : ℕ). x * (size / n)) here)

          outside :
              s.index u < share size n u
              → (a : ℕ) → (a < result) ⊎ (result + size ≤ a)
              → a ≢ result + u * (size / n) + s.index u
          outside more a (inl under) = omega (arith, under)
          outside more a (inr over) = omega (arith, over, more, share_inside size n u below)

      Progress-fewer :
          (g h : ℕ → ℕ) (s : Threads) → ((t : ℕ) → t < n → h t ≤ g t) → Progress g s → Progress h s
      Progress-fewer g h s less p = record {
        bounded = p.bounded;
        fair = λ t below. elim (p.fair t below) [
          | inl all ↦ inl all
          | inr some_left ↦ inr (omega (arith, some_left, less t below))
        ];
        written = p.written;
        kept = p.kept;
      }

      -- A schedule after turns that were taken already.
      run-Progress :
          (ts : List ℕ) (g : ℕ → ℕ) (s : Threads)
          → Progress g s
          → Progress
              (λ t. turns t ts + g t)
              (run max_threads width (by_argument max_threads width words contexts) n ts s)
      unfolding run turns
      run-Progress [] g s p = Progress-fewer g _ s (λ t h. omega arith) p
      run-Progress (u ∷ us) g s p = elim (lt_or_le u n) [
        | inl real ↦ rw (lt→ltb u n real) (
            Progress-fewer _ _ _ (λ t h. omega arith)
              (run-Progress us _ _ (thread_step-Progress u real g s p)))
        | inr unreal ↦
            rw (le→ltb u n unreal)
              (Progress-fewer _ _ _ (λ t h. ground (arith, unreal, h)) (run-Progress us g s p))
      ]

-- The loop that fills `contexts`, after both partition managers were given the number of threads.
pub contexts_made :
    (max_threads width size pred result n : ℕ) (contexts : Contexts)
    → n ≤ max_threads
    → (c : Contexts) × (make_contexts max_threads width pred
          (set_thread_count n (construct max_threads 0 size))
          (set_thread_count n (set_base_addr result (construct max_threads 0 size)))
          n
          0
          contexts
        ≡ some c)
      × Started size n pred result c n
contexts_made max_threads width size pred result n contexts most =
    make_contexts-Started max_threads width size n pred result most
      (set_thread_count n (construct max_threads 0 size))
      (set_thread_count n (set_base_addr result (construct max_threads 0 size)))
      (record { base_addr = refl; num_threads = refl; chunk_size = refl; residual = refl })
      (record { base_addr = refl; num_threads = refl; chunk_size = refl; residual = refl }) n 0
      (omega arith) contexts (record { chunk = λ t h. absurd (omega arith) })

module _ (max_threads width : ℕ) (s : Store) (pred result n : ℕ) (contexts : Contexts)
    (schedule : List ℕ) (memory : Memory) where
  -- `start_thread_with_pinning` with a number of threads from 1 to MAX_THREAD_COUNT fails no
  -- assertion. If the method is the body of `cmp_neq_seq_par` and receives its context in `ctx_`,
  -- which is not how `cmp_neq_par` calls it, then, whatever the order in which the threads run, once
  -- each has had a turn for every word of its chunk, each has ended its loop, every word of the
  -- result is the word of the store plus the predicate (which is what the body stores, and not a
  -- comparison), and no other memory has changed.
  pub start_thread_with_pinning-written :
      0 < n
      → n ≤ max_threads
      → ((t : ℕ) → t < n → share s.data_count n t ≤ turns t schedule)
      → (end : Threads) × (start_thread_with_pinning max_threads width s pred result n
            (by_argument max_threads width s.words)
            contexts
            schedule
            memory
          ≡ some end)
        × ((t : ℕ) → t < n → end.index t ≡ share s.data_count n t)
        × ((x : ℕ) → x < s.data_count → end.memory (result + x) ≡ (s.words x + pred) % 2 ^ width)
        × ((a : ℕ) → (a < result) ⊎ (result + s.data_count ≤ a) → end.memory a ≡ memory a)
  unfolding start_thread_with_pinning
  start_thread_with_pinning-written pos most enough =
      let (c, made, started) =
        contexts_made max_threads width s.data_count pred result n contexts most in
      let end =
        run max_threads width (by_argument max_threads width s.words c) n schedule
          (record { index = λ _. 0; memory = memory }) in
      let progress =
        run-Progress max_threads width s.data_count n pred result most s.words memory c started
          schedule (λ _. 0) (record { index = λ _. 0; memory = memory })
          (record {
            bounded = λ t h. omega arith;
            fair = λ t h. inr (omega arith);
            written = λ t i h none_yet. absurd (omega arith);
            kept = λ a out. refl;
          }) in
      let ended : (t : ℕ) → t < n → end.index t ≡ share s.data_count n t = λ t h.
        elim (progress.fair t h) [
          | inl all ↦ all
          | inr turns_taken ↦ omega (arith, turns_taken, enough t h, progress.bounded t h)
        ] in
      (
        end,
        rw (made, start_thread_with_pinning) refl,
        ended,
        λ x h.
            let (t, below, low, high) = share-found s.data_count n x h pos in
            let offset : t * (s.data_count / n) + (x - t * (s.data_count / n)) ≡ x =
              omega (arith, low) in
            ap (λ (y : ℕ). end.memory (result + y)) (sym offset)
            ∙ progress.written t (x - t * (s.data_count / n)) below
                (omega (arith, low, high, ended t below))
            ∙ ap (λ (y : ℕ). (s.words y + pred) % 2 ^ width) offset,
        progress.kept,
      )
