-- ===== src/Tests/HashSet.antt =====
-- The hash table: runs of the code, and its theorems at concrete inputs.
use tsubasa.Base.{
  ℕ, zero, suc, ◌+◌, ◌^◌, ◌≤◌, ◌<◌, ◌≡◌, ◌≢◌, none, some, refl, arith, ltb, if◌then◌else◌,
}
use tsubasa.Base.Loop.{for_range}
use tsubasa.Hash.Murmur3.{murmur3, inline_hash, batch_hash, inline_hash-murmur3}
use tsubasa.HashSet.{
  Histogram, construct, build_scalar_elem, get_count_of, probe_count, insert, first_index,
  offset_zero, offset_equal, idx_zero, probe, get_count, key_count, probe_key, probe_keys,
}
use tsubasa.HashSet.Batch.{
  gather, scatter, tally, round, processable_elements, whole_rounds, last_rounds,
  build_scalar_batch, build_vectorized_batch,
}
use tsubasa.HashSet.Batch.Answers.{build_scalar_batch-counts}
use tsubasa.HashSet.Counts.{table, counts-construct, key_count-construct, get_count-construct}
use tsubasa.HashSet.Invariant.{occurrences}
use tsubasa.HashSet.Probe.{Answered, probe_keys-construct}
use tsubasa.HashSet.Scan.{taken}

-- Six keys: 7 three times, 8 twice and 9 once.
abbrev sample_keys : ℕ → ℕ
sample_keys i = if ltb i 3 then 7 else if ltb i 5 then 8 else 9

hash_program : Unit {0}
unfolding murmur3 inline_hash batch_hash construct build_scalar_elem get_count_of probe_count insert
    first_index offset_zero offset_equal idx_zero probe get_count key_count probe_key probe_keys
    for_range occurrences
hash_program = tt

abbrev blank : ℕ → ℕ
blank a = 0

abbrev sample_table : Histogram
sample_table = table 32 (murmur3 0) (inline_hash 32) sample_keys 6 50

sample_counts :
    (get_count_of 32 (murmur3 0) sample_table 7 ≡ 3)
    × (get_count sample_table ≡ 6)
    × (key_count sample_table ≡ 3)
    × (murmur3 0 7 ≡ 1343918321)
unfolding hash_program
sample_counts = (refl, refl, refl, refl)

sample_keys_good : (i : ℕ) → i < 6 → (sample_keys i ≢ 0) × (murmur3 0 (sample_keys i) + 12 ≤ 2 ^ 32)
unfolding hash_program
sample_keys_good zero h = (omega arith, omega arith)
sample_keys_good (suc zero) h = (omega arith, omega arith)
sample_keys_good (suc (suc zero)) h = (omega arith, omega arith)
sample_keys_good (suc (suc (suc zero))) h = (omega arith, omega arith)
sample_keys_good (suc (suc (suc (suc zero)))) h = (omega arith, omega arith)
sample_keys_good (suc (suc (suc (suc (suc zero))))) h = (omega arith, omega arith)
sample_keys_good (suc (suc (suc (suc (suc (suc i)))))) h = absurd (omega arith)

seven_hashed : murmur3 0 7 + 12 ≤ 2 ^ 64
unfolding hash_program
seven_hashed = omega arith

inline_hash-murmur3_example : (inline_hash 32 7 ≡ murmur3 0 7) × (batch_hash 32 7 ≡ murmur3 0 7)
inline_hash-murmur3_example = inline_hash-murmur3 7 (omega arith)

counts-construct_example :
    (get_count_of 32 (murmur3 0) sample_table 7 ≡ occurrences sample_keys 7 6)
    × (probe_count 32 (inline_hash 32) sample_table 7 ≡ occurrences sample_keys 7 6)
    × (sample_table.container_distinct_count ≡ taken sample_table.key_container 12)
counts-construct_example =
    counts-construct 32 (murmur3 0) (inline_hash 32) sample_keys 6 50 7 (omega arith) (omega arith)
      (omega arith) (omega arith) sample_keys_good (omega arith) seven_hashed
      (inline_hash-murmur3 7 (omega arith)).0

-- On 64-bit keys the copy is another function: a table that is built with `hash_fn` is then
-- probed at other slots, and a key that is there is not counted.
inline_differs : inline_hash 64 7 ≢ murmur3 0 7
unfolding hash_program
inline_differs = omega arith

missed_count :
    (get_count_of 64 (murmur3 0) (table 64 (murmur3 0) (inline_hash 64) sample_keys 6 50) 7 ≡ 3)
    × (probe_count 64 (inline_hash 64) (table 64 (murmur3 0) (inline_hash 64) sample_keys 6 50) 7
        ≡ 0)
unfolding hash_program
missed_count = (refl, refl)

key_count-construct_example : key_count sample_table ≡ sample_table.container_distinct_count
key_count-construct_example =
    key_count-construct 32 (murmur3 0) (inline_hash 32) sample_keys 6 50 (omega arith) (omega arith)
      (omega arith) (omega arith) sample_keys_good

get_count-construct_example : get_count sample_table ≡ 6
get_count-construct_example =
    get_count-construct 32 (murmur3 0) (inline_hash 32) sample_keys 6 50 (omega arith) (omega arith)
      (omega arith) (omega arith) sample_keys_good

-- 9, which is there once, 5, which is not there, and 7, which is there three times.
abbrev sample_probes : ℕ → ℕ
sample_probes i = if ltb i 1 then 9 else if ltb i 2 then 5 else 7

sample_probes_good :
    (i : ℕ) → i < 3 → (sample_probes i ≢ 0) × (murmur3 0 (sample_probes i) + 12 ≤ 2 ^ 64)
unfolding hash_program
sample_probes_good zero h = (omega arith, omega arith)
sample_probes_good (suc zero) h = (omega arith, omega arith)
sample_probes_good (suc (suc zero)) h = (omega arith, omega arith)
sample_probes_good (suc (suc (suc i))) h = absurd (omega arith)

-- Two keys are found, and the number that is returned is four.
probe_runs :
    let t = probe_keys 32 (murmur3 0) sample_table sample_probes 3 blank blank in
    (t.result_position ≡ 4)
    × (t.probe_result 0 ≡ 9)
    × (t.probe_result 1 ≡ 0)
    × (t.probe_result 2 ≡ 7)
    × (t.probe_result_count 2 ≡ 3)
unfolding hash_program
probe_runs = (refl, refl, refl, refl, refl)

probe_keys-construct_example :
    Answered sample_keys 6 sample_probes blank blank 3
      (probe_keys 32 (murmur3 0) sample_table sample_probes 3 blank blank)
probe_keys-construct_example =
    probe_keys-construct 32 (murmur3 0) (inline_hash 32) sample_keys 6 50 (omega arith)
      (omega arith) (omega arith) (omega arith) sample_keys_good sample_probes 3 sample_probes_good
      blank blank

batch_program : Unit {0}
unfolding gather scatter tally round processable_elements whole_rounds last_rounds
    build_scalar_batch
batch_program = tt

-- The batch build with three keys in flight: the counts are right, but the counter of the slots in
-- use stays 0.
abbrev batch_table : Histogram
batch_table = elim (build_scalar_batch 32 (batch_hash 32) sample_keys 3 30 (construct 32 6 50)) [
  | none ↦ construct 32 0 1
  | some t ↦ t
]

batch_counts :
    (get_count_of 32 (murmur3 0) batch_table 7 ≡ 3)
    × (get_count_of 32 (murmur3 0) batch_table 8 ≡ 2)
    × (key_count batch_table ≡ 3)
    × (batch_table.container_distinct_count ≡ 0)
unfolding hash_program batch_program
batch_counts = (refl, refl, refl, refl)

sample_keys-lt : (i : ℕ) → sample_keys i < 2 ^ 32
sample_keys-lt i = ground arith

sample_hashes_same : (i : ℕ) → i < 6 → batch_hash 32 (sample_keys i) ≡ murmur3 0 (sample_keys i)
sample_hashes_same i h = (inline_hash-murmur3 (sample_keys i) (sample_keys-lt i)).1

build_scalar_batch-counts_example :
    (t : Histogram) × (build_scalar_batch 32 (batch_hash 32) sample_keys 3 73 (construct 32 6 50)
      ≡ some t)
    × (build_vectorized_batch 32 (batch_hash 32) sample_keys 3 73 (construct 32 6 50) ≡ some t)
    × (get_count_of 32 (murmur3 0) t 7 ≡ get_count_of 32 (murmur3 0) sample_table 7)
    × (get_count_of 32 (murmur3 0) t 7 ≡ occurrences sample_keys 7 6)
    × (probe_count 32 (inline_hash 32) t 7 ≡ occurrences sample_keys 7 6)
build_scalar_batch-counts_example =
    build_scalar_batch-counts 32 (murmur3 0) (batch_hash 32) (inline_hash 32) sample_keys 6 50 3
      (omega arith) (omega arith) (omega arith) (omega arith) sample_keys_good sample_hashes_same
      (omega arith) 7 (omega arith) seven_hashed (inline_hash-murmur3 7 (omega arith)).0 73
      (omega arith)
