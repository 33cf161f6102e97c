-- ===== src/Threading.antt =====
-- src/main/utils/threading.h: `partition_manager_even_chunks`, which divides an array among threads.
-- Addresses are counted in elements of T. `max_threads` is MAX_THREAD_COUNT, and `none` a failed
-- assertion.
pub mod Tiles
pub mod Partition
use tsubasa.Base.{
  ℕ, ◌+◌, ◌-◌, ◌*◌, ◌/◌, ◌%◌, ltb, not, ◌==◌, ◌&&◌, if◌then◌else◌, Option, some, none,
}

pub record PartitionManager : Type 0 where
  pub base_addr : ℕ
  pub data_size : ℕ
  pub num_threads : ℕ
  pub chunk_size : ℕ
  pub residual : ℕ

abbrev pub set_base_addr : ℕ → PartitionManager → PartitionManager
set_base_addr b_addr m = record m { base_addr = b_addr }

abbrev pub set_thread_count : ℕ → PartitionManager → PartitionManager
set_thread_count count m = record m {
  num_threads = count;
  chunk_size = m.data_size / count;
  residual = m.data_size % count;
}

module _ (max_threads : ℕ) where
  -- The constructor.
  abbrev pub construct : ℕ → ℕ → PartitionManager
  construct b_addr size = record {
    base_addr = b_addr;
    data_size = size;
    num_threads = max_threads;
    chunk_size = size / max_threads;
    residual = size % max_threads;
  }

  -- The first address of a chunk and the one past its end.
  unfoldable pub get_chunk : PartitionManager → ℕ → Option (ℕ × ℕ)
  get_chunk m thread_id =
      let start = m.base_addr + thread_id * m.chunk_size in
      if ltb thread_id max_threads && ltb thread_id m.num_threads
      then (if (thread_id == m.num_threads - 1) && not (m.residual == 0)
          then some (start, start + m.chunk_size + m.residual)
          else some (start, start + m.chunk_size))
      else none

  unfoldable pub get_chunk_with_size : PartitionManager → ℕ → Option (ℕ × ℕ)
  get_chunk_with_size m thread_id =
      let start = m.base_addr + thread_id * m.chunk_size in
      if ltb thread_id max_threads && ltb thread_id m.num_threads
      then (if (thread_id == m.num_threads - 1) && not (m.residual == 0)
          then some (start, m.chunk_size + m.residual)
          else some (start, m.chunk_size))
      else none

  unfoldable pub get_chunk_base_addr : PartitionManager → ℕ → Option ℕ
  get_chunk_base_addr m thread_id =
      if ltb thread_id max_threads && ltb thread_id m.num_threads
      then some (m.base_addr + thread_id * m.chunk_size)
      else none
