-- ===== src/HashSet.antt =====
-- src/main/datastructures/set/hash_set.h: `const_sized_basic_histogramm`, an open-addressing table
-- that counts keys. The containers are functions from indices; every index is reduced modulo
-- `container_size`.
pub mod Scan
pub mod Total
pub mod Invariant
pub mod Placed
pub mod Insert
pub mod Build
pub mod Counts
pub mod Probe
pub mod Batch
use tsubasa.Base.{
  ℕ, zero, suc, ◌+◌, ◌-◌, ◌*◌, ◌/◌, ◌%◌, ◌^◌, Bool, true, false, ltb, ◌==◌, if◌then◌else◌, ◌&&◌,
  ◌||◌,
}
use tsubasa.Base.Loop.{for_range}
use tsubasa.Base.Memory.{Memory, write}

pub record Histogram : Type 0 where
  pub element_count : ℕ
  pub container_size : ℕ
  pub container_infinity_value : ℕ
  pub container_distinct_count : ℕ
  pub key_container : Memory
  pub key_count_container : Memory

-- What the probe for an array of keys returns and writes.
pub record Probed : Type 0 where
  pub probe_result : Memory
  pub probe_result_count : Memory
  pub result_position : ℕ

-- `for( ; offset < first + rounds; ++offset ) if( test( offset ) ) break;`: the offset at the end.
unfoldable pub first_index : (ℕ → Bool) → ℕ → ℕ → ℕ
first_index test zero offset = offset
first_index test (suc rounds) offset = elim (test offset) [
  | true ↦ offset
  | false ↦ first_index test rounds (offset + 1)
]

-- `width` is the count of bits of T.
module _ (width : ℕ) where
  -- The constructor; the products and sums are of type T.
  unfoldable pub construct : ℕ → ℕ → Histogram
  construct count load_factor =
      let size = count * 100 % 2 ^ width / load_factor in
      record {
        element_count = count;
        container_size = size;
        container_infinity_value = (size + 1) % 2 ^ width;
        container_distinct_count = 0;
        key_container = λ _. 0;
        key_count_container = λ _. 0;
      }

  module _ (hash_fn : ℕ → ℕ) where
    -- `( hashed_position + offset ) % container_size`, added up in T.
    abbrev pub slot : Histogram → ℕ → ℕ → ℕ
    slot s key offset = (hash_fn key + offset) % 2 ^ width % s.container_size

    -- The loop over `offset_zero`.
    unfoldable pub offset_zero : Histogram → ℕ → ℕ
    offset_zero s key = first_index (λ o. s.key_container (slot s key o) == 0) s.container_size 0

    -- `idx_zero` after that loop: the slot looked at last.
    unfoldable pub idx_zero : Histogram → ℕ → ℕ
    idx_zero s key =
        let z = offset_zero s key in
        slot s key (if ltb z s.container_size then z else s.container_size - 1)

    -- The loop over `offset_equal`; `found` is that it ends before `offset_zero`.
    unfoldable pub offset_equal : Histogram → ℕ → ℕ
    offset_equal s key =
        first_index (λ o. s.key_container (slot s key o) == key) (offset_zero s key) 0

    -- `key_count_container[ idx ]++`.
    abbrev pub bump : Memory → ℕ → Memory
    bump counts idx = write counts idx ((counts idx + 1) % 2 ^ 64)

    -- The body of the loop over the keys.
    unfoldable pub insert : Histogram → ℕ → Histogram
    insert s key =
        if ltb (offset_equal s key) (offset_zero s key)
        then (record s {
          key_count_container = bump s.key_count_container (slot s key (offset_equal s key));
        })
        else (record s {
          container_distinct_count = s.container_distinct_count + 1;
          key_container = write s.key_container (idx_zero s key) key;
          key_count_container = bump s.key_count_container (idx_zero s key);
        })

    unfoldable pub build_scalar_elem : (ℕ → ℕ) → Histogram → Histogram
    build_scalar_elem keys s = for_range s.element_count 0 (λ i t. insert t (keys i)) s

    -- The same loops, without the pragmas.
    unfoldable pub build_vectorized_elem : (ℕ → ℕ) → Histogram → Histogram
    build_vectorized_elem keys s = for_range s.element_count 0 (λ i t. insert t (keys i)) s

    -- The slots that `probe` looks at: there the sum is of type size_t.
    abbrev pub probe_slot : Histogram → ℕ → ℕ → ℕ
    probe_slot s key offset = (hash_fn key + offset) % 2 ^ 64 % s.container_size

    unfoldable pub probe : Histogram → ℕ → ℕ
    probe s key =
        let o = first_index (λ o. s.key_container (probe_slot s key o) == key) s.container_size 0 in
        if ltb o s.container_size then probe_slot s key o else s.container_infinity_value

    -- One round of the other `probe`; the count is stored in a T, and the position is increased
    -- twice.
    unfoldable pub probe_key : Histogram → ℕ → Probed → Probed
    probe_key s key t =
        let o = first_index (λ o. s.key_container (probe_slot s key o) == key) s.container_size 0 in
        if ltb o s.container_size
        then (record {
          probe_result = write t.probe_result t.result_position key;
          probe_result_count =
              write t.probe_result_count t.result_position
                (s.key_count_container (probe_slot s key o) % 2 ^ width);
          result_position = t.result_position + 1 + 1;
        })
        else t

    -- The other `probe`, for `probe_keys_count` keys.
    unfoldable pub probe_keys : Histogram → (ℕ → ℕ) → ℕ → Memory → Memory → Probed
    probe_keys s keys probe_keys_count probe_result probe_result_count =
        for_range probe_keys_count 0 (λ i. probe_key s (keys i))
          (record {
            probe_result = probe_result;
            probe_result_count = probe_result_count;
            result_position = 0;
          })

    -- `get_count( key )`.
    unfoldable pub get_count_of : Histogram → ℕ → ℕ
    get_count_of s key =
        let position = probe s key in
        if ltb position s.container_infinity_value then s.key_count_container position else 0

  -- `probe_count_vectorized`, with the hash that it writes out: it stops at the key or at a slot
  -- that is free.
  unfoldable pub probe_count : (ℕ → ℕ) → Histogram → ℕ → ℕ
  probe_count inline s key =
      let at = probe_slot inline s key in
      let o =
        first_index (λ o. s.key_container (at o) == key || s.key_container (at o) == 0)
          s.container_size 0 in
      if ltb o s.container_size && (s.key_container (at o) == key)
      then s.key_count_container (at o)
      else 0

-- `get_count( )` and `key_count( )`.
unfoldable pub get_count : Histogram → ℕ
get_count s = for_range s.container_size 0 (λ i sum. (sum + s.key_count_container i) % 2 ^ 64) 0

unfoldable pub key_count : Histogram → ℕ
key_count s =
    for_range s.container_size 0 (λ i sum. if s.key_container i == 0 then sum else sum + 1) 0
