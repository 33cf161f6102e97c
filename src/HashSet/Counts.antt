-- ===== src/HashSet/Counts.antt =====
-- From the constructor to the answers.
use native.Mathlib.Nat.{mul-le-mul_left, mod-eq_of_lt, div-le_self, le-div_iff_mul-le}
use tsubasa.Base.{ℕ, ◌+◌, ◌*◌, ◌/◌, ◌%◌, ◌^◌, ◌≤◌, ◌<◌, ◌≡◌, ◌≢◌, ◌∙◌, ap, refl, sym, arith}
use tsubasa.Base.Power.{two-pow-le}
use tsubasa.HashSet.{
  Histogram, construct, build_scalar_elem, get_count_of, probe_count, get_count, key_count,
}
use tsubasa.HashSet.Build.{IsEmpty, IsInput, counts-build, build-Holds}
use tsubasa.HashSet.Invariant.{occurrences}
use tsubasa.HashSet.Scan.{taken, key_count-taken}
use tsubasa.HashSet.Total.{total, get_count-total}

-- With a load factor of at most 100 percent there are at least as many slots as elements.
pub slots-le :
    (count load_factor : ℕ)
    → 0 < load_factor
    → load_factor ≤ 100
    → count ≤ count * 100 / load_factor
slots-le count load_factor pos most = (le-div_iff_mul-le pos).1 (mul-le-mul_left count most)

module _ (width : ℕ) (hash_fn inline : ℕ → ℕ) (input : ℕ → ℕ) (count load_factor : ℕ) where
  abbrev pub slots : ℕ
  slots = count * 100 / load_factor

  abbrev pub table : Histogram
  table = build_scalar_elem width hash_fn input (construct width count load_factor)

  pub construct-IsEmpty :
      count * 100 + 1 < 2 ^ width → IsEmpty slots (construct width count load_factor)
  unfolding construct
  construct-IsEmpty small =
      let fits : count * 100 % 2 ^ width ≡ count * 100 = mod-eq_of_lt (omega arith) in
      let size : count * 100 % 2 ^ width / load_factor ≡ slots =
        ap (λ (t : ℕ). t / load_factor) fits in
      record {
        size = size;
        infinity =
            mod-eq_of_lt (omega (arith, small, size, div-le_self (count * 100) load_factor))
            ∙ ap (λ (t : ℕ). t + 1) size;
        no_keys = λ p. refl;
        no_counts = λ p. refl;
        none_distinct = refl;
      }

  pub keys-IsInput :
      width ≤ 64
      → 0 < load_factor
      → load_factor ≤ 100
      → ((i : ℕ) → i < count → (input i ≢ 0) × (hash_fn (input i) + slots ≤ 2 ^ width))
      → count * 100 + 1 < 2 ^ width
      → IsInput width hash_fn slots input count
  keys-IsInput wide pos most keys small = record {
    nonzero = λ i h. (keys i h).0;
    safe = λ i h. (keys i h).1;
    room = slots-le count load_factor pos most;
    small = omega (arith, small, two-pow-le width 64 wide);
  }

  -- A table with a load factor from 1 to 100 percent, sized for the keys without overflow in T,
  -- with nonzero keys that are hashed at least the table's size below the top of T: then
  -- `get_count( key )` is the number of times that a nonzero key occurs among the keys,
  -- `probe_count_vectorized( key )` is the same if its own hash agrees on the key, and
  -- `container_distinct_count` is the number of slots in use.
  pub counts-construct :
      (key : ℕ)
      → width ≤ 64
      → 0 < load_factor
      → load_factor ≤ 100
      → count * 100 + 1 < 2 ^ width
      → ((i : ℕ) → i < count → (input i ≢ 0) × (hash_fn (input i) + slots ≤ 2 ^ width))
      → key ≢ 0
      → hash_fn key + slots ≤ 2 ^ 64
      → inline key ≡ hash_fn key
      → (get_count_of width hash_fn table key ≡ occurrences input key count)
        × (probe_count width inline table key ≡ occurrences input key count)
        × (table.container_distinct_count ≡ taken table.key_container slots)
  unfolding construct
  counts-construct key wide pos most small keys nonzero hashed same =
      counts-build width hash_fn slots input inline (construct width count load_factor) key
        (construct-IsEmpty small) (keys-IsInput wide pos most keys small) nonzero hashed same

  -- For a table with a load factor from 1 to 100 percent, sized for its keys without overflow in T,
  -- and nonzero keys that are hashed at least the table's size below the top of T, `key_count( )`,
  -- which looks at all slots, is the counter `container_distinct_count` that the build keeps.
  pub key_count-construct :
      width ≤ 64
      → 0 < load_factor
      → load_factor ≤ 100
      → count * 100 + 1 < 2 ^ width
      → ((i : ℕ) → i < count → (input i ≢ 0) × (hash_fn (input i) + slots ≤ 2 ^ width))
      → key_count table ≡ table.container_distinct_count
  unfolding construct
  key_count-construct wide pos most small keys =
      let built =
        (build-Holds width hash_fn slots input (construct width count load_factor)
          (construct-IsEmpty small) (keys-IsInput wide pos most keys small)).0 in
      key_count-taken table ∙ ap (taken table.key_container) built.size ∙ sym built.distinct

  -- For a table with a load factor from 1 to 100 percent, sized for its keys without overflow in T,
  -- and nonzero keys that are hashed at least the table's size below the top of T, `get_count( )`,
  -- which adds up the counters of all slots, is the number of keys that were put in.
  pub get_count-construct :
      width ≤ 64
      → 0 < load_factor
      → load_factor ≤ 100
      → count * 100 + 1 < 2 ^ width
      → ((i : ℕ) → i < count → (input i ≢ 0) × (hash_fn (input i) + slots ≤ 2 ^ width))
      → get_count table ≡ count
  unfolding construct
  get_count-construct wide pos most small keys =
      let built =
        (build-Holds width hash_fn slots input (construct width count load_factor)
          (construct-IsEmpty small) (keys-IsInput wide pos most keys small)).0 in
      get_count-total table
      ∙ ap (λ (t : ℕ). total table.key_count_container t % 2 ^ 64) built.size
      ∙ ap (λ (t : ℕ). t % 2 ^ 64) built.sum
      ∙ mod-eq_of_lt (omega (arith, small, two-pow-le width 64 wide))
