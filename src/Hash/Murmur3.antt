-- ===== src/Hash/Murmur3.antt =====
-- src/main/algorithms/hash/murmur3.h, and the two copies of it that hash_set.h writes out in its
-- loops. Each of the three texts is translated by itself, an assignment by a `let`.
use tsubasa.Base.{ℕ, ◌+◌, ◌*◌, ◌/◌, ◌%◌, ◌^◌, ◌<◌, ◌≡◌, bit_or, bit_xor, arith}
use native.Mathlib.Nat.{mod-eq_of_lt}
use tsubasa.Base.Bits.{zero-bit_xor}

-- `x * c` in a type of `width` bits.
abbrev pub times : ℕ → ℕ → ℕ → ℕ
times width x c = x * c % 2 ^ width

-- `( x << left ) | ( x >> right )`, a rotation only where `left + right` is the width.
abbrev pub shift_or : ℕ → ℕ → ℕ → ℕ → ℕ
shift_or width left right x = bit_or (x * 2 ^ left % 2 ^ width) (x / 2 ^ right)

-- `x ^= x >> k`.
abbrev pub xor_shift : ℕ → ℕ → ℕ
xor_shift k x = bit_xor x (x / 2 ^ k)

-- `operator( )( _key, _seed )` of both specialisations, which work in `uint32_t`; a wider key
-- or seed is cut off.
unfoldable pub murmur3 : ℕ → ℕ → ℕ
murmur3 seed key =
    let k1 = times 32 (key % 2 ^ 32) 0xcc9e2d51 in
    let k2 = shift_or 32 15 17 k1 in
    let k3 = times 32 k2 0x1b873593 in
    let h1 = bit_xor (seed % 2 ^ 32) k3 in
    let h2 = shift_or 32 13 19 h1 in
    let h3 = (h2 * 5 + 0xe6546b64) % 2 ^ 32 in
    let h4 = bit_xor h3 4 in
    let h5 = xor_shift 16 h4 in
    let h6 = times 32 h5 0x85ebca6b in
    let h7 = xor_shift 13 h6 in let h8 = times 32 h7 0xc2b2ae35 in xor_shift 16 h8

-- The hash written out in `build_scalar_batch` and `build_vectorized_batch`, which work in T.
unfoldable pub batch_hash : ℕ → ℕ → ℕ
batch_hash width key =
    let h1 = times width key 0xcc9e2d51 in
    let h2 = shift_or width 15 17 h1 in
    let h3 = times width h2 0x1b873593 in
    let h4 = shift_or width 13 19 h3 in
    let h5 = (h4 * 5 + 0xe6546b64) % 2 ^ width in
    let h6 = bit_xor h5 4 in
    let h7 = xor_shift 16 h6 in
    let h8 = times width h7 0x85ebca6b in
    let h9 = xor_shift 13 h8 in let h10 = times width h9 0xc2b2ae35 in xor_shift 16 h10

-- The hash written out in `probe_count_vectorized`, which works in T.
unfoldable pub inline_hash : ℕ → ℕ → ℕ
inline_hash width key =
    let base_hash = times width 0xcc9e2d51 key in
    let base_hash2 = shift_or width 15 17 base_hash in
    let base_hash3 = times width base_hash2 0x1b873593 in
    let base_hash4 = shift_or width 13 19 base_hash3 in
    let base_hash5 = (base_hash4 * 5 + 0xe6546b64) % 2 ^ width in
    let base_hash6 = bit_xor base_hash5 4 in
    let base_hash7 = xor_shift 16 base_hash6 in
    let base_hash8 = times width base_hash7 0x85ebca6b in
    let base_hash9 = xor_shift 13 base_hash8 in
    let base_hash10 = times width base_hash9 0xc2b2ae35 in xor_shift 16 base_hash10

-- On keys of type `uint32_t` both hashes that hash_set.h writes out are murmur3 with its default
-- seed.
pub inline_hash-murmur3 :
    (key : ℕ)
    → key < 2 ^ 32
    → (inline_hash 32 key ≡ murmur3 0 key) × (batch_hash 32 key ≡ murmur3 0 key)
unfolding inline_hash batch_hash murmur3
inline_hash-murmur3 key h =
    let swapped : times 32 0xcc9e2d51 key ≡ times 32 key 0xcc9e2d51 = omega arith in
    (rw (swapped, mod-eq_of_lt h, zero-bit_xor), rw (mod-eq_of_lt h, zero-bit_xor))
