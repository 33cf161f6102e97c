-- ===== src/Tests/Logical.antt =====
-- Logical compression: runs of the code, and its theorems at concrete inputs.
use mathlib.Core.Bool.{true, false}
use mathlib.Core.Logic.{◌↔◌}
use tsubasa.Base.{ℕ, suc, ◌+◌, ◌*◌, ◌%◌, ◌^◌, ◌<◌, ◌≡◌, refl, arith, length, ltb, if◌then◌else◌}
use tsubasa.Base.Loop.{for_range}
use tsubasa.Base.Memory.{Memory}
use tsubasa.Logical.{same_from}
use tsubasa.Logical.Delta.{
  delta_compression, delta_decompression, delta_validator, running_sum,
  running_sum-delta_compression, delta_validator-true,
}
use tsubasa.Logical.FrameOfReference.{
  for_compression, for_decompression, for_validator, frame_min, compress_frame, decompress_frame,
}
use tsubasa.Logical.FrameOfReference.Validate.{for_validator_iff}
use tsubasa.Logical.RunLength.{
  rle_compression, rle_decompression, rle_validator, encode_value, decode_run,
}
use tsubasa.Logical.RunLength.Runs.{span, expand}
use tsubasa.Logical.RunLength.RoundTrip.{
  decoded, rle_compression_lossless, rle_decompression-expand,
}

abbrev blank : Memory
blank a = 0

logical_program : Unit {0}
unfolding same_from delta_compression delta_decompression delta_validator for_compression
    for_decompression for_validator frame_min compress_frame decompress_frame rle_compression
    rle_decompression rle_validator encode_value decode_run for_range
logical_program = tt

-- 1, 2, 3, 5, 8: the arrays that the validator accepts are such sums; and 5, 6, 7, which it refuses.
abbrev sums : Memory
sums a = if ltb a 3 then a + 1 else if ltb a 4 then 5 else 8

delta_runs :
    (delta_decompression 32 (delta_compression 32 sums 5 blank) 5 blank 3 ≡ 5)
    × (delta_validator 32 (λ a. a + 5) 3 blank blank ≡ false)
unfolding logical_program
delta_runs = (refl, refl)

-- The second frame is lost.
frame_runs :
    (for_validator 32 2 (λ a. a % 2 + 7) 4 blank blank ≡ true)
    × (for_validator 32 2 (λ a. a) 4 blank blank ≡ false)
    × (for_decompression 32 2 (for_compression 32 2 (λ a. a) 4 blank) blank 4 3 ≡ 1)
unfolding logical_program
frame_runs = (refl, refl, refl)

-- 4, 4, 9, 9, 9.
abbrev two_runs : Memory
two_runs a = if ltb a 2 then 4 else 9

-- Each 9 is a run of its own. The validator passes the number of the last run as the number of
-- runs and as the place of the lengths.
rle_runs :
    ((rle_compression 32 two_runs 5 blank).0 ≡ 3)
    × ((rle_compression 32 two_runs 5 blank).1 5 ≡ 2)
    × ((rle_compression 32 two_runs 5 blank).1 6 ≡ 1)
    × (rle_validator 32 two_runs 5 blank blank ≡ false)
unfolding logical_program
rle_runs = (refl, refl, refl, refl)

running_sum-delta_compression_example :
    running_sum 32 (delta_compression 32 sums 5 blank) 4 ≡ sums 4
running_sum-delta_compression_example =
    running_sum-delta_compression 32 sums blank 5 4 (λ q h. ground arith) (omega arith)

-- With a 2 behind the compressed array.
abbrev twos : Memory
twos a = 2

accepted : delta_validator 32 sums 3 twos blank ≡ true
unfolding logical_program
accepted = refl

delta_validator-true_example : sums 2 ≡ (sums 1 + sums 0) % 2 ^ 32
delta_validator-true_example =
    delta_validator-true 32 sums twos blank 3 (λ q h. ground arith) accepted 1 (omega arith)
      (omega arith)

for_validator_iff_example :
    (for_validator 32 2 (λ a. a % 2 + 7) (2 * 2) blank blank ≡ true)
    ↔ ((g p : ℕ) → g < 2 → p < 2 → (g * 2 + p) % 2 + 7 ≡ p % 2 + 7)
for_validator_iff_example =
    for_validator_iff 32 2 (λ a. a % 2 + 7) blank blank 2 (omega arith) (λ p h. omega arith)

rle_compression_lossless_example :
    (decoded 32 two_runs blank 5 (omega arith) (omega arith) ≡ span two_runs 0 5)
    ↔ ((q : ℕ) → suc q < 5 → two_runs (suc q) ≡ two_runs 0 → two_runs q ≡ two_runs 0)
rle_compression_lossless_example =
    rle_compression_lossless 32 two_runs blank 5 (omega arith) (omega arith)

-- The values 4 and 9 with the lengths 2 and 3 behind them.
abbrev packed_runs : Memory
packed_runs a = if ltb a 1 then 4 else if ltb a 2 then 9 else a

rle_decompression-expand_example :
    let runs = expand packed_runs (λ i. packed_runs (2 + i)) 2 in
    span (rle_decompression packed_runs 2 blank) 0 (length runs) ≡ runs
rle_decompression-expand_example = rle_decompression-expand packed_runs blank 2
