-- ===== src/Logical/RunLength.antt =====
-- src/main/algorithms/compression/logical/rle.h.
pub mod Runs
pub mod RoundTrip
use tsubasa.Base.{ℕ, ◌+◌, ◌-◌, ◌%◌, ◌^◌, Bool, ◌==◌, if◌then◌else◌}
use tsubasa.Base.Loop.{for_range}
use tsubasa.Base.Memory.{Memory, write}
use tsubasa.Logical.{Output, same_from}

-- The variables of the compression, with the array `result`.
pub record Encoder : Type 0 where
  pub run_length : ℕ
  pub result_position : ℕ
  pub result : Memory

unfoldable pub decode_run : Memory → ℕ → ℕ → Output → Output
decode_run packed data_count position o =
    let run_value = packed position in
    for_range (packed (data_count + position)) 0
      (λ run_i o. record {
        position = o.position + 1;
        result = write o.result o.position run_value;
      })
      o

-- `operator( )` of `rle_decompression`.
unfoldable pub rle_decompression : Memory → ℕ → Memory → Memory
rle_decompression packed data_count result =
    (for_range data_count 0 (decode_run packed data_count)
      (record { position = 0; result = result })).result

module _ (width : ℕ) where
  -- The body of the loop: `run_value` is not assigned after the start.
  unfoldable pub encode_value : Memory → ℕ → ℕ → Encoder → Encoder
  encode_value values data_count position s =
      let tmp_value = values position in
      let run_value = values 0 in
      if tmp_value == run_value then (record s { run_length = s.run_length + 1 }) else (record {
        run_length = 1;
        result_position = s.result_position + 1;
        result =
            write (write s.result (data_count + s.result_position) (s.run_length % 2 ^ width))
              (s.result_position + 1) tmp_value;
      })

  -- `operator( )` of `rle_compression`: `compress_count` and the array. Values stand from position
  -- 0 and lengths from position `data_count`.
  unfoldable pub rle_compression : Memory → ℕ → Memory → ℕ × Memory
  rle_compression values data_count result =
      let s =
        for_range (data_count - 1) 1 (encode_value values data_count)
          (record { run_length = 1; result_position = 0; result = write result 0 (values 0) }) in
      (
        s.result_position,
        write s.result (data_count + s.result_position) (s.run_length % 2 ^ width),
      )

  -- `operator( )` of `rle_validator`, with the arrays that `malloc` returns.
  unfoldable pub rle_validator : Memory → ℕ → Memory → Memory → Bool
  rle_validator values data_count compressed decompressed =
      let compr = rle_compression values data_count compressed in
      same_from values (rle_decompression compr.1 compr.0 decompressed) data_count 0
