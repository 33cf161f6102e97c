-- ===== src/Logical/FrameOfReference.antt =====
-- src/main/algorithms/compression/logical/for.h. `frame_size` is FrameSize.
pub mod Frames
pub mod Validate
use tsubasa.Base.{ℕ, zero, suc, ◌+◌, ◌-◌, ◌*◌, ◌/◌, ◌%◌, ◌^◌, Bool, ltb, if◌then◌else◌}
use tsubasa.Base.Loop.{for_range}
use tsubasa.Base.Memory.{Memory, write}
use tsubasa.Logical.{Output, same_from}

module _ (width frame_size : ℕ) where
  -- The rounds of `for( frame_base = 0; frame_base < count; frame_base += FrameSize )`.
  abbrev pub frames : ℕ → ℕ
  frames count = (count + frame_size - 1) / frame_size

  -- The first inner loop: the least value of a frame, at most the largest of T.
  unfoldable pub frame_min : Memory → ℕ → ℕ
  frame_min values frame_base =
      for_range frame_size 0
        (λ position min.
          let cur = values (frame_base + position) in if ltb cur min then cur else min)
        (2 ^ width - 1)

  -- `result[ result_pos ] = x; ++result_pos;`.
  abbrev pub put : ℕ → Output → Output
  put x o = record { position = o.position + 1; result = write o.result o.position x }

  unfoldable pub compress_frame : Memory → ℕ → Output → Output
  compress_frame values frame_base o =
      let min = frame_min values frame_base in
      for_range frame_size 0
        (λ position o. put ((values position + (2 ^ width - min)) % 2 ^ width) o) (put min o)

  -- `operator( )` of `for_compression`.
  unfoldable pub for_compression : Memory → ℕ → Memory → Memory
  for_compression values data_count result =
      (for_range (frames data_count) 0 (λ frame o. compress_frame values (frame * frame_size) o)
        (record { position = 0; result = result })).result

  unfoldable pub decompress_frame : Memory → ℕ → Output → Output
  decompress_frame packed frame_base o =
      let min = packed o.position in
      for_range frame_size 0
        (λ position o. record {
          position = o.position + 1;
          result = write o.result (frame_base + position) ((packed o.position + min) % 2 ^ width);
        })
        (record o { position = o.position + 1 })

  -- `operator( )` of `for_decompression`.
  unfoldable pub for_decompression : Memory → Memory → ℕ → Memory
  for_decompression packed result result_count =
      (for_range (frames result_count) 0 (λ frame o. decompress_frame packed (frame * frame_size) o)
        (record { position = 0; result = result })).result

  -- `operator( )` of `for_validator`, with the arrays that `malloc` returns.
  unfoldable pub for_validator : Memory → ℕ → Memory → Memory → Bool
  for_validator values data_count compressed decompressed =
      same_from values
        (for_decompression (for_compression values data_count compressed) decompressed data_count)
        data_count 0
