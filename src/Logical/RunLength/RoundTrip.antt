-- ===== src/Logical/RunLength/RoundTrip.antt =====
-- Compression against the reference decoder, and decompression of runs in the layout that it reads.
use mathlib.Core.List.{append_assoc, append-nil}
use mathlib.Core.Logic.{◌↔◌}
use native.Mathlib.Nat.{zero-add}
use tsubasa.Base.{
  ℕ, zero, suc, ◌+◌, ◌-◌, ◌^◌, ◌≤◌, ◌<◌, ◌≡◌, ◌∙◌, sym, ap, arith, List, [], ◌∷◌, ◌++◌, length,
  ◌==◌, ==_iff, Bool-cases, inl, inr,
}
use tsubasa.Base.Loop.{for_range, for_range_inv}
use tsubasa.Base.Memory.{Memory, write, write_self, write_ne}
use tsubasa.Logical.{Output}
use tsubasa.Logical.RunLength.{
  Encoder, encode_value, rle_compression, decode_run, rle_decompression,
}
use tsubasa.Logical.RunLength.Runs.{
  span-add_one, start-Encoded, span_elements, length-span, copies-add_one, expand-add_one,
  expand-zero, copies-zero, span-zero, carried-zero, span, expand, carried, Encoded,
  encode_value-Encoded, ended-runs, span_congr, carried_kept, carried_new, copies,
}

module _ (width : ℕ) (values before : Memory) (n : ℕ) (some_values : 0 < n)
    (small : n < 2 ^ width) where
  rle_compression-Encoded : Encoded width values before n small (n - 1) (
      for_range
        (n - 1)
        1
        (encode_value width values n)
        (record { run_length = 1; result_position = 0; result = write before 0 (values 0) }))
  rle_compression-Encoded =
      for_range_inv (λ k s. Encoded width values before n small (k - 1) s)
        (encode_value width values n) (n - 1) 1 n (omega arith) step _
        (start-Encoded width values before n small)
    where
      step :
          (k : ℕ) (s : Encoder)
          → 1 ≤ k
          → k < n
          → Encoded width values before n small (k - 1) s
          → Encoded width values before n small (k + 1 - 1) (encode_value width values n k s)
      step zero s lo hi e = absurd (omega arith)
      step (suc q) s lo hi e =
          let here : suc q + 1 - 1 ≡ suc q = omega arith in
          let last : suc q - 1 ≡ q = omega arith in
          rw here (encode_value-Encoded width values before n small q s hi (rw last at e))

  -- The runs that the compression writes, taken apart by the reference decoder.
  abbrev pub decoded : List ℕ
  decoded = let c = rle_compression width values n before in expand c.1 (λ i. c.1 (n + i)) (c.0 + 1)

  decoded-carried : decoded ≡ span (carried values) 0 n
  unfolding rle_compression
  decoded-carried =
      ended-runs width values before n small _ (n - 1) (omega arith) rle_compression-Encoded
      ∙ ap (span (carried values) 0) (omega arith)

  carried-values :
      ((q : ℕ) → suc q < n → values (suc q) ≡ values 0 → values q ≡ values 0)
      → (p : ℕ) → p < n
      → carried values p ≡ values p
  carried-values stays zero h = carried-zero values
  carried-values stays (suc q) h = elim (Bool-cases (values (suc q) == values 0)) [
    | inl same ↦
        let e = (==_iff (values (suc q)) (values 0)).0 same in
        carried_kept values q same ∙ carried-values stays q (omega arith) ∙ stays q h e ∙ sym e
    | inr new ↦ carried_new values q new
  ]

  -- For at least one and fewer than 2 to the width values, the runs that the compression writes,
  -- taken apart by the reference decoder, are the values exactly if no value that follows a
  -- different one is equal to the first value.
  pub rle_compression_lossless :
      (decoded ≡ span values 0 n)
      ↔ ((q : ℕ) → suc q < n → values (suc q) ≡ values 0 → values q ≡ values 0)
  rle_compression_lossless = (
    λ e q h back.
        let same = λ (p : ℕ) (below : p < n).
          rw zero-add at
            (span_elements (carried values) values 0 n (sym decoded-carried ∙ e) p below) in
        sym (same q (omega arith))
        ∙ sym (carried_kept values q ((==_iff (values (suc q)) (values 0)).1 back))
        ∙ same (suc q) h
        ∙ back,
    λ stays.
        decoded-carried
        ∙ span_congr (carried values) values 0 n
            (λ p lo hi. carried-values stays p (omega (arith, hi))),
  )

module _ (packed result : Memory) where
  decode_run-span :
      (data_count position : ℕ) (o : Output) (xs : List ℕ)
      → span o.result 0 o.position ≡ xs
      → let r = decode_run packed data_count position o in
        span r.result 0 r.position ≡ xs ++ copies (packed (data_count + position)) (packed position)
  unfolding decode_run
  decode_run-span data_count position o xs e =
      for_range_inv
        (λ k (r : Output). span r.result 0 r.position ≡ xs ++ copies k (packed position))
        (λ run_i r. record {
          position = r.position + 1;
          result = write r.result r.position (packed position);
        })
        (packed (data_count + position)) 0 (packed (data_count + position)) (omega arith)
        (λ k r lo hi p.
          let v = packed position in
          span-add_one (write r.result r.position v) r.position
          ∙ rw
              (
                span_congr (write r.result r.position v) r.result 0 r.position
                    (λ a lo hi. write_ne r.result r.position v a (omega (arith, hi))),
                write_self r.result r.position v,
                p,
                copies-add_one,
              )
              (append_assoc xs (copies k v) (v ∷ [])))
        o (e ∙ sym (rw copies-zero (append-nil xs)))

  -- Decompression writes the runs of its input one after the other, where the lengths stand right
  -- behind the `data_count` values.
  pub rle_decompression-expand :
      (data_count : ℕ)
      → let runs = expand packed (λ i. packed (data_count + i)) data_count in
        span (rle_decompression packed data_count result) 0 (length runs) ≡ runs
  unfolding rle_decompression
  rle_decompression-expand data_count =
      let done =
        for_range_inv
          (λ k (o : Output).
            span o.result 0 o.position ≡ expand packed (λ i. packed (data_count + i)) k)
          (decode_run packed data_count) data_count 0 data_count (omega arith)
          (λ k o lo hi p.
            decode_run-span data_count k o _ p
            ∙ sym (expand-add_one packed (λ i. packed (data_count + i)) k))
          (record { position = 0; result = result })
          (span-zero result 0 ∙ sym (expand-zero packed _)) in
      let count = sym (length-span _ 0 _) ∙ ap length done in ap (span _ 0) (sym count) ∙ done
