-- ===== src/Logical/FrameOfReference/Validate.antt =====
-- Decompression of what the compression wrote, and the validator.
use native.Mathlib.Nat.{
  mul-le-mul_right, add-mul-div_right, div-eq_of_lt, mod-lt, mod-add-div, div-lt_iff_lt-mul,
}
use mathlib.Core.Logic.{◌↔◌}
use mathlib.Core.Bool.{true}
use tsubasa.Base.{
  ℕ, suc, ◌+◌, ◌-◌, ◌*◌, ◌/◌, ◌%◌, ◌^◌, ◌<◌, ◌≡◌, ◌∙◌, refl, sym, ap, arith, lt_or_le, inl, inr,
}
use tsubasa.Base.Loop.{for_range, for_range_inv}
use tsubasa.Base.Memory.{Memory, write, write_self, write_ne}
use tsubasa.Base.Modular.{difference-add}
use tsubasa.Logical.{Output, same_from-true, true-same_from}
use tsubasa.Logical.FrameOfReference.{
  frames, for_compression, decompress_frame, for_decompression, for_validator,
}
use tsubasa.Logical.FrameOfReference.Frames.{for_compression-Packed, frame_min-lt}

module _ (width size : ℕ) where
  record FrameRead (packed : Memory) (base start : ℕ) (before : Memory) (done : ℕ) (o : Output)
      : Type 0 where
    at : o.position ≡ start + suc done
    read :
        (p : ℕ)
        → p < done
        → o.result (base + p) ≡ (packed (start + suc p) + packed start) % 2 ^ width
    kept : (a : ℕ) → a < base → o.result a ≡ before a

  decompress_frame-FrameRead :
      (packed : Memory) (base : ℕ) (o : Output)
      → FrameRead packed base o.position o.result size (decompress_frame width size packed base o)
  unfolding decompress_frame
  decompress_frame-FrameRead packed base o =
      for_range_inv (FrameRead packed base o.position o.result)
        (λ position t. record {
          position = t.position + 1;
          result =
              write t.result (base + position)
                ((packed t.position + packed o.position) % 2 ^ width);
        })
        size 0 size (omega arith)
        (λ k t lo hi q. record {
          at = omega (arith, q.at);
          read = λ p h. elim (lt_or_le p k) [
            | inl below ↦
                write_ne t.result (base + k) _ (base + p) (omega (arith, below)) ∙ q.read p below
            | inr top ↦
                let e : p ≡ k = omega (arith, top, h) in
                rw (e, ← q.at) (write_self t.result (base + k) _)
          ];
          kept = λ a h. write_ne t.result (base + k) _ a (omega (arith, h)) ∙ q.kept a h;
        })
        (record o { position = o.position + 1 })
        (record { at = omega arith; read = λ p h. absurd (omega arith); kept = λ a h. refl })

  record Unpacked (packed : Memory) (k : ℕ) (o : Output) : Type 0 where
    at : o.position ≡ k * suc size
    read :
        (g p : ℕ)
        → g < k
        → p < size
        → o.result (g * size + p)
          ≡ (packed (g * suc size + suc p) + packed (g * suc size)) % 2 ^ width

  for_decompression-Unpacked :
      (packed before : Memory) (k : ℕ)
      → Unpacked packed k (
          for_range k 0
            (λ frame o. decompress_frame width size packed (frame * size) o)
            (record { position = 0; result = before }))
  for_decompression-Unpacked packed before k =
      for_range_inv (Unpacked packed)
        (λ frame o. decompress_frame width size packed (frame * size) o) k 0 k (omega arith)
        (λ g t lo hi q.
          let f = decompress_frame-FrameRead packed (g * size) t in
          record {
            at = omega (arith, f.at, q.at);
            read = λ h p below inside. elim (lt_or_le h g) [
              | inl earlier ↦
                  f.kept (h * size + p)
                    (omega (arith, inside, mul-le-mul_right {m = suc h} {n = g} size earlier))
                  ∙ q.read h p earlier inside
              | inr last ↦
                  let e : h ≡ g = omega (arith, last, below) in rw (e, ← q.at) (f.read p inside)
            ];
          })
        (record { position = 0; result = before })
        (record { at = omega arith; read = λ g p h i. absurd (omega arith) })

  frames_whole : (k : ℕ) → 0 < size → frames width size (k * size) ≡ k
  frames_whole k pos =
      ap (λ (t : ℕ). t / size) (omega arith)
      ∙ add-mul-div_right (size - 1) k pos
      ∙ ap (λ (t : ℕ). t + k) (div-eq_of_lt (omega arith))
      ∙ omega arith

  in_array : {k : ℕ} (g p : ℕ) → g < k → p < size → g * size + p < k * size
  in_array {k} g p below inside =
      omega (arith, inside, mul-le-mul_right {m = suc g} {n = k} size below)

  position_of :
      {k : ℕ} (a : ℕ) → a < k * size → (g : ℕ) × (p : ℕ) × (g < k) × (p < size) × (a ≡ g * size + p)
  position_of {k} a h =
      (a / size, a % size, quotient, mod-lt a pos, omega (arith, mod-add-div a size))
    where
      pos : 0 < size
      pos = elim (lt_or_le 0 size) [
        | inl some ↦ some
        | inr none ↦
            let e : size ≡ 0 = omega (arith, none) in
            absurd (omega (arith, h, ap (λ (t : ℕ). k * t) e))
      ]

      quotient : a / size < k
      quotient = (div-lt_iff_lt-mul pos).1 h

  module _ (values compressed decompressed : Memory) (k : ℕ) (pos : 0 < size) where
    -- Position `p` of every frame comes back as position `p` of the first frame.
    for_decompression-compressed :
        ((p : ℕ) → p < size → values p < 2 ^ width)
        → (g p : ℕ) → g < k
        → p < size
        → for_decompression width size
            (for_compression width size values (k * size) compressed)
            decompressed
            (k * size)
            (g * size + p)
          ≡ values p
    unfolding for_decompression for_compression
    for_decompression-compressed fits g p below inside =
        let written = for_compression-Packed width size values compressed k in
        rw (frames_whole k pos, for_decompression, for_compression)
          (Unpacked.read (for_decompression-Unpacked _ decompressed k) g p below inside
            ∙ rw (written.least g below, written.packed g p below inside)
                (difference-add (2 ^ width) _ (values p)
                  (omega (arith, frame_min-lt width size values (g * size))) (fits p inside)))

    -- On an array of whole frames of values of T the validator accepts exactly if every frame is
    -- equal to the first one.
    pub for_validator_iff :
        ((p : ℕ) → p < k * size → values p < 2 ^ width)
        → (for_validator width size values (k * size) compressed decompressed ≡ true)
          ↔ ((g p : ℕ) → g < k → p < size → values (g * size + p) ≡ values p)
    unfolding for_validator
    for_validator_iff fits = (
      λ accepted g p below inside.
          same_from-true values _ (k * size) 0 accepted (g * size + p) (omega arith)
            (omega (arith, in_array g p below inside))
          ∙ for_decompression-compressed
              (λ q h. fits q (
                omega (
                  arith,
                  h,
                  in_array g p below inside,
                  in_array {k = k} 0 q (omega (arith, below)) h,
                )))
              g p below inside,
      λ repeats. true-same_from values _ (k * size) 0 (λ a lo hi.
          let within : a < k * size = omega (arith, hi) in
          let (g, p, below, inside, e) = position_of {k = k} a within in
          rw e (
            repeats g p below inside
            ∙ sym (
                for_decompression-compressed
                  (λ q h. fits q (omega (arith, in_array {k = k} 0 q (omega (arith, below)) h))) g p
                  below inside))),
    )
