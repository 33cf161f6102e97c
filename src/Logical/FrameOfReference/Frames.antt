-- ===== src/Logical/FrameOfReference/Frames.antt =====
-- What the frames of an array become: every frame comes back as the first one.
use native.Mathlib.Nat.{mul-le-mul_right}
use tsubasa.Base.{
  ℕ, suc, ◌+◌, ◌-◌, ◌*◌, ◌%◌, ◌^◌, ◌≤◌, ◌<◌, ◌≡◌, ◌∙◌, arith, ltb, if◌then◌else◌, lt_or_le, inl,
  inr,
}
use tsubasa.Base.Loop.{for_range, for_range_inv}
use tsubasa.Base.Memory.{Memory, write_self, write_ne}
use tsubasa.Base.Power.{two-pow-pos}
use tsubasa.Logical.{Output}
use tsubasa.Logical.FrameOfReference.{frame_min, put, compress_frame}

module _ (width size : ℕ) where
  pub frame_min-lt : (values : Memory) (base : ℕ) → frame_min width size values base < 2 ^ width
  unfolding frame_min
  frame_min-lt values base =
      for_range_inv (λ _ (min : ℕ). min < 2 ^ width)
        (λ position min. let cur = values (base + position) in if ltb cur min then cur else min)
        size 0 size (omega arith) (λ k min lo hi p. ground (arith, p)) (2 ^ width - 1)
        (omega (arith, two-pow-pos width))

  -- A frame written from position `start` on.
  record FramePacked (values : Memory) (min start : ℕ) (before : Memory) (done : ℕ) (o : Output)
      : Type 0 where
    at : o.position ≡ start + suc done
    least : o.result start ≡ min
    pub packed :
        (p : ℕ) → p < done → o.result (start + suc p) ≡ (values p + (2 ^ width - min)) % 2 ^ width
    kept : (a : ℕ) → a < start → o.result a ≡ before a

  compress_frame-FramePacked :
      (values : Memory) (base : ℕ) (o : Output)
      → FramePacked values
          (frame_min width size values base)
          o.position
          o.result
          size
          (compress_frame width size values base o)
  unfolding compress_frame
  compress_frame-FramePacked values base o =
      let min = frame_min width size values base in
      for_range_inv (FramePacked values min o.position o.result)
        (λ position o. put width size ((values position + (2 ^ width - min)) % 2 ^ width) o) size 0
        size (omega arith)
        (λ k t lo hi q. record {
          at = omega (arith, q.at);
          least = write_ne t.result t.position _ o.position (omega (arith, q.at)) ∙ q.least;
          packed = λ p h. elim (lt_or_le p k) [
            | inl below ↦
                write_ne t.result t.position _ (o.position + suc p) (omega (arith, q.at, below))
                ∙ q.packed p below
            | inr top ↦
                let e : p ≡ k = omega (arith, top, h) in
                rw (e, ← q.at) (write_self t.result t.position _)
          ];
          kept = λ a h. write_ne t.result t.position _ a (omega (arith, q.at, h)) ∙ q.kept a h;
        })
        (put width size min o)
        (record {
          at = omega arith;
          least = write_self o.result o.position min;
          packed = λ p h. absurd (omega arith);
          kept = λ a h. write_ne o.result o.position min a (omega (arith, h));
        })

  -- After `k` frames.
  pub record Packed (values before : Memory) (k : ℕ) (o : Output) : Type 0 where
    at : o.position ≡ k * suc size
    pub least : (g : ℕ) → g < k → o.result (g * suc size) ≡ frame_min width size values (g * size)
    pub packed :
        (g p : ℕ)
        → g < k
        → p < size
        → o.result (g * suc size + suc p)
          ≡ (values p + (2 ^ width - frame_min width size values (g * size))) % 2 ^ width

  pub later : (g k : ℕ) → g < k → g * suc size + suc size ≤ k * suc size
  later g k h = omega (arith, mul-le-mul_right {m = suc g} {n = k} (suc size) h)

  pub for_compression-Packed :
      (values before : Memory) (k : ℕ)
      → Packed values before k (
          for_range k 0
            (λ frame o. compress_frame width size values (frame * size) o)
            (record { position = 0; result = before }))
  for_compression-Packed values before k =
      for_range_inv (Packed values before)
        (λ frame o. compress_frame width size values (frame * size) o) k 0 k (omega arith)
        (λ g t lo hi q.
          let f = compress_frame-FramePacked values (g * size) t in
          record {
            at = omega (arith, f.at, q.at);
            least = λ h below. elim (lt_or_le h g) [
              | inl earlier ↦
                  f.kept (h * suc size) (omega (arith, q.at, later h g earlier)) ∙ q.least h earlier
              | inr last ↦ let e : h ≡ g = omega (arith, last, below) in rw (e, ← q.at) f.least
            ];
            packed = λ h p below inside. elim (lt_or_le h g) [
              | inl earlier ↦
                  f.kept (h * suc size + suc p) (omega (arith, q.at, later h g earlier, inside))
                  ∙ q.packed h p earlier inside
              | inr last ↦
                  let e : h ≡ g = omega (arith, last, below) in rw (e, ← q.at) (f.packed p inside)
            ];
          })
        (record { position = 0; result = before })
        (record {
          at = omega arith;
          least = λ g h. absurd (omega arith);
          packed = λ g p h i. absurd (omega arith);
        })
