-- ===== src/Image/Patch.antt =====
-- One row of a patch in an image: which pixels it changes.
use try_ops_try_on_mlops.Base.{
  ℕ, zero, suc, ◌+◌, ◌*◌, ◌≤◌, ◌<◌, nat_eq, ◌≡◌, ◌≢◌, refl, sym, ◌∙◌, some, List, length, arith,
  ltb, inl, inr, ltb→lt, Option-cases, Bool-cases,
}
use try_ops_try_on_mlops.Base.Int.{ℤ, pos, ◌+ℤ◌}
use try_ops_try_on_mlops.Image.Png.{RgbImage}
use try_ops_try_on_mlops.Image.Resize.{pixel, in_range, length-pixel}
use try_ops_try_on_mlops.Image.Overlay.{inside, put_pixel, overlay_row}
use try_ops_try_on_mlops.Image.Splice.{
  bytes_at, length-splice, bytes_at-splice, bytes_at-splice_other, places_apart, inside-pos,
  inside-injective, IsFull,
}

module _ (base patch : RgbImage) (x y : ℤ)
    (sized : length patch.pixels ≡ patch.width * patch.height * 3) where
  put_pixel-IsFull :
      (ty py px : ℕ) (out : List ℕ)
      → ty < base.height
      → px < patch.width
      → py < patch.height
      → IsFull base out
      → IsFull base (put_pixel base patch x y ty py px out)
  put_pixel-IsFull ty py px out hy hx hp full =
      elim (Option-cases (inside (x +ℤ pos px) base.width)) [
        | inl outside ↦ rw (outside, put_pixel) full
        | inr (tx, at) ↦
            let lt = (inside-pos (x +ℤ pos px) base.width tx at).1 in
            rw (at, put_pixel)
              (length-splice ((ty * base.width + tx) * 3) (pixel patch px py) out
                  (length-pixel patch px py sized hx hp)
                  (omega (arith, in_range ty tx base.width base.height hy lt, full))
                ∙ full)
      ]

  -- The round for a pixel of the patch inside of the base writes it there.
  put_pixel-hit :
      (ty tx py px : ℕ) (out : List ℕ)
      → IsFull base out
      → ty < base.height
      → px < patch.width
      → py < patch.height
      → inside (x +ℤ pos px) base.width ≡ some tx
      → bytes_at (ty * base.width + tx) (put_pixel base patch x y ty py px out) ≡ pixel patch px py
  put_pixel-hit ty tx py px out full hy hx hp at =
      let lt = (inside-pos (x +ℤ pos px) base.width tx at).1 in
      rw (at, put_pixel)
        (bytes_at-splice (ty * base.width + tx) (pixel patch px py) out
          (length-pixel patch px py sized hx hp)
          (omega (arith, in_range ty tx base.width base.height hy lt, full)))

  -- ... and nowhere else.
  put_pixel-other :
      (ty qy qx py px : ℕ) (out : List ℕ)
      → IsFull base out
      → ty < base.height
      → px < patch.width
      → py < patch.height
      → qy < base.height
      → qx < base.width
      → (inside (x +ℤ pos px) base.width ≡ some qx → ty ≢ qy)
      → bytes_at (qy * base.width + qx) (put_pixel base patch x y ty py px out)
        ≡ bytes_at (qy * base.width + qx) out
  put_pixel-other ty qy qx py px out full hy hx hp hqy hqx apart =
      elim (Option-cases (inside (x +ℤ pos px) base.width)) [
        | inl outside ↦ rw (outside, put_pixel) refl
        | inr (tx, at) ↦
            let lt = (inside-pos (x +ℤ pos px) base.width tx at).1 in
            let ne : qy * base.width + qx ≢ ty * base.width + tx = λ e.
              let (rows, columns) = places_apart qy qx ty tx base.width hqx lt e in
              apart (cc (at, columns)) (sym rows) in
            rw (at, put_pixel)
              (bytes_at-splice_other (qy * base.width + qx) (ty * base.width + tx)
                (pixel patch px py) out ne (length-pixel patch px py sized hx hp)
                (omega (arith, in_range ty tx base.width base.height hy lt, full))
                (omega (arith, in_range qy qx base.width base.height hqy hqx, full)))
      ]

  pub overlay_row-IsFull :
      (ty py start count : ℕ) (out : List ℕ)
      → ty < base.height
      → py < patch.height
      → start + count ≤ patch.width
      → IsFull base out
      → IsFull base (overlay_row base patch x y ty py start count out)
  unfolding overlay_row
  overlay_row-IsFull ty py start zero out hy hp le full = full
  overlay_row-IsFull ty py start (suc count) out hy hp le full =
      overlay_row-IsFull ty py (start + 1) count (put_pixel base patch x y ty py start out) hy hp
        (omega (arith, le)) (put_pixel-IsFull ty py start out hy (omega (arith, le)) hp full)

  pub overlay_row-other :
      (ty qy qx py start count : ℕ) (out : List ℕ)
      → ty < base.height
      → py < patch.height
      → start + count ≤ patch.width
      → qy < base.height
      → qx < base.width
      → IsFull base out
      → ((px : ℕ)
          → start ≤ px
          → px < start + count
          → inside (x +ℤ pos px) base.width ≡ some qx
          → ty ≢ qy)
      → bytes_at (qy * base.width + qx) (overlay_row base patch x y ty py start count out)
        ≡ bytes_at (qy * base.width + qx) out
  unfolding overlay_row
  overlay_row-other ty qy qx py start zero out hy hp le hqy hqx full apart = refl
  overlay_row-other ty qy qx py start (suc count) out hy hp le hqy hqx full apart =
      overlay_row-other ty qy qx py (start + 1) count (put_pixel base patch x y ty py start out) hy
        hp (omega (arith, le)) hqy hqx
        (put_pixel-IsFull ty py start out hy (omega (arith, le)) hp full)
        (λ px h k. apart px (omega (arith, h)) (omega (arith, k)))
      ∙ put_pixel-other ty qy qx py start out full hy (omega (arith, le)) hp hqy hqx
          (apart start (omega arith) (omega arith))

  pub overlay_row-hit :
      (ty tx py px start count : ℕ) (out : List ℕ)
      → ty < base.height
      → py < patch.height
      → start + count ≤ patch.width
      → start ≤ px
      → px < start + count
      → IsFull base out
      → inside (x +ℤ pos px) base.width ≡ some tx
      → bytes_at (ty * base.width + tx) (overlay_row base patch x y ty py start count out)
        ≡ pixel patch px py
  unfolding overlay_row
  overlay_row-hit ty tx py px start zero out hy hp le low high full at =
      absurd (omega (arith, low, high))
  overlay_row-hit ty tx py px start (suc count) out hy hp le low high full at =
      let lt = (inside-pos (x +ℤ pos px) base.width tx at).1 in
      let next = put_pixel base patch x y ty py start out in
      let full' = put_pixel-IsFull ty py start out hy (omega (arith, le)) hp full in
      elim (Bool-cases (ltb start px)) [
        | inl later ↦
            overlay_row-hit ty tx py px (start + 1) count next hy hp (omega (arith, le))
              (omega (arith, ltb→lt start px later)) (omega (arith, high)) full' at
        | inr now ↦
            let here : px ≡ start = ground (arith, low, now) in
            let at' : inside (x +ℤ pos start) base.width ≡ some tx = rw (← here) at in
            overlay_row-other ty ty tx py (start + 1) count next hy hp (omega (arith, le)) hy lt
              full'
              (λ j h k h'.
                absurd
                  (let e = inside-injective x j start base.width tx h' at' in omega (arith, h, e)))
            ∙ rw here (put_pixel-hit ty tx py start out full hy (omega (arith, le)) hp at')
      ]
