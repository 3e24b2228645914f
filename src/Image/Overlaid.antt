-- ===== src/Image/Overlaid.antt =====
-- An image with a patch laid over it, pixel by pixel.
use try_ops_try_on_mlops.Base.{
  ℕ, zero, suc, ◌+◌, ◌*◌, ◌≤◌, ◌<◌, nat_eq, true, ◌≡◌, ◌≢◌, refl, ◌∙◌, some, List, length, arith,
  ltb, inl, inr, ltb→lt, Option-cases, Bool-cases, ◌==◌,
}
use try_ops_try_on_mlops.Base.Int.{ℤ, pos, ◌+ℤ◌}
use try_ops_try_on_mlops.Base.Result.{ok}
use try_ops_try_on_mlops.Image.Png.{RgbImage, new_image}
use try_ops_try_on_mlops.Image.Resize.{pixel}
use try_ops_try_on_mlops.Image.Overlay.{inside, put_row, overlay_rows, overlay}
use try_ops_try_on_mlops.Image.Splice.{bytes_at, inside-pos, inside-injective, IsFull}
use try_ops_try_on_mlops.Image.Patch.{overlay_row-IsFull, overlay_row-other, overlay_row-hit}

module _ (base patch : RgbImage) (x y : ℤ)
    (sized : length patch.pixels ≡ patch.width * patch.height * 3) where
  put_row-IsFull :
      (py : ℕ) (out : List ℕ)
      → py < patch.height
      → IsFull base out
      → IsFull base (put_row base patch x y py out)
  unfolding put_row
  put_row-IsFull py out hp full = elim (Option-cases (inside (y +ℤ pos py) base.height)) [
    | inl outside ↦ rw (outside, put_row) full
    | inr (ty, at) ↦
        let hy = (inside-pos (y +ℤ pos py) base.height ty at).1 in
        rw (at, put_row)
          (overlay_row-IsFull base patch x y sized ty py 0 patch.width out hy hp (omega arith) full)
  ]

  -- No pixel of the patch, among those rows, falls on the place.
  abbrev pub Missed : ℕ → ℕ → ℕ → ℕ → Type 0
  Missed start count qx qy =
      (px py : ℕ)
      → px < patch.width
      → start ≤ py
      → py < start + count
      → inside (x +ℤ pos px) base.width ≡ some qx
      → inside (y +ℤ pos py) base.height ≢ some qy

  put_row-other :
      (py qx qy : ℕ) (out : List ℕ)
      → py < patch.height
      → qy < base.height
      → qx < base.width
      → IsFull base out
      → ((px : ℕ)
          → px < patch.width
          → inside (x +ℤ pos px) base.width ≡ some qx
          → inside (y +ℤ pos py) base.height ≢ some qy)
      → bytes_at (qy * base.width + qx) (put_row base patch x y py out)
        ≡ bytes_at (qy * base.width + qx) out
  unfolding put_row
  put_row-other py qx qy out hp hqy hqx full missed =
      elim (Option-cases (inside (y +ℤ pos py) base.height)) [
        | inl outside ↦ rw (outside, put_row) refl
        | inr (ty, at) ↦
            let hy = (inside-pos (y +ℤ pos py) base.height ty at).1 in
            rw (at, put_row)
              (overlay_row-other base patch x y sized ty qy qx py 0 patch.width out hy hp
                (omega arith) hqy hqx full
                (λ px low high h e. missed px (omega (arith, high)) h (cc (at, e))))
      ]

  put_row-hit :
      (py px ty tx : ℕ) (out : List ℕ)
      → py < patch.height
      → px < patch.width
      → IsFull base out
      → inside (y +ℤ pos py) base.height ≡ some ty
      → inside (x +ℤ pos px) base.width ≡ some tx
      → bytes_at (ty * base.width + tx) (put_row base patch x y py out) ≡ pixel patch px py
  unfolding put_row
  put_row-hit py px ty tx out hp hx full at_y at_x =
      let hy = (inside-pos (y +ℤ pos py) base.height ty at_y).1 in
      rw (at_y, put_row)
        (overlay_row-hit base patch x y sized ty tx py px 0 patch.width out hy hp (omega arith)
          (omega arith) (omega (arith, hx)) full at_x)

  overlay_rows-IsFull :
      (start count : ℕ) (out : List ℕ)
      → start + count ≤ patch.height
      → IsFull base out
      → IsFull base (overlay_rows base patch x y start count out)
  unfolding overlay_rows
  overlay_rows-IsFull start zero out le full = full
  overlay_rows-IsFull start (suc count) out le full =
      overlay_rows-IsFull (start + 1) count (put_row base patch x y start out) (omega (arith, le))
        (put_row-IsFull start out (omega (arith, le)) full)

  overlay_rows-other :
      (start count qx qy : ℕ) (out : List ℕ)
      → start + count ≤ patch.height
      → qy < base.height
      → qx < base.width
      → IsFull base out
      → Missed start count qx qy
      → bytes_at (qy * base.width + qx) (overlay_rows base patch x y start count out)
        ≡ bytes_at (qy * base.width + qx) out
  unfolding overlay_rows
  overlay_rows-other start zero qx qy out le hqy hqx full missed = refl
  overlay_rows-other start (suc count) qx qy out le hqy hqx full missed =
      overlay_rows-other (start + 1) count qx qy (put_row base patch x y start out)
        (omega (arith, le)) hqy hqx (put_row-IsFull start out (omega (arith, le)) full)
        (λ px py hx low high. missed px py hx (omega (arith, low)) (omega (arith, high)))
      ∙ put_row-other start qx qy out (omega (arith, le)) hqy hqx full
          (λ px hx. missed px start hx (omega arith) (omega arith))

  overlay_rows-hit :
      (start count px py tx ty : ℕ) (out : List ℕ)
      → start + count ≤ patch.height
      → px < patch.width
      → start ≤ py
      → py < start + count
      → IsFull base out
      → inside (x +ℤ pos px) base.width ≡ some tx
      → inside (y +ℤ pos py) base.height ≡ some ty
      → bytes_at (ty * base.width + tx) (overlay_rows base patch x y start count out)
        ≡ pixel patch px py
  unfolding overlay_rows
  overlay_rows-hit start zero px py tx ty out le hx low high full at_x at_y =
      absurd (omega (arith, low, high))
  overlay_rows-hit start (suc count) px py tx ty out le hx low high full at_x at_y =
      let hy = (inside-pos (y +ℤ pos py) base.height ty at_y).1 in
      let lt = (inside-pos (x +ℤ pos px) base.width tx at_x).1 in
      let next = put_row base patch x y start out in
      let full' = put_row-IsFull start out (omega (arith, le)) full in
      elim (Bool-cases (ltb start py)) [
        | inl later ↦
            overlay_rows-hit (start + 1) count px py tx ty next (omega (arith, le)) hx
              (omega (arith, ltb→lt start py later)) (omega (arith, high)) full' at_x at_y
        | inr now ↦
            let here : py ≡ start = ground (arith, low, now) in
            let at' : inside (y +ℤ pos start) base.height ≡ some ty = rw (← here) at_y in
            overlay_rows-other (start + 1) count tx ty next (omega (arith, le)) hy lt full'
              (λ i j hi lo hj h h'.
                absurd (
                  let e = inside-injective y j start base.height ty h' at' in omega (arith, lo, e)))
            ∙ rw here (put_row-hit start px ty tx out (omega (arith, le)) hx full at' at_x)
      ]

  -- An image of the size that its buffer has, laid over another such: the result has the size of the
  -- base; where a pixel of the patch falls inside of the base, at its column and row shifted by the
  -- position, it is the pixel there, and where none falls the pixel is that of the base.
  pub overlay-pixel :
      IsFull base base.pixels
      → (result : RgbImage) × (overlay base patch x y ≡ ok result)
        × (result.width ≡ base.width)
        × (result.height ≡ base.height)
        × ((px py tx ty : ℕ)
            → px < patch.width
            → py < patch.height
            → inside (x +ℤ pos px) base.width ≡ some tx
            → inside (y +ℤ pos py) base.height ≡ some ty
            → pixel result tx ty ≡ pixel patch px py)
        × ((qx qy : ℕ)
            → qx < base.width
            → qy < base.height
            → Missed 0 patch.height qx qy
            → pixel result qx qy ≡ pixel base qx qy)
  unfolding overlay new_image
  overlay-pixel full =
      let bytes = overlay_rows base patch x y 0 patch.height base.pixels in
      let size = overlay_rows-IsFull 0 patch.height base.pixels (omega arith) full in
      let fits : (length bytes == base.width * base.height * 3) ≡ true = ground (arith, size) in
      (
        record { width = base.width; height = base.height; pixels = bytes },
        rw (fits, overlay) refl,
        refl,
        refl,
        λ px py tx ty hx hy at_x at_y.
            overlay_rows-hit 0 patch.height px py tx ty base.pixels (omega arith) hx (omega arith)
              (omega (arith, hy)) full at_x at_y,
        λ qx qy hx hy missed.
            overlay_rows-other 0 patch.height qx qy base.pixels (omega arith) hy hx full missed,
      )
