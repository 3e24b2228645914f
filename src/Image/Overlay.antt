-- ===== src/Image/Overlay.antt =====
-- src/tryops/simple_image.py: `overlay`, which copies one image into another at a position that may
-- lie outside of it.
use try_ops_try_on_mlops.Base.{
  ℕ, zero, suc, ◌+◌, ◌*◌, nat_eq, Option, none, some, List, ◌++◌, take, drop, ltb, if◌then◌else◌,
}
use try_ops_try_on_mlops.Base.Int.{ℤ, pos, negsuc, ◌+ℤ◌}
use try_ops_try_on_mlops.Base.Result.{Result}
use try_ops_try_on_mlops.Image.Png.{RgbImage, new_image}
use try_ops_try_on_mlops.Image.Resize.{pixel}

-- `if t < 0 or t >= size: continue`
abbrev pub inside : ℤ → ℕ → Option ℕ
inside (pos n) size = if ltb n size then some n else none
inside (negsuc n) size = none

-- `output[i : i + 3] = bytes`
abbrev pub splice : ℕ → List ℕ → List ℕ → List ℕ
splice i bytes out = take i out ++ (bytes ++ drop (i + 3) out)

module _ (base patch : RgbImage) (x y : ℤ) where
  -- one round of the inner loop
  abbrev pub put_pixel : ℕ → ℕ → ℕ → List ℕ → List ℕ
  put_pixel target_y patch_y patch_x out = elim (inside (x +ℤ pos patch_x) base.width) [
    | none ↦ out
    | some target_x ↦
        splice ((target_y * base.width + target_x) * 3) (pixel patch patch_x patch_y) out
  ]

  unfoldable pub overlay_row : ℕ → ℕ → ℕ → ℕ → List ℕ → List ℕ
  overlay_row target_y patch_y start zero out = out
  overlay_row target_y patch_y start (suc count) out =
      overlay_row target_y patch_y (start + 1) count (put_pixel target_y patch_y start out)

  -- one round of the outer loop
  unfoldable pub put_row : ℕ → List ℕ → List ℕ
  unfolding overlay_row
  put_row patch_y out = elim (inside (y +ℤ pos patch_y) base.height) [
    | none ↦ out
    | some target_y ↦ overlay_row target_y patch_y 0 patch.width out
  ]

  unfoldable pub overlay_rows : ℕ → ℕ → List ℕ → List ℕ
  unfolding put_row
  overlay_rows start zero out = out
  overlay_rows start (suc count) out = overlay_rows (start + 1) count (put_row start out)

  unfoldable pub overlay : Result RgbImage
  unfolding overlay_rows new_image
  overlay = new_image base.width base.height (overlay_rows 0 patch.height base.pixels)
