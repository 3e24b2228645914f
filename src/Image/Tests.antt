-- ===== src/Image/Tests.antt =====
-- The images at concrete bytes. Nothing is compressed here, and the CRC is the number of bytes.
use try_ops_try_on_mlops.Base.{
  ℕ, ◌+◌, ◌*◌, ◌/◌, ◌<◌, ◌≡◌, refl, none, some, List, [], ◌∷◌, length, arith,
}
use try_ops_try_on_mlops.Base.Result.{ok}
use try_ops_try_on_mlops.Image.Png.{
  Zlib, RgbImage, Chunks, new_image, read_chunks, read_png_rgb, write_png_rgb,
}
use try_ops_try_on_mlops.Image.Stream.{read_chunks_enough}
use try_ops_try_on_mlops.Image.Codec.{read-write_png_rgb}
use try_ops_try_on_mlops.Base.Int.{pos, negsuc, ◌+ℤ◌}
use try_ops_try_on_mlops.Image.Overlay.{inside, overlay_row, put_row, overlay_rows, overlay}
use try_ops_try_on_mlops.Image.Overlaid.{Missed, overlay-pixel}
use try_ops_try_on_mlops.Image.Resize.{pixel, resize_nearest, resize_nearest-pixel}

abbrev above : List ℕ
above = 10 ∷ 20 ∷ 30 ∷ 250 ∷ 0 ∷ 7 ∷ []

abbrev below : List ℕ
below = 12 ∷ 255 ∷ 0 ∷ 3 ∷ 128 ∷ 9 ∷ []

abbrev nothing : Chunks
nothing = record { header = none; idat_parts = [] }

read_chunks_enough_example :
    read_chunks 13 (0 ∷ 0 ∷ 0 ∷ 1 ∷ b't' ∷ b'E' ∷ b'X' ∷ b't' ∷ 65 ∷ 1 ∷ 2 ∷ 3 ∷ 4 ∷ []) nothing
    ≡ read_chunks 90 (0 ∷ 0 ∷ 0 ∷ 1 ∷ b't' ∷ b'E' ∷ b'X' ∷ b't' ∷ 65 ∷ 1 ∷ 2 ∷ 3 ∷ 4 ∷ []) nothing
read_chunks_enough_example =
    read_chunks_enough 13 90 (0 ∷ 0 ∷ 0 ∷ 1 ∷ b't' ∷ b'E' ∷ b'X' ∷ b't' ∷ 65 ∷ 1 ∷ 2 ∷ 3 ∷ 4 ∷ [])
      nothing (omega arith) (omega arith)

abbrev stored : Zlib
stored = record {
  compress = λ bytes. bytes;
  decompress = λ bytes. some bytes;
  crc32 = λ bytes n. length bytes + n;
}

abbrev two_pixels : RgbImage
two_pixels = record { width = 2; height = 1; pixels = below }

read-write_png_rgb_example :
    (file : List ℕ) × (write_png_rgb stored two_pixels ≡ ok file)
    × (read_png_rgb stored file ≡ ok two_pixels)
read-write_png_rgb_example =
    read-write_png_rgb stored two_pixels refl (omega arith) (omega arith) (omega arith)
      (λ bytes. refl)

resize_nearest-pixel_example :
    (resized : RgbImage) × (resize_nearest two_pixels 5 3 ≡ ok resized)
    × (resized.width ≡ 5)
    × (resized.height ≡ 3)
    × ((x y : ℕ) → x < 5 → y < 3 → pixel resized x y ≡ pixel two_pixels (x * 2 / 5) (y * 1 / 3))
resize_nearest-pixel_example =
    resize_nearest-pixel two_pixels 5 3 refl (omega arith) (omega arith) (omega arith) (omega arith)

abbrev grey : RgbImage
grey = record { width = 2; height = 2; pixels = 9 ∷ 9 ∷ 9 ∷ 8 ∷ 8 ∷ 8 ∷ 7 ∷ 7 ∷ 7 ∷ 6 ∷ 6 ∷ 6 ∷ [] }

-- two pixels over each other
abbrev strip_of_two : RgbImage
strip_of_two = record { width = 1; height = 2; pixels = 1 ∷ 2 ∷ 3 ∷ 4 ∷ 5 ∷ 6 ∷ [] }

-- The upper pixel is above the base.
laid_over :
    overlay grey strip_of_two (pos 1) (negsuc 0)
    ≡ ok (record {
      width = 2;
      height = 2;
      pixels = 9 ∷ 9 ∷ 9 ∷ 4 ∷ 5 ∷ 6 ∷ 7 ∷ 7 ∷ 7 ∷ 6 ∷ 6 ∷ 6 ∷ [];
    })
unfolding overlay overlay_rows put_row overlay_row new_image
laid_over = refl

overlay-pixel_example :
    (result : RgbImage) × (overlay grey strip_of_two (pos 1) (negsuc 0) ≡ ok result)
    × (result.width ≡ 2)
    × (result.height ≡ 2)
    × ((px py tx ty : ℕ)
        → px < 1
        → py < 2
        → inside (pos 1 +ℤ pos px) 2 ≡ some tx
        → inside (negsuc 0 +ℤ pos py) 2 ≡ some ty
        → pixel result tx ty ≡ pixel strip_of_two px py)
    × ((qx qy : ℕ)
        → qx < 2
        → qy < 2
        → Missed grey strip_of_two (pos 1) (negsuc 0) refl 0 2 qx qy
        → pixel result qx qy ≡ pixel grey qx qy)
overlay-pixel_example = overlay-pixel grey strip_of_two (pos 1) (negsuc 0) refl refl
