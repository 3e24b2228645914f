-- ===== src/Image/Codec.antt =====
-- An image that has been written as a PNG file is read back.
use mathlib.Core.List.{append-nil}
use native.Mathlib.Nat.{suc-mul}
use try_ops_try_on_mlops.Base.{
  ℕ, zero, suc, ◌+◌, ◌*◌, ◌%◌, ◌<◌, nat_eq, true, ◌≡◌, refl, none, some, List, [], ◌∷◌, ◌++◌,
  length, take, drop, arith, lt→ltb, ap, ◌∙◌, length-append, length-take, length-drop_add, ◌==◌,
}
use try_ops_try_on_mlops.Base.Result.{ok}
use try_ops_try_on_mlops.Image.Bytes.{u32_bytes, from-u32_bytes, take-append, drop-append}
use try_ops_try_on_mlops.Image.Filter.{unfilter_png_scanline}
use try_ops_try_on_mlops.Image.Png.{
  Zlib, RgbImage, new_image, signature, ihdr_type, idat_type, iend_type, Header, Chunks, read_ihdr,
  take_chunk, read_chunks, read_rows, zeros, decode, read_png_rgb, chunk, raw_rows, write_png_rgb,
}
use try_ops_try_on_mlops.Image.Stream.{read_chunks_enough, written, read-written, read-iend}

append-take-drop : (n : ℕ) (xs : List ℕ) → take n xs ++ drop n xs ≡ xs
append-take-drop zero xs = refl
append-take-drop (suc n) [] = refl
append-take-drop (suc n) (x ∷ xs) = ap (λ (ys : List ℕ). x ∷ ys) (append-take-drop n xs)

-- The header that an image is written with.
abbrev image_header : RgbImage → Header
image_header image = record { width = image.width; height = image.height; color_type = 2 }

abbrev header_bytes : RgbImage → List ℕ
header_bytes image = u32_bytes image.width ++ (u32_bytes image.height ++ (8 ∷ 2 ∷ 0 ∷ 0 ∷ 0 ∷ []))

take-ihdr :
    (image : RgbImage) (found : Chunks)
    → image.width < 0x100000000
    → image.height < 0x100000000
    → take_chunk ihdr_type (header_bytes image) found
      ≡ ok (some (record found { header = some (image_header image) }))
unfolding take_chunk read_ihdr
take-ihdr image found w h =
    rw (from-u32_bytes image.width w) (rw (from-u32_bytes image.height h) refl)

take-idat :
    (body : List ℕ) (found : Chunks)
    → take_chunk idat_type body found
      ≡ ok (some (record found { idat_parts = found.idat_parts ++ body ∷ [] }))
unfolding take_chunk
take-idat body found = refl

module _ (zlib : Zlib) where
  length-raw_rows :
      (rows row_bytes : ℕ) (pixels : List ℕ)
      → length pixels ≡ rows * row_bytes
      → length (raw_rows zlib rows row_bytes pixels) ≡ rows * (1 + row_bytes)
  length-raw_rows zero row_bytes pixels h = omega arith
  length-raw_rows (suc rows) row_bytes pixels h =
      let all_rows : length pixels ≡ rows * row_bytes + row_bytes = h ∙ suc-mul rows row_bytes in
      let behind = length-drop_add row_bytes pixels (omega arith) in
      let rest = length-raw_rows rows row_bytes (drop row_bytes pixels) (omega arith) in
      omega (
        arith,
        rest,
        length-append {0} (take row_bytes pixels)
            (raw_rows zlib rows row_bytes (drop row_bytes pixels)),
        length-take {0} row_bytes pixels,
        suc-mul rows (1 + row_bytes),
      )

  read-raw_rows :
      (rows row_bytes : ℕ) (pixels above : List ℕ)
      → length pixels ≡ rows * row_bytes
      → read_rows rows row_bytes 2 (raw_rows zlib rows row_bytes pixels) above ≡ ok pixels
  unfolding read_rows unfilter_png_scanline
  read-raw_rows zero row_bytes [] above h = refl
  read-raw_rows zero row_bytes (p ∷ pixels) above h = absurd (omega arith)
  read-raw_rows (suc rows) row_bytes pixels above h =
      let all_rows : length pixels ≡ rows * row_bytes + row_bytes = h ∙ suc-mul rows row_bytes in
      let behind = length-drop_add row_bytes pixels (omega arith) in
      let first : List ℕ = take row_bytes pixels in
      let others : List ℕ = raw_rows zlib rows row_bytes (drop row_bytes pixels) in
      let wide : row_bytes ≡ length first = omega (arith, length-take {0} row_bytes pixels) in
      let row : take row_bytes (first ++ others) ≡ first =
        take-append first others row_bytes wide in
      let one_more : 1 + row_bytes ≡ suc row_bytes = omega arith in
      let next : drop (1 + row_bytes) (0 ∷ (first ++ others)) ≡ others =
        ap (λ (k : ℕ). drop k (0 ∷ (first ++ others))) one_more
        ∙ drop-append first others row_bytes wide in
      let rest = read-raw_rows rows row_bytes (drop row_bytes pixels) first (omega arith) in
      rw row (rw next (rw rest (ap ok (append-take-drop row_bytes pixels))))

  chunk-written :
      (chunk_type : List ℕ) (typed : length chunk_type ≡ 4) (body : List ℕ)
      → length body < 0x100000000
      → chunk zlib chunk_type body
        ≡ ok (
            written chunk_type typed body (zlib.crc32 body (zlib.crc32 chunk_type 0) % 0x100000000))
  unfolding chunk
  chunk-written chunk_type typed body small = rw (lt→ltb _ _ small) refl

  decode-raw :
      (image : RgbImage)
      → length image.pixels ≡ image.width * image.height * 3
      → ((bytes : List ℕ) → zlib.decompress (zlib.compress bytes) ≡ some bytes)
      → decode zlib (record {
        header = some (image_header image);
        idat_parts = zlib.compress (raw_rows zlib image.height (image.width * 3) image.pixels) ∷ [];
      })
        ≡ ok image
  unfolding decode new_image
  decode-raw image sized inverse =
      let raw : List ℕ = raw_rows zlib image.height (image.width * 3) image.pixels in
      let by_rows : length image.pixels ≡ image.height * (image.width * 3) = sized ∙ grind arith in
      let raw_size : (length raw == image.height * (1 + image.width * 3)) ≡ true =
        let e = length-raw_rows image.height (image.width * 3) image.pixels by_rows in
        ground (arith, e) in
      let size : (length image.pixels == image.width * image.height * 3) ≡ true =
        ground (arith, sized) in
      rw append-nil (
        rw (inverse raw) (
          rw raw_size (
            rw
              (read-raw_rows image.height (image.width * 3) image.pixels (zeros (image.width * 3))
                by_rows)
              (rw size refl))))

  -- Every image whose sizes, and whose compressed rows, fit the format's 32-bit fields is written, and
  -- reading what was written gives it back, if zlib undoes its own compression.
  pub read-write_png_rgb :
      (image : RgbImage)
      → length image.pixels ≡ image.width * image.height * 3
      → image.width < 0x100000000
      → image.height < 0x100000000
      → length (zlib.compress (raw_rows zlib image.height (image.width * 3) image.pixels))
        < 0x100000000
      → ((bytes : List ℕ) → zlib.decompress (zlib.compress bytes) ≡ some bytes)
      → (file : List ℕ) × (write_png_rgb zlib image ≡ ok file) × (read_png_rgb zlib file ≡ ok image)
  unfolding write_png_rgb read_png_rgb
  read-write_png_rgb image sized w h small inverse =
      let body : List ℕ =
        zlib.compress (raw_rows zlib image.height (image.width * 3) image.pixels) in
      let crc : List ℕ → List ℕ → ℕ = λ t b. zlib.crc32 b (zlib.crc32 t 0) % 0x100000000 in
      let ihdr : List ℕ =
        written ihdr_type refl (header_bytes image) (crc ihdr_type (header_bytes image)) in
      let idat : List ℕ = written idat_type refl body (crc idat_type body) in
      let iend : List ℕ = written iend_type refl [] (crc iend_type []) in
      let chunks : List ℕ = ihdr ++ (idat ++ iend) in
      let empty : Chunks = record { header = none; idat_parts = [] } in
      let headed : Chunks = record { header = some (image_header image); idat_parts = [] } in
      let filled : Chunks = record { header = some (image_header image); idat_parts = body ∷ [] } in
      let found : read_chunks (length (signature ++ chunks)) chunks empty ≡ ok filled =
        read_chunks_enough (length (signature ++ chunks)) (suc (suc (suc (length chunks)))) chunks
          empty (omega (arith, length-append {0} signature chunks)) (omega arith)
        ∙ read-written ihdr_type refl (header_bytes image) (crc ihdr_type (header_bytes image))
            (suc (suc (length chunks))) (idat ++ iend) empty headed (omega arith)
            (take-ihdr image empty w h)
        ∙ read-written idat_type refl body (crc idat_type body) (suc (length chunks)) iend headed
            filled small (take-idat body headed)
        ∙ read-iend (length chunks) (crc iend_type []) filled in
      (
        signature ++ chunks,
        simp (
          lt→ltb image.width 0x100000000 w,
          lt→ltb image.height 0x100000000 h,
          chunk-written idat_type refl body small,
        ),
        rw found (decode-raw image sized inverse),
      )
