-- ===== src/Image/Resize.antt =====
-- src/tryops/simple_image.py: `solid_rgb` and `resize_nearest`. Sizes are naturals.
use native.Mathlib.Nat.{suc-mul, zero-add, add-zero, div-lt_iff_lt-mul}
use try_ops_try_on_mlops.Base.{
  ℕ, zero, suc, ◌+◌, ◌-◌, ◌*◌, ◌/◌, ◌≤◌, ◌<◌, min, nat_eq, true, false, ◌||◌, ◌≡◌, refl, List, [],
  ◌∷◌, ◌++◌, length, take, drop, arith, ap, ◌∙◌, sym, length-append, length-take, length-drop_add,
  if◌then◌else◌, ◌==◌,
}
use try_ops_try_on_mlops.Base.Result.{Result, raised, ok}
use try_ops_try_on_mlops.Image.Png.{RgbImage, new_image}

-- what a `for` loop over `range(start, start + count)` appends
abbrev pub tabulate : (ℕ → List ℕ) → ℕ → ℕ → List ℕ
tabulate f start zero = []
tabulate f start (suc count) = f start ++ tabulate f (start + 1) count

unfoldable pub solid_rgb : ℕ → ℕ → List ℕ → Result RgbImage
unfolding new_image
solid_rgb width height rgb = new_image width height (tabulate (λ i. rgb) 0 (width * height))

-- The three bytes of a pixel.
abbrev pub pixel : RgbImage → ℕ → ℕ → List ℕ
pixel image x y = take 3 (drop ((y * image.width + x) * 3) image.pixels)

-- the pixel that the inner loop copies; `n - 1` is reached for an image without pixels only where there is
-- nothing to copy
abbrev pub source_pixel : RgbImage → ℕ → ℕ → ℕ → ℕ → List ℕ
source_pixel image width height y x =
    pixel image (min (image.width - 1) (x * image.width / width))
      (min (image.height - 1) (y * image.height / height))

abbrev pub resized_row : RgbImage → ℕ → ℕ → ℕ → List ℕ
resized_row image width height y = tabulate (source_pixel image width height y) 0 width

unfoldable pub resize_nearest : RgbImage → ℕ → ℕ → Result RgbImage
unfolding new_image
resize_nearest image width height =
    if width == 0 || height == 0
    then raised "target size must be positive"
    else new_image width height (tabulate (resized_row image width height) 0 height)

length-tabulate :
    (f : ℕ → List ℕ) (size start count : ℕ)
    → ((i : ℕ) → length (f i) ≡ size)
    → length (tabulate f start count) ≡ count * size
length-tabulate f size start zero sized = omega arith
length-tabulate f size start (suc count) sized = omega (
  arith,
  length-append {0} (f start) (tabulate f (start + 1) count),
  sized start,
  length-tabulate f size (start + 1) count sized,
  suc-mul count size,
)

pub take-drop-append :
    (n r : ℕ) (xs ys : List ℕ) → r + n ≤ length xs → take n (drop r (xs ++ ys)) ≡ take n (drop r xs)
take-drop-append zero zero xs ys h = refl
take-drop-append (suc n) zero [] ys h = absurd (omega arith)
take-drop-append (suc n) zero (x ∷ xs) ys h =
    ap (λ (zs : List ℕ). x ∷ zs) (take-drop-append n zero xs ys (omega arith))
take-drop-append n (suc r) [] ys h = absurd (omega arith)
take-drop-append n (suc r) (x ∷ xs) ys h = take-drop-append n r xs ys (omega arith)

pub drop-append_add : (r : ℕ) (xs ys : List ℕ) → drop (length xs + r) (xs ++ ys) ≡ drop r ys
drop-append_add r [] ys = ap (λ (k : ℕ). drop k ys) (omega arith)
drop-append_add r (x ∷ xs) ys =
    ap (λ (k : ℕ). drop k (x ∷ (xs ++ ys))) (one_more r xs) ∙ drop-append_add r xs ys
  where
    one_more : (r : ℕ) (xs : List ℕ) → suc (length xs) + r ≡ suc (length xs + r)
    one_more r xs = omega arith

-- Part of one block of a table of blocks of one size.
take-drop-tabulate :
    (f : ℕ → List ℕ) (size start count j r n : ℕ)
    → ((i : ℕ) → length (f i) ≡ size)
    → j < count
    → r + n ≤ size
    → take n (drop (j * size + r) (tabulate f start count)) ≡ take n (drop r (f (start + j)))
take-drop-tabulate f size start zero j r n sized lt le = absurd (omega arith)
take-drop-tabulate f size start (suc count) zero r n sized lt le =
    let here : zero * size + r ≡ r = omega arith in
    let same : start + zero ≡ start = omega arith in
    rw (here, same)
      (take-drop-append n r (f start) (tabulate f (start + 1) count) (omega (arith, sized start)))
take-drop-tabulate f size start (suc count) (suc j) r n sized lt le =
    let further : suc j * size + r ≡ length (f start) + (j * size + r) =
      omega (arith, suc-mul j size, sized start) in
    let same : start + 1 + j ≡ start + suc j = omega arith in
    ap (λ (k : ℕ). take n (drop k (tabulate f start (suc count)))) further
    ∙ ap (λ (bytes : List ℕ). take n bytes)
        (drop-append_add (j * size + r) (f start) (tabulate f (start + 1) count))
    ∙ take-drop-tabulate f size (start + 1) count j r n sized (omega arith) le
    ∙ ap (λ (k : ℕ). take n (drop r (f k))) same

div-lt : (x w width : ℕ) → 0 < w → x < width → x * w / width < w
div-lt x w width pos lt =
    let below : x * w < w * width = grind arith in (div-lt_iff_lt-mul (omega arith)).1 below

take-take : (n : ℕ) (xs : List ℕ) → take n (take n xs) ≡ take n xs
take-take zero xs = refl
take-take (suc n) [] = refl
take-take (suc n) (x ∷ xs) = ap (λ (ys : List ℕ). x ∷ ys) (take-take n xs)

pub in_range : (r c w h : ℕ) → r < h → c < w → (r * w + c) * 3 + 3 ≤ w * h * 3
in_range r c w h p q = grind arith

pub length-pixel :
    (image : RgbImage) (x y : ℕ)
    → length image.pixels ≡ image.width * image.height * 3
    → x < image.width
    → y < image.height
    → length (pixel image x y) ≡ 3
length-pixel image x y sized hx hy =
    let k = (y * image.width + x) * 3 in
    let fits = in_range y x image.width image.height hy hx in
    let le : k + 3 ≤ length image.pixels = omega arith in
    let behind = length-drop_add k image.pixels (omega arith) in
    omega (arith, length-take {0} 3 (drop k image.pixels))

module _ (image : RgbImage) (width height : ℕ)
    (sized : length image.pixels ≡ image.width * image.height * 3) (wide : 0 < image.width)
    (high : 0 < image.height) where
  length-source : (y x : ℕ) → length (source_pixel image width height y x) ≡ 3
  length-source y x =
      length-pixel image (min (image.width - 1) (x * image.width / width))
        (min (image.height - 1) (y * image.height / height)) sized (omega arith) (omega arith)

  length-row : (y : ℕ) → length (resized_row image width height y) ≡ width * 3
  length-row y = length-tabulate (source_pixel image width height y) 3 0 width (length-source y)

  -- An image with pixels is resized to any size that is not empty, and each pixel of the result is the pixel
  -- of the image at the position in proportion, rounded down.
  pub resize_nearest-pixel :
      0 < width
      → 0 < height
      → (resized : RgbImage) × (resize_nearest image width height ≡ ok resized)
        × (resized.width ≡ width)
        × (resized.height ≡ height)
        × ((x y : ℕ)
            → x < width
            → y < height
            → pixel resized x y ≡ pixel image (x * image.width / width) (y * image.height / height))
  unfolding resize_nearest new_image
  resize_nearest-pixel pw ph =
      let bytes : List ℕ = tabulate (resized_row image width height) 0 height in
      let resized : RgbImage = record { width = width; height = height; pixels = bytes } in
      let size : length bytes ≡ width * height * 3 =
        length-tabulate (resized_row image width height) (width * 3) 0 height length-row
        ∙ grind arith in
      let fits : (length bytes == width * height * 3) ≡ true = ground (arith, size) in
      let w0 : (width == 0) ≡ false = ground arith in
      let h0 : (height == 0) ≡ false = ground arith in
      (
        resized,
        rw (w0, h0) (rw fits refl),
        refl,
        refl,
        λ x y hx hy.
            let at : (y * width + x) * 3 ≡ y * (width * 3) + x * 3 = grind arith in
            let low_x = div-lt x image.width width wide hx in
            let low_y = div-lt y image.height height high hy in
            let least_x : min (image.width - 1) (x * image.width / width)
                ≡ x * image.width / width =
              omega arith in
            let least_y : min (image.height - 1) (y * image.height / height)
                ≡ y * image.height / height =
              omega arith in
            ap (λ (k : ℕ). take 3 (drop k bytes)) at
            ∙ take-drop-tabulate (resized_row image width height) (width * 3) 0 height y (x * 3) 3
                length-row hy (omega arith)
            ∙ ap (λ (k : ℕ). take 3 (drop (x * 3) (resized_row image width height k))) (zero-add y)
            ∙ ap (λ (k : ℕ). take 3 (drop k (resized_row image width height y)))
                (sym (add-zero (x * 3)))
            ∙ take-drop-tabulate (source_pixel image width height y) 3 0 width x 0 3
                (length-source y) hx (omega arith)
            ∙ ap (λ (k : ℕ). take 3 (source_pixel image width height y k)) (zero-add x)
            ∙ rw (least_x, least_y)
                (take-take 3 (
                  drop ((y * image.height / height * image.width + x * image.width / width) * 3)
                    image.pixels)),
      )
