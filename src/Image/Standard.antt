-- ===== src/Image/Standard.antt =====
-- The filters of the PNG standard (section "Filtering" of its text), which no code of the program applies.
use try_ops_try_on_mlops.Base.{
  ℕ, ◌+◌, ◌-◌, ◌*◌, ◌/◌, ◌%◌, nat_eq, ltb, ◌||◌, if◌then◌else◌, List, [], ◌∷◌,
}
use try_ops_try_on_mlops.Image.Bytes.{at_or}

-- the standard's filter types
pub data PngFilter : Type 0 where
  unfiltered sub up average paeth : PngFilter

abbrev pub filter_code : PngFilter → ℕ
filter_code unfiltered = 0
filter_code sub = 1
filter_code up = 2
filter_code average = 3
filter_code paeth = 4

abbrev pub difference : ℕ → ℕ → ℕ
difference m n = (m - n) + (n - m)

-- The standard's Paeth function: the byte nearest to `a + b - c`, in the order `a`, `b`, `c` where
-- two are as near. Its distances from them are those of `b` from `c`, of `a` from `c`, and of `a + b` from `2 c`.
abbrev pub paeth_of : ℕ → ℕ → ℕ → ℕ
paeth_of a b c =
    let pa : ℕ = difference b c in
    let pb : ℕ = difference a c in
    let pc : ℕ = difference (a + b) (2 * c) in
    if ltb pb pa || ltb pc pa then (if ltb pc pb then c else b) else a

-- what a filter takes from a byte, by the byte to the left, the one above, and the one above that to the left
abbrev pub prediction : PngFilter → ℕ → ℕ → ℕ → ℕ
prediction unfiltered a b c = 0
prediction sub a b c = a
prediction up a b c = b
prediction average a b c = (a + b) / 2
prediction paeth a b c = paeth_of a b c

-- the byte of a row that stands a pixel to the left of an index
abbrev pub left_of : List ℕ → ℕ → ℕ → ℕ
left_of row bytes_per_pixel i =
    if ltb i bytes_per_pixel then 0 else at_or row (i - bytes_per_pixel) 0

-- the bytes `rest` of a row from the index `i` on, each less its prediction
abbrev pub filter_from : PngFilter → List ℕ → List ℕ → ℕ → ℕ → List ℕ → List ℕ
filter_from t row above bytes_per_pixel i [] = []
filter_from t row above bytes_per_pixel i (x ∷ rest) =
    let p : ℕ =
      prediction t (left_of row bytes_per_pixel i) (at_or above i 0)
        (left_of above bytes_per_pixel i) in
    ((x + 256 - p) % 256) ∷ filter_from t row above bytes_per_pixel (i + 1) rest

-- a row as a filter encodes it
abbrev pub filtered : PngFilter → List ℕ → List ℕ → ℕ → List ℕ
filtered t row above bytes_per_pixel = filter_from t row above bytes_per_pixel 0 row
