-- ===== src/Image/Filter.antt =====
-- src/tryops/simple_image.py: `_paeth_predictor` and `_unfilter_png_scanline`.
use try_ops_try_on_mlops.Base.{
  ℕ, ◌+◌, ◌-◌, ◌/◌, ◌%◌, leb, nat_eq, Bool, ◌&&◌, List, [], ◌∷◌, ◌++◌, length, if◌then◌else◌, ◌==◌,
}
use try_ops_try_on_mlops.Base.Result.{Result, raised, ok}
use try_ops_try_on_mlops.Image.Bytes.{at_or}

-- `abs(estimate - v)` for `estimate = left + up - upper_left`
abbrev pub distance : ℕ → ℕ → ℕ → ℕ → ℕ
distance left up upper_left v = (left + up - (upper_left + v)) + (upper_left + v - (left + up))

unfoldable pub paeth_predictor : ℕ → ℕ → ℕ → ℕ
paeth_predictor left up upper_left =
    let to_left : ℕ = distance left up upper_left left in
    let to_up : ℕ = distance left up upper_left up in
    let to_upper_left : ℕ = distance left up upper_left upper_left in
    if leb to_left to_up && leb to_left to_upper_left
    then left
    else if leb to_up to_upper_left
    then up
    else upper_left

-- the branches for the filter types 1 to 4
unfoldable pub predictor : ℕ → ℕ → ℕ → ℕ → ℕ
unfolding paeth_predictor
predictor filter_type left up upper_left =
    if filter_type == 1
    then left
    else if filter_type == 2
    then up
    else if filter_type == 3
    then (left + up) / 2
    else paeth_predictor left up upper_left

-- The predictor at the next index, of what stands in `output` so far. A row and the one above it have one
-- length, or there is none above, so a read out of range is that of an empty row.
abbrev pub predicted : ℕ → List ℕ → ℕ → List ℕ → ℕ
predicted filter_type previous_row bytes_per_pixel output =
    let index : ℕ = length output in
    let inside : Bool = leb bytes_per_pixel index in
    predictor filter_type (if inside then at_or output (index - bytes_per_pixel) 0 else 0)
      (at_or previous_row index 0)
      (if inside then at_or previous_row (index - bytes_per_pixel) 0 else 0)

-- the loop over `row`
unfoldable pub unfilter_loop : ℕ → List ℕ → ℕ → List ℕ → List ℕ → List ℕ
unfolding predictor
unfilter_loop filter_type previous_row bytes_per_pixel output [] = output
unfilter_loop filter_type previous_row bytes_per_pixel output (value ∷ row) =
    unfilter_loop filter_type previous_row bytes_per_pixel
      (output ++ ((value + predicted filter_type previous_row bytes_per_pixel output) % 256) ∷ [])
      row

unfoldable pub unfilter_png_scanline : ℕ → List ℕ → List ℕ → ℕ → Result (List ℕ)
unfolding unfilter_loop
unfilter_png_scanline filter_type row previous_row bytes_per_pixel =
    if filter_type == 0
    then ok row
    else if leb filter_type 4
    then ok (unfilter_loop filter_type previous_row bytes_per_pixel [] row)
    else raised "unsupported PNG filter type"
