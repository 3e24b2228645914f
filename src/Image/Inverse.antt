-- ===== src/Image/Inverse.antt =====
-- `_unfilter_png_scanline` undoes the filters of the PNG standard.
use try_ops_try_on_mlops.Base.{ℕ, ◌≤◌, nat_eq, ◌≡◌, List, arith, ◌⊎◌}
use try_ops_try_on_mlops.Image.Filter.{distance, paeth_predictor}

-- The Paeth predictor is one of the three bytes, and no other of them is nearer to the estimate.
paeth_predictor-nearest :
    (a b c : ℕ)
    → let p = paeth_predictor a b c in
      let d = distance a b c in
      ((p ≡ a) ⊎ (p ≡ b) ⊎ (p ≡ c)) × (d p ≤ d a) × (d p ≤ d b) × (d p ≤ d c)
unfolding paeth_predictor
paeth_predictor-nearest a b c = ground arith
