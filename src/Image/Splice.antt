-- ===== src/Image/Splice.antt =====
-- The buffer of an image after a pixel is written into it.
use try_ops_try_on_mlops.Base.{
  ℕ, zero, suc, ◌+◌, ◌-◌, ◌*◌, ◌≤◌, ◌<◌, nat_eq, ◌≡◌, ◌≢◌, refl, ap, sym, ◌∙◌, some, List, [], ◌∷◌,
  ◌++◌, length, take, drop, arith, ltb, inl, inr, ltb→lt, Bool-cases, length-append, length-take,
  length-drop_add,
}
use try_ops_try_on_mlops.Base.Int.{ℤ, pos, negsuc, ◌+ℤ◌}
use try_ops_try_on_mlops.Image.Bytes.{take-append, drop-append}
use try_ops_try_on_mlops.Image.Stream.{drop-drop}
use try_ops_try_on_mlops.Image.Png.{RgbImage}
use try_ops_try_on_mlops.Image.Resize.{take-drop-append, drop-append_add}
use try_ops_try_on_mlops.Image.Overlay.{inside, splice}

-- The bytes of the pixel at a place in the buffer.
abbrev pub bytes_at : ℕ → List ℕ → List ℕ
bytes_at k out = take 3 (drop (k * 3) out)

pub length-splice :
    (i : ℕ) (bytes out : List ℕ)
    → length bytes ≡ 3
    → i + 3 ≤ length out
    → length (splice i bytes out) ≡ length out
length-splice i bytes out three fits = omega (
  arith,
  length-append {0} (take i out) (bytes ++ drop (i + 3) out),
  length-append {0} bytes (drop (i + 3) out),
  length-take {0} i out,
  length-drop_add {0} (i + 3) out fits,
  three,
)

pub bytes_at-splice :
    (k : ℕ) (bytes out : List ℕ)
    → length bytes ≡ 3
    → k * 3 + 3 ≤ length out
    → bytes_at k (splice (k * 3) bytes out) ≡ bytes
bytes_at-splice k bytes out three fits =
    ap (λ (bs : List ℕ). take 3 bs)
      (drop-append (take (k * 3) out) (bytes ++ drop (k * 3 + 3) out) (k * 3)
        (omega (arith, length-take {0} (k * 3) out)))
    ∙ take-append bytes (drop (k * 3 + 3) out) 3 (sym three)

take-drop-take :
    (n r i : ℕ) (xs : List ℕ) → r + n ≤ i → take n (drop r (take i xs)) ≡ take n (drop r xs)
take-drop-take zero r i xs h = refl
take-drop-take (suc n) r zero xs h = absurd (omega (arith, h))
take-drop-take (suc n) zero (suc i) [] h = refl
take-drop-take (suc n) zero (suc i) (x ∷ xs) h =
    ap (λ (ys : List ℕ). x ∷ ys) (take-drop-take n zero i xs (omega (arith, h)))
take-drop-take (suc n) (suc r) (suc i) [] h = refl
take-drop-take (suc n) (suc r) (suc i) (x ∷ xs) h = take-drop-take (suc n) r i xs (omega (arith, h))

-- The other pixels are as before.
pub bytes_at-splice_other :
    (j k : ℕ) (bytes out : List ℕ)
    → j ≢ k
    → length bytes ≡ 3
    → k * 3 + 3 ≤ length out
    → j * 3 + 3 ≤ length out
    → bytes_at j (splice (k * 3) bytes out) ≡ bytes_at j out
bytes_at-splice_other j k bytes out ne three fits fits' = elim (Bool-cases (ltb j k)) [
  | inl before ↦
      take-drop-append 3 (j * 3) (take (k * 3) out) (bytes ++ drop (k * 3 + 3) out)
        (ground (arith, length-take {0} (k * 3) out, before, fits))
      ∙ take-drop-take 3 (j * 3) (k * 3) out (ground (arith, before))
  | inr behind ↦
      let after : k < j = ground (arith, behind, ne) in
      let m : ℕ = j * 3 - (k * 3 + 3) in
      let rest = drop (k * 3 + 3) out in
      let at : j * 3 ≡ length (take (k * 3) out) + (length bytes + m) =
        omega (arith, after, fits, three, length-take {0} (k * 3) out) in
      let back : m + (k * 3 + 3) ≡ j * 3 = omega (arith, after) in
      ap (λ (i : ℕ). take 3 (drop i (splice (k * 3) bytes out))) at
      ∙ ap (λ (bs : List ℕ). take 3 bs)
          (drop-append_add (length bytes + m) (take (k * 3) out) (bytes ++ rest)
            ∙ drop-append_add m bytes rest
            ∙ sym (drop-drop (k * 3 + 3) m out))
      ∙ ap (λ (i : ℕ). take 3 (drop i out)) back
]

places_lt : (r c r' c' w : ℕ) → r < r' → c < w → r * w + c < r' * w + c'
places_lt r c r' c' w h h' = grind arith

-- Two places of one image are apart if their rows or their columns are.
pub places_apart :
    (r c r' c' w : ℕ) → c < w → c' < w → r * w + c ≡ r' * w + c' → (r ≡ r') × (c ≡ c')
places_apart r c r' c' w h h' e = elim (Bool-cases (ltb r r')) [
  | inl lt ↦ absurd (let l = places_lt r c r' c' w (ltb→lt r r' lt) h in omega (arith, l, e))
  | inr ge ↦ elim (Bool-cases (ltb r' r)) [
    | inl lt ↦ absurd (let l = places_lt r' c' r c w (ltb→lt r' r lt) h' in omega (arith, l, e))
    | inr le ↦
        let same : r ≡ r' = ground (arith, ge, le) in
        let rows : r * w ≡ r' * w = rw same refl in (same, omega (arith, rows, e))
  ]
]

pub inside-pos : (z : ℤ) (size t : ℕ) → inside z size ≡ some t → (z ≡ pos t) × (t < size)
inside-pos (pos n) size t h = ground (arith, h)
inside-pos (negsuc n) size t h = cc

add_pos-injective : (x : ℤ) (i j t : ℕ) → x +ℤ pos i ≡ pos t → x +ℤ pos j ≡ pos t → i ≡ j
add_pos-injective (pos a) i j t hi hj = ground (arith, hi, hj)
add_pos-injective (negsuc a) i j t hi hj = ground (arith, hi, hj)

-- No two columns or rows of the patch fall on one of the base.
pub inside-injective :
    (x : ℤ) (i j size t : ℕ)
    → inside (x +ℤ pos i) size ≡ some t
    → inside (x +ℤ pos j) size ≡ some t
    → i ≡ j
inside-injective x i j size t hi hj =
    add_pos-injective x i j t (inside-pos (x +ℤ pos i) size t hi).0
      (inside-pos (x +ℤ pos j) size t hj).0

-- A buffer of the size of an image.
abbrev pub IsFull : RgbImage → List ℕ → Type 0
IsFull image out = length out ≡ image.width * image.height * 3
