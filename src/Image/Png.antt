-- ===== src/Image/Png.antt =====
-- src/tryops/simple_image.py: `read_png_rgb` and `write_png_rgb` on the bytes of a file. zlib and its CRC are
-- parameters. An exception's text stands without the value that the source puts into it.
use try_ops_try_on_mlops.Base.{
  ℕ, zero, suc, ◌+◌, ◌*◌, ◌%◌, ltb, nat_eq, true, false, not, ◌||◌, Option, none, some, List, [],
  ◌∷◌, ◌++◌, length, take, drop, is_empty, if◌then◌else◌, ◌==◌,
}
use try_ops_try_on_mlops.Base.Result.{Result, raised, ok, ◌>>=◌, ◌>>◌, raise_if, or_raise}
use try_ops_try_on_mlops.Image.Bytes.{byte_at, same_bytes, unpack_u32, u32_bytes, pack_u32}
use try_ops_try_on_mlops.Image.Filter.{unfilter_png_scanline}

-- `crc32 bytes start` is `binascii.crc32`; `decompress` is `none` where zlib raises.
pub record Zlib : Type 0 where
  pub compress : List ℕ → List ℕ
  pub decompress : List ℕ → Option (List ℕ)
  pub crc32 : List ℕ → ℕ → ℕ

pub record RgbImage : Type 0 where
  pub width : ℕ
  pub height : ℕ
  pub pixels : List ℕ

-- `RgbImage(...)`, with the test of `__post_init__`
unfoldable pub new_image : ℕ → ℕ → List ℕ → Result RgbImage
new_image width height pixels =
    if length pixels == width * height * 3
    then ok (record { width = width; height = height; pixels = pixels })
    else raised "pixel buffer has the wrong size"

abbrev pub signature : List ℕ
signature = 0x89 ∷ b'P' ∷ b'N' ∷ b'G' ∷ 13 ∷ 10 ∷ 0x1a ∷ 10 ∷ []

abbrev pub ihdr_type : List ℕ
ihdr_type = b'I' ∷ b'H' ∷ b'D' ∷ b'R' ∷ []

abbrev pub idat_type : List ℕ
idat_type = b'I' ∷ b'D' ∷ b'A' ∷ b'T' ∷ []

abbrev pub iend_type : List ℕ
iend_type = b'I' ∷ b'E' ∷ b'N' ∷ b'D' ∷ []

-- width, height and colour type of an IHDR chunk that has been read
pub record Header : Type 0 where
  pub width : ℕ
  pub height : ℕ
  pub color_type : ℕ

-- what the loop over the chunks fills in
pub record Chunks : Type 0 where
  pub header : Option Header
  pub idat_parts : List (List ℕ)

-- the branch of an IHDR chunk
unfoldable pub read_ihdr : List ℕ → Result Header
read_ihdr chunk_data = do
  width ← unpack_u32 (take 4 chunk_data)
  height ← unpack_u32 (take 4 (drop 4 chunk_data))
  bit_depth ← byte_at chunk_data 8
  color_type ← byte_at chunk_data 9
  raise_if (not (bit_depth == 8)) "only 8-bit PNG images are supported"
  raise_if (not (color_type == 0 || color_type == 2 || color_type == 6))
      "only grayscale, RGB, and RGBA PNG images are supported"
  compression ← byte_at chunk_data 10
  raise_if (not (compression == 0)) "unsupported PNG compression or filter method"
  filter_method ← byte_at chunk_data 11
  raise_if (not (filter_method == 0)) "unsupported PNG compression or filter method"
  interlace_method ← byte_at chunk_data 12
  raise_if (not (interlace_method == 0)) "interlaced PNG images are not supported"
  ok (record { width = width; height = height; color_type = color_type })

-- what a chunk adds to what has been found; `none` is the `break`
unfoldable pub take_chunk : List ℕ → List ℕ → Chunks → Result (Option Chunks)
unfolding read_ihdr
take_chunk chunk_type chunk_data found =
    if same_bytes chunk_type ihdr_type
    then (read_ihdr chunk_data >>= λ h. ok (some (record found { header = some h })))
    else if same_bytes chunk_type idat_type
    then ok (some (record found { idat_parts = found.idat_parts ++ chunk_data ∷ [] }))
    else if same_bytes chunk_type iend_type
    then ok none
    else ok (some found)

-- The `while` loop, on the bytes from `offset` on. Each round takes twelve bytes at least, or all that are left.
unfoldable pub read_chunks : ℕ → List ℕ → Chunks → Result Chunks
unfolding take_chunk
read_chunks zero rest found = ok found
read_chunks (suc fuel) rest found = elim (ltb (length rest) 8) [
  | true ↦ ok found
  | false ↦ do
    n ← unpack_u32 (take 4 rest)
    more ← take_chunk (take 4 (drop 4 rest)) (take n (drop 8 rest)) found
    elim more [ none ↦ ok found | some found' ↦ read_chunks fuel (drop (12 + n) rest) found' ]
]

-- `{0: 1, 2: 3, 6: 4}[color_type]`
abbrev pub channels_of : ℕ → ℕ
channels_of color_type = if color_type == 0 then 1 else if color_type == 2 then 3 else 4

abbrev pub gray_rgb : List ℕ → List ℕ
gray_rgb [] = []
gray_rgb (value ∷ row) = value ∷ value ∷ value ∷ gray_rgb row

abbrev pub rgba_rgb : List ℕ → List ℕ
rgba_rgb (r ∷ g ∷ b ∷ a ∷ row) = r ∷ g ∷ b ∷ rgba_rgb row
rgba_rgb _ = []

-- The bytes that a row adds to `rgb`, which is filled from its start on.
abbrev pub row_rgb : ℕ → List ℕ → List ℕ
row_rgb color_type row =
    if color_type == 0 then gray_rgb row else if color_type == 2 then row else rgba_rgb row

-- the `for` loop over the rows
unfoldable pub read_rows : ℕ → ℕ → ℕ → List ℕ → List ℕ → Result (List ℕ)
unfolding unfilter_png_scanline
read_rows zero row_bytes color_type source previous_row = ok []
read_rows (suc rows) row_bytes color_type source previous_row = do
  filter_type ← byte_at source 0
  let filtered_row = take row_bytes (drop 1 source)
  row ← unfilter_png_scanline filter_type filtered_row previous_row (channels_of color_type)
  rgb ← read_rows rows row_bytes color_type (drop (1 + row_bytes) source) row
  ok (row_rgb color_type row ++ rgb)

abbrev pub joined : List (List ℕ) → List ℕ
joined [] = []
joined (p ∷ ps) = p ++ joined ps

abbrev pub zeros : ℕ → List ℕ
zeros zero = []
zeros (suc n) = 0 ∷ zeros n

module _ (zlib : Zlib) where
  -- `read_png_rgb` behind its loop over the chunks
  unfoldable pub decode : Chunks → Result RgbImage
  unfolding read_rows new_image
  decode found = do
    h ← or_raise found.header "PNG IHDR chunk is missing"
    raise_if (is_empty found.idat_parts) "PNG IDAT chunk is missing"
    decompressed ←
        or_raise (zlib.decompress (joined found.idat_parts)) "Error while decompressing data"
    let row_bytes = h.width * channels_of h.color_type
    raise_if (not (length decompressed == h.height * (1 + row_bytes)))
        "unsupported PNG layout or corrupted IDAT data"
    rgb ← read_rows h.height row_bytes h.color_type decompressed (zeros row_bytes)
    new_image h.width h.height rgb

  unfoldable pub read_png_rgb : List ℕ → Result RgbImage
  unfolding read_chunks decode
  read_png_rgb bytes = do
    raise_if (not (same_bytes (take 8 bytes) signature)) "not a PNG file"
    found ← read_chunks (length bytes) (drop 8 bytes) (record { header = none; idat_parts = [] })
    decode found

  -- `_chunk`
  unfoldable pub chunk : List ℕ → List ℕ → Result (List ℕ)
  chunk chunk_type body = do
    size ← pack_u32 (length body)
    ok (
        size
        ++ (chunk_type
            ++ (body ++ u32_bytes (zlib.crc32 body (zlib.crc32 chunk_type 0) % 0x100000000))))

  -- the loop that fills `raw`, on the pixels from a row on
  abbrev pub raw_rows : ℕ → ℕ → List ℕ → List ℕ
  raw_rows zero row_bytes pixels = []
  raw_rows (suc rows) row_bytes pixels =
      0 ∷ (take row_bytes pixels ++ raw_rows rows row_bytes (drop row_bytes pixels))

  unfoldable pub write_png_rgb : RgbImage → Result (List ℕ)
  unfolding chunk
  write_png_rgb image = do
    width ← pack_u32 image.width
    height ← pack_u32 image.height
    ihdr ← chunk ihdr_type (width ++ (height ++ (8 ∷ 2 ∷ 0 ∷ 0 ∷ 0 ∷ [])))
    idat ← chunk idat_type (zlib.compress (raw_rows image.height (image.width * 3) image.pixels))
    iend ← chunk iend_type []
    ok (signature ++ (ihdr ++ (idat ++ iend)))
