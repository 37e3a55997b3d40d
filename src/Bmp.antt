-- ===== src/Bmp.antt =====
-- kernel/src/library/bitmap.rs: reading a picture from the bytes of a BMP file.
-- A file is the list of its bytes; of the header the fields that the code reads are modelled.
pub mod Decoding
pub mod Files
mod Tests
use Prim.Native.Nat.{bit_and, bit_or}
use heine_os.Prelude.{
  ℕ, zero, suc, ◌+◌, ◌-◌, ◌*◌, ◌%◌, ◌^◌, Bool, not, ◌&&◌, ◌||◌, Option, none, some, List, [], ◌∷◌,
  ◌++◌, length, get_or, take, drop, if◌then◌else◌, ltb, ◌==◌, Outcome, done, panics, ◌>>=◌,
}
use heine_os.Framebuffer.Pictures.{Bitmap}

-- Little-endian fields.
abbrev pub u16_at : List ℕ → ℕ → ℕ
u16_at bytes o = get_or bytes o 0 + get_or bytes (o + 1) 0 * 2 ^ 8

abbrev pub u32_at : List ℕ → ℕ → ℕ
u32_at bytes o = u16_at bytes o + u16_at bytes (o + 2) * 2 ^ 16

-- `BitmapFileHeader` and `BitmapInfoHeader`.
abbrev pub header_size : ℕ
header_size = 54

abbrev pub data_offset : List ℕ → ℕ
data_offset bytes = u32_at bytes 10

abbrev pub width : List ℕ → ℕ
width bytes = u32_at bytes 18

abbrev pub height : List ℕ → ℕ
height bytes = u32_at bytes 22

abbrev pub color_planes : List ℕ → ℕ
color_planes bytes = u16_at bytes 26

abbrev pub bits_per_pixel : List ℕ → ℕ
bits_per_pixel bytes = u16_at bytes 28

abbrev pub has_signature : List ℕ → Bool
has_signature bytes = get_or bytes 0 0 == 66 && get_or bytes 1 0 == 77

-- `i32 as usize`, for the bits of the `i32`.
abbrev pub as_usize : ℕ → ℕ
as_usize bits = if ltb bits (2 ^ 31) then bits else bits + (2 ^ 64 - 2 ^ 32)

unfoldable pub color : ℕ → ℕ → ℕ → ℕ → ℕ
color r g b a = bit_or (bit_or (bit_or (a * 2 ^ 24) (r * 2 ^ 16)) (g * 2 ^ 8)) b

-- `as_chunks::<3>().0`, and the map to colors.
unfoldable pub pixels_of : List ℕ → List ℕ
pixels_of (b ∷ g ∷ r ∷ bytes) = color r g b 255 ∷ pixels_of bytes
pixels_of _ = []

abbrev pub padded : ℕ → ℕ
padded row_size = bit_and ((row_size + 3) % 2 ^ 64) (2 ^ 64 - 4)

-- The chunks of so many bytes, for so many chunks at most; `row[..row_size]` panics where the row is
-- shorter.
unfoldable pub read_rows : ℕ → ℕ → ℕ → List ℕ → Outcome (List ℕ)
read_rows zero padded_row_size row_size bytes = done []
read_rows (suc rounds) padded_row_size row_size [] = done []
read_rows (suc rounds) padded_row_size row_size (b ∷ bytes) =
    let row = take padded_row_size (b ∷ bytes) in
    let rest = read_rows rounds padded_row_size row_size (drop padded_row_size (b ∷ bytes)) in
    if ltb (length row) row_size
    then panics
    else rest >>= λ pixels. done (pixels_of (take row_size row) ++ pixels)

-- `data[data_offset..].chunks(padded_row_size)`: chunks of no bytes panic.
unfoldable pub read_pixels : ℕ → List ℕ → Outcome (List ℕ)
read_pixels row_size bytes =
    if ltb (length bytes) (data_offset bytes)
    then panics
    else if padded row_size == 0
    then panics
    else read_rows (length bytes) (padded row_size) row_size (drop (data_offset bytes) bytes)

unfoldable pub from_bytes : List ℕ → Outcome (Option Bitmap)
from_bytes bytes =
    if ltb (length bytes) header_size
    then panics
    else if not (has_signature bytes)
    then done none
    else if not (color_planes bytes == 1) || not (bits_per_pixel bytes == 24)
    then done none
    else read_pixels (as_usize (width bytes) * 3 % 2 ^ 64) bytes >>= λ pixel_data. done (
        some
          (record { bmp_width = width bytes; bmp_height = height bytes; pixel_data = pixel_data }))
