-- ===== src/Bmp/Tests.antt =====
-- A file with two rows of one pixel, and three that are no pictures.
use heine_os.Prelude.{
  ℕ, ◌≡◌, refl, Option, none, some, List, [], ◌∷◌, ◌++◌, length, replicate, done, panics, arith,
}
use heine_os.Bmp.{from_bytes, color, read_pixels, read_rows, pixels_of}
use heine_os.Bmp.Decoding.{Row, rows_bytes, IsFile, from_bytes-rows}
use heine_os.Tarfs.{TarFs, find_entry}
use heine_os.Framebuffer.Pictures.{Bitmap}
use heine_os.Bmp.Files.{read_from_file, Reads, read_from_file-Reads}

abbrev header : List ℕ
header =
    66
    ∷ 77
    ∷ 62
    ∷ 0
    ∷ 0
    ∷ 0
    ∷ 0
    ∷ 0
    ∷ 0
    ∷ 0
    ∷ 54
    ∷ 0
    ∷ 0
    ∷ 0
    ∷ 40
    ∷ 0
    ∷ 0
    ∷ 0
    ∷ 1
    ∷ 0
    ∷ 0
    ∷ 0
    ∷ 2
    ∷ 0
    ∷ 0
    ∷ 0
    ∷ 1
    ∷ 0
    ∷ 24
    ∷ 0
    ∷ replicate 24 0

abbrev two_rows : List Row
two_rows = (((255, 0, 1) ∷ []), (0 ∷ [])) ∷ (((2, 3, 4) ∷ []), (0 ∷ [])) ∷ []

header-IsFile : IsFile 1 2 header (header ++ rows_bytes two_rows)
header-IsFile = record {
  header_fits = omega arith;
  signed = refl;
  offset_is = refl;
  width_is = refl;
  height_is = refl;
  planes_are = refl;
  bits_are = refl;
}

from_bytes-rows_example :
    from_bytes (header ++ rows_bytes two_rows)
    ≡ done (
        some (record {
          bmp_width = 1;
          bmp_height = 2;
          pixel_data = color 255 0 1 255 ∷ color 2 3 4 255 ∷ [];
        }))
from_bytes-rows_example =
    from_bytes-rows 1 2 header two_rows (omega arith) (omega arith) (refl, refl, (refl, refl, tt))
      header-IsFile

red : color 255 0 0 255 ≡ 4294901760
unfolding color
red = refl

empty_panics : from_bytes [] ≡ panics
unfolding from_bytes
empty_panics = refl

zeros_are_none : from_bytes (replicate 60 0) ≡ done none
unfolding from_bytes
zeros_are_none = refl

-- A row that is cut short.
short_row_panics : from_bytes (header ++ (1 ∷ 2 ∷ [])) ≡ panics
unfolding from_bytes read_pixels read_rows pixels_of
short_row_panics = refl

-- An archive of one file, whose name is `p`.
abbrev name_of : List ℕ → Option (List ℕ)
name_of entry = some (112 ∷ [])

abbrev file : List ℕ
file = header ++ rows_bytes two_rows

abbrev no_files : TarFs (List ℕ)
no_files = record { open_handles = []; next_handle = 0 }

abbrev two_pixels : Bitmap
two_pixels = record {
  bmp_width = 1;
  bmp_height = 2;
  pixel_data = color 255 0 1 255 ∷ color 2 3 4 255 ∷ [];
}

read_from_file-Reads_example :
    Reads no_files file file
      (some two_pixels)
      (read_from_file name_of (λ e. e) length (file ∷ []) no_files (112 ∷ []))
unfolding find_entry
read_from_file-Reads_example =
    read_from_file-Reads name_of (λ e. e) length (file ∷ []) no_files (112 ∷ []) file
      (some two_pixels) refl refl (omega arith) from_bytes-rows_example
