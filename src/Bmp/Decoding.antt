-- ===== src/Bmp/Decoding.antt =====
-- kernel/src/library/bitmap.rs: a file that was written from a picture is read as that picture.
use Prim.Native.Nat.{bit_and}
use heine_os.Prelude.{
  ℕ, zero, suc, ◌+◌, ◌-◌, ◌*◌, ◌/◌, ◌%◌, ◌^◌, ◌≤◌, ◌<◌, ◌≡◌, ◌≢◌, refl, ap, ap₂, subst, ◌∙◌, true,
  false, Option, none, some, List, [], ◌∷◌, ◌++◌, length, length-append, take, drop, take-append,
  if◌then◌else◌, ltb, ◌==◌, ==_iff, Bool_false, not, ◌||◌, Outcome, done, panics, ◌>>=◌, arith,
}
use native.Mathlib.Nat.{mod-eq_of_lt}
use heine_os.Prelude.Bits.{bit_and_high}
use heine_os.Framebuffer.Pictures.{Bitmap}
use heine_os.Bmp.{
  data_offset, width, height, color_planes, bits_per_pixel, has_signature, as_usize, color,
  pixels_of, padded, read_rows, read_pixels, from_bytes,
}

-- A pixel is its red, green and blue; a row of a file is that of its pixels and what fills it up.
abbrev pub Pixel : Type 0
Pixel = ℕ × ℕ × ℕ

abbrev pub pixel_bytes : List Pixel → List ℕ
pixel_bytes [] = []
pixel_bytes ((r, g, b) ∷ pixels) = b ∷ g ∷ r ∷ pixel_bytes pixels

abbrev pub pixel_colors : List Pixel → List ℕ
pixel_colors [] = []
pixel_colors ((r, g, b) ∷ pixels) = color r g b 255 ∷ pixel_colors pixels

abbrev pub Row : Type 0
Row = List Pixel × List ℕ

abbrev pub rows_bytes : List Row → List ℕ
rows_bytes [] = []
rows_bytes ((pixels, filling) ∷ rows) = (pixel_bytes pixels ++ filling) ++ rows_bytes rows

abbrev pub rows_colors : List Row → List ℕ
rows_colors [] = []
rows_colors ((pixels, filling) ∷ rows) = pixel_colors pixels ++ rows_colors rows

-- All rows have so many pixels, and are filled up to the next multiple of 4.
abbrev pub AllRows : ℕ → List Row → Type 0
AllRows w [] = Unit
AllRows w ((pixels, filling) ∷ rows) =
    (length pixels ≡ w) × (length filling ≡ (w * 3 + 3) / 4 * 4 - w * 3) × AllRows w rows

pixels_of-pixel_bytes : (pixels : List Pixel) → pixels_of (pixel_bytes pixels) ≡ pixel_colors pixels
unfolding pixels_of
pixels_of-pixel_bytes [] = refl
pixels_of-pixel_bytes ((r, g, b) ∷ pixels) =
    ap (λ l. color r g b 255 ∷ l) (pixels_of-pixel_bytes pixels)

length-pixel_bytes : (pixels : List Pixel) → length (pixel_bytes pixels) ≡ length pixels * 3
length-pixel_bytes [] = refl
length-pixel_bytes ((r, g, b) ∷ pixels) = omega (arith, length-pixel_bytes pixels)

drop-append : (xs ys : List ℕ) → drop (length xs) (xs ++ ys) ≡ ys
drop-append [] ys = refl
drop-append (x ∷ xs) ys = drop-append xs ys

not_below : (a b : ℕ) → b ≤ a → ltb a b ≡ false
not_below a b h = ground arith

-- One chunk.
read_row :
    (rounds : ℕ) (row bytes : List ℕ) (n k : ℕ)
    → 0 < n
    → length row ≡ n
    → k ≤ n
    → read_rows (suc rounds) n k (row ++ bytes)
      ≡ (read_rows rounds n k bytes >>= λ rest. done (pixels_of (take k row) ++ rest))
unfolding read_rows
read_row rounds [] bytes n k p e h = absurd (omega arith)
read_row rounds (x ∷ xs) bytes n k p e h =
    let row : List ℕ = x ∷ xs in
    let t : take n (row ++ bytes) ≡ row =
      subst (λ (m : ℕ). take m (row ++ bytes) ≡ row) e (take-append row bytes) in
    let d : drop n (row ++ bytes) ≡ bytes =
      subst (λ (m : ℕ). drop m (row ++ bytes) ≡ bytes) e (drop-append row bytes) in
    let long : ltb (length row) k ≡ false = not_below (length row) k (omega arith) in
    rw (t, d, long) refl

take-pixels :
    (pixels : List Pixel) (filling : List ℕ) (w : ℕ)
    → length pixels ≡ w
    → take (w * 3) (pixel_bytes pixels ++ filling) ≡ pixel_bytes pixels
take-pixels pixels filling w e =
    ap (λ (n : ℕ). take n (pixel_bytes pixels ++ filling))
      (omega (arith, length-pixel_bytes pixels))
    ∙ take-append (pixel_bytes pixels) filling

-- All chunks.
read_rows_lem :
    (w : ℕ) (rows : List Row) (rounds : ℕ)
    → 0 < w
    → AllRows w rows
    → length (rows_bytes rows) ≤ rounds
    → read_rows rounds ((w * 3 + 3) / 4 * 4) (w * 3) (rows_bytes rows) ≡ done (rows_colors rows)
unfolding read_rows
read_rows_lem w [] zero p h l = refl
read_rows_lem w [] (suc rounds) p h l = refl
read_rows_lem w ((pixels, filling) ∷ rows) rounds p (e, f, h) l =
    let n : ℕ = (w * 3 + 3) / 4 * 4 in
    let row = pixel_bytes pixels ++ filling in
    let length_is : length row ≡ n =
      omega (arith, length-append (pixel_bytes pixels) filling, length-pixel_bytes pixels) in
    let total = length-append row (rows_bytes rows) in
    let one_less : rounds ≡ suc (rounds - 1) = omega arith in
    ap (λ (m : ℕ). read_rows m n (w * 3) (row ++ rows_bytes rows)) one_less
    ∙ read_row (rounds - 1) row (rows_bytes rows) n (w * 3) (omega arith) length_is (omega arith)
    ∙ ap (λ r. r >>= λ rest. done (pixels_of (take (w * 3) row) ++ rest))
        (read_rows_lem w rows (rounds - 1) p h (omega arith))
    ∙ ap (λ l. done (l ++ rows_colors rows))
        (ap pixels_of (take-pixels pixels filling w e) ∙ pixels_of-pixel_bytes pixels)

-- What the header of a file with these pixels says, and where they start.
pub record IsFile (w h : ℕ) (head : List ℕ) (bytes : List ℕ) : Type 0 where
  pub header_fits : 54 ≤ length head
  pub signed : has_signature bytes ≡ true
  pub offset_is : data_offset bytes ≡ length head
  pub width_is : width bytes ≡ w
  pub height_is : height bytes ≡ h
  pub planes_are : color_planes bytes ≡ 1
  pub bits_are : bits_per_pixel bytes ≡ 24

padded-room : (w : ℕ) → w < 2 ^ 31 → padded (w * 3) ≡ (w * 3 + 3) / 4 * 4
padded-room w small =
    ap (λ (n : ℕ). bit_and n (2 ^ 64 - 4)) (mod-eq_of_lt below)
    ∙ bit_and_high 2 64 (w * 3 + 3) (omega arith) below
  where
    below : w * 3 + 3 < 2 ^ 64
    below = omega arith

row_size_is : (w : ℕ) → w < 2 ^ 31 → as_usize w * 3 % 2 ^ 64 ≡ w * 3
row_size_is w small = ground arith

-- `read_pixels`, past its tests.
read_pixels-drop :
    (bytes : List ℕ) (k off n : ℕ)
    → data_offset bytes ≡ off
    → padded k ≡ n
    → off ≤ length bytes
    → n ≢ 0
    → read_pixels k bytes ≡ read_rows (length bytes) n k (drop off bytes)
unfolding read_pixels
read_pixels-drop bytes k off n e f inside z =
    ap₂
      (λ (o m : ℕ).
        if ltb (length bytes) o
        then panics
        else if m == 0
        then panics
        else read_rows (length bytes) m k (drop o bytes))
      e f
    ∙ rw (not_below (length bytes) off inside, Bool_false (n == 0) (λ t. z ((==_iff n 0).0 t))) refl

abbrev picture : ℕ → ℕ → List ℕ → Bitmap
picture w h pixels = record { bmp_width = w; bmp_height = h; pixel_data = pixels }

-- `from_bytes`, past its tests.
from_bytes-pixels :
    (w h : ℕ) (head bytes pixels : List ℕ)
    → w < 2 ^ 31
    → 54 ≤ length bytes
    → IsFile w h head bytes
    → read_pixels (w * 3) bytes ≡ done pixels
    → from_bytes bytes ≡ done (some (picture w h pixels))
unfolding from_bytes
from_bytes-pixels w h head bytes pixels small long file e =
    let refused : Outcome (Option Bitmap) = done none in
    let read : ℕ → ℕ → ℕ → Outcome (Option Bitmap) =
      (λ k x y. read_pixels k bytes >>= λ l. done (some (picture x y l))) in
    ap
      (λ b.
        if b
        then panics
        else if not (has_signature bytes)
        then refused
        else if not (color_planes bytes == 1) || not (bits_per_pixel bytes == 24)
        then refused
        else read (as_usize (width bytes) * 3 % 2 ^ 64) (width bytes) (height bytes))
      (not_below (length bytes) 54 long)
    ∙ ap
        (λ b.
          if not b
          then refused
          else if not (color_planes bytes == 1) || not (bits_per_pixel bytes == 24)
          then refused
          else read (as_usize (width bytes) * 3 % 2 ^ 64) (width bytes) (height bytes))
        file.signed
    ∙ ap₂
        (λ (c d : ℕ).
          if not (c == 1) || not (d == 24)
          then refused
          else read (as_usize (width bytes) * 3 % 2 ^ 64) (width bytes) (height bytes))
        file.planes_are file.bits_are
    ∙ ap₂ (λ (x y : ℕ). read (as_usize x * 3 % 2 ^ 64) x y) file.width_is file.height_is
    ∙ ap (λ (k : ℕ). read k w h) (row_size_is w small)
    ∙ ap (λ r. r >>= λ l. done (some (picture w h l))) e

-- A file with a header of 54 bytes or more and 24 bits for a pixel, whose rows of w pixels, for a
-- positive w below 2^31, stand behind the header and are filled up to a multiple of 4, is read as
-- the picture that has the pixels of the rows in this order, as 32-bit colors with alpha 255, and
-- the width and height of the header.
pub from_bytes-rows :
    (w h : ℕ) (head : List ℕ) (rows : List Row)
    → 0 < w
    → w < 2 ^ 31
    → AllRows w rows
    → IsFile w h head (head ++ rows_bytes rows)
    → from_bytes (head ++ rows_bytes rows)
      ≡ done (some (record { bmp_width = w; bmp_height = h; pixel_data = rows_colors rows }))
from_bytes-rows w h head rows p small all file =
    let body = rows_bytes rows in
    let bytes = head ++ body in
    let n : ℕ = (w * 3 + 3) / 4 * 4 in
    let long = length-append head body in
    let pixels : read_pixels (w * 3) bytes ≡ done (rows_colors rows) =
      read_pixels-drop bytes (w * 3) (length head) n file.offset_is (padded-room w small)
        (omega arith) (omega arith)
      ∙ ap (read_rows (length bytes) n (w * 3)) (drop-append head body)
      ∙ read_rows_lem w rows (length bytes) p all (omega arith) in
    from_bytes-pixels w h head bytes (rows_colors rows) small (omega (arith, file.header_fits)) file
      pixels
