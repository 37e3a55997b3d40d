-- ===== src/Framebuffer.antt =====
-- kernel/src/device/framebuffer.rs, with the 8x8 font: drawing on a linear framebuffer.
-- The memory gives each byte by its distance from the framebuffer's address. The table `DATA` of
-- kernel/src/device/font_8x8.rs is the parameter `font`; a character is its code point.

pub mod Inside
pub mod Scrolling
pub mod Pictures
use Prim.Native.Nat.{bit_and, bit_or}
use heine_os.Prelude.{
  ℕ, zero, suc, ◌+◌, ◌-◌, ◌*◌, ◌/◌, ◌^◌, Bool, true, false, ◌&&◌, ◌||◌, Option, none, some, List,
  [], ◌∷◌, length, get_elem?, take, drop, if◌then◌else◌, ltb, leb, ◌==◌, Outcome, done, panics,
  ◌>>=◌,
}

pub record Framebuffer : Type 0 where
  pub width : ℕ
  pub height : ℕ
  pub pitch : ℕ
  pub address : ℕ

abbrev pub Memory : Type 0
Memory = ℕ → ℕ

abbrev pub color : ℕ → ℕ → ℕ → ℕ
color red green blue = bit_or (bit_or (red * 2 ^ 16) (green * 2 ^ 8)) blue

abbrev pub black : ℕ
black = color 0 0 0

abbrev pub green : ℕ
green = color 0 170 0

abbrev pub char_width : ℕ
char_width = 8

abbrev pub char_height : ℕ
char_height = 8

-- What `multiboot::FramebufferInfo` says, and the types of framebuffers it knows.
pub data FramebufferType : Type 0 where
  indexed : FramebufferType
  rgb : FramebufferType
  text : FramebufferType

pub record FramebufferInfo : Type 0 where
  pub info_address : ℕ
  pub info_pitch : ℕ
  pub info_width : ℕ
  pub info_height : ℕ
  pub bpp : ℕ
  pub typ : FramebufferType

unfoldable pub from_multiboot : FramebufferInfo → Option Framebuffer
from_multiboot info = elim info.typ [
  | rgb ↦
      if info.bpp == 32
      then some (record {
        width = info.info_width;
        height = info.info_height;
        pitch = info.info_pitch;
        address = info.info_address;
      })
      else none
  | indexed ↦ none
  | text ↦ none
]

-- `write_bytes`, `copy_to` and `write_volatile` of a number of 32 bits.
abbrev pub write_bytes : ℕ → ℕ → ℕ → Memory → Memory
write_bytes start value count m o = if leb start o && ltb o (start + count) then value else m o

abbrev pub copy_to : ℕ → ℕ → ℕ → Memory → Memory
copy_to from start count m o =
    if leb start o && ltb o (start + count) then m (o - start + from) else m o

abbrev pub write_volatile : ℕ → ℕ → Memory → Memory
write_volatile start value m o =
    if leb start o && ltb o (start + 4)
    then value / 2 ^ ((o - start) * 8) - value / 2 ^ ((o - start) * 8) / 2 ^ 8 * 2 ^ 8
    else m o

module _ (fb : Framebuffer) where
  unfoldable pub clear : Memory → Memory
  clear m = write_bytes 0 0 (fb.pitch * fb.height) m

  unfoldable pub draw_pixel_unchecked : ℕ → ℕ → ℕ → Memory → Memory
  draw_pixel_unchecked x y c m = write_volatile (y * fb.pitch + x * 4) c m

  unfoldable pub draw_pixel : ℕ → ℕ → ℕ → Memory → Memory
  draw_pixel x y c m = if ltb x fb.width && ltb y fb.height then draw_pixel_unchecked x y c m else m

  -- The loop over the bits of a row, from `bits - 1` down to 0.
  unfoldable pub draw_bits : ℕ → ℕ → ℕ → ℕ → ℕ → ℕ → Memory → Memory
  draw_bits zero row x y fg bg m = m
  draw_bits (suc bit) row x y fg bg m =
      draw_bits bit row (x + 1) y fg bg
        (draw_pixel_unchecked x y (if bit_and (2 ^ bit) row == 0 then bg else fg) m)

  -- The loop over the rows of a character; `index` is `pixel_index` and `y_offset`.
  unfoldable pub draw_rows : List ℕ → ℕ → ℕ → ℕ → ℕ → ℕ → ℕ → Memory → Outcome Memory
  draw_rows pixels zero index x y fg bg m = done m
  draw_rows pixels (suc rows) index x y fg bg m =
      let rest : Memory → Outcome Memory = draw_rows pixels rows (index + 1) x y fg bg in
      elim (get_elem? pixels index) [
        | none ↦ panics
        | some row ↦ rest (draw_bits 8 row x (y + index) fg bg m)
      ]

  module _ (font : List ℕ) where
    unfoldable pub get_char_pixels : ℕ → Outcome (List ℕ)
    get_char_pixels c =
        let start = (char_width + 8 / 2) / 8 * char_height * c in
        let end = start + (char_width + 8 / 2) / 8 * char_height in
        if leb end (length font) then done (take (end - start) (drop start font)) else panics

    unfoldable pub draw_char : ℕ → ℕ → ℕ → ℕ → ℕ → Memory → Outcome Memory
    draw_char c x y fg bg m =
        if ltb fb.width (x + char_width) || ltb fb.height (y + char_height)
        then done m
        else get_char_pixels c >>= λ pixels. draw_rows pixels char_height 0 x y fg bg m

    unfoldable pub draw_str : List ℕ → ℕ → ℕ → ℕ → ℕ → Memory → Outcome Memory
    draw_str [] x y fg bg m = done m
    draw_str (c ∷ cs) x y fg bg m = draw_char c x y fg bg m >>= draw_str cs (x + char_width) y fg bg

  unfoldable pub scroll_up : ℕ → Memory → Memory
  scroll_up lines m =
      let scroll_size = fb.pitch * char_height * lines in
      let total_size = fb.pitch * fb.height in
      let copy_count = total_size - scroll_size in
      if leb total_size scroll_size
      then clear m
      else write_bytes copy_count 0 scroll_size (copy_to scroll_size 0 copy_count m)
