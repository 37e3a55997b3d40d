-- ===== src/Framebuffer/Pictures.antt =====
-- kernel/src/device/framebuffer.rs: pictures on the screen.
-- A picture is the width, the height and the pixels of `Bitmap` of kernel/src/library/bitmap.rs; an
-- index out of the pixels panics.
use heine_os.Prelude.{
  ℕ, zero, suc, ◌+◌, ◌-◌, ◌*◌, none, some, List, get_elem?, if◌then◌else◌, ltb, Outcome, done,
  panics, ◌>>=◌,
}
use heine_os.Framebuffer.{Framebuffer, Memory, draw_pixel_unchecked}

pub record Bitmap : Type 0 where
  pub bmp_width : ℕ
  pub bmp_height : ℕ
  pub pixel_data : List ℕ

-- How much of a length is on the screen, from a place on.
abbrev pub clipped : ℕ → ℕ → ℕ → ℕ
clipped place size limit = if ltb limit (place + size) then limit - place else size

module _ (fb : Framebuffer) (bitmap : Bitmap) (x y : ℕ) where
  -- The loop over the columns of a row; `bmp_row` is the row of the picture.
  unfoldable pub draw_columns : ℕ → ℕ → ℕ → ℕ → Memory → Outcome Memory
  draw_columns row bmp_row zero col m = done m
  draw_columns row bmp_row (suc n) col m =
      let rest : Memory → Outcome Memory = draw_columns row bmp_row n (col + 1) in
      elim (get_elem? bitmap.pixel_data (bmp_row * bitmap.bmp_width + col)) [
        | none ↦ panics
        | some pixel ↦ rest (draw_pixel_unchecked fb (x + col) (y + row) pixel m)
      ]

  -- The loop over the rows, of which `target_height` are on the screen.
  unfoldable pub draw_picture_rows : ℕ → ℕ → ℕ → ℕ → Memory → Outcome Memory
  draw_picture_rows target_width target_height zero row m = done m
  draw_picture_rows target_width target_height (suc n) row m =
      draw_columns row (target_height - row - 1) target_width 0 m
      >>= draw_picture_rows target_width target_height n (row + 1)

  unfoldable pub draw_bitmap : Memory → Outcome Memory
  draw_bitmap m =
      let target_width = clipped x bitmap.bmp_width fb.width in
      let target_height = clipped y bitmap.bmp_height fb.height in
      draw_picture_rows target_width target_height target_height 0 m
