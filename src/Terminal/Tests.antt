-- ===== src/Terminal/Tests.antt =====
-- A screen of two columns and two rows, with an empty font.
use heine_os.Prelude.{
  done, ◌>>=◌, ℕ, ◌≡◌, refl, List, [], ◌∷◌, replicate, length, length-replicate, arith,
}
use heine_os.Framebuffer.{draw_pixel_unchecked, Framebuffer, clear, scroll_up}
use heine_os.Framebuffer.Pictures.{draw_bitmap, draw_picture_rows, draw_columns}
use heine_os.Terminal.{Terminal, new_terminal, set_pos, write_str}
use heine_os.Terminal.Cursor.{moves_all, OnScreen, Prints, write_str-Prints}

abbrev small : Framebuffer
small = record { width = 16; height = 16; pitch = 64; address = 0 }

abbrev fresh : Terminal
fresh = new_terminal small (λ _. 7)

fresh-OnScreen : OnScreen fresh
unfolding new_terminal
fresh-OnScreen = record {
  col_inside = omega arith;
  row_inside = omega arith;
  rows_fit = omega arith;
  wide = omega arith;
}

blank : List ℕ
blank = replicate 2048 0

blank-length : length blank ≡ 2048
unfolding blank
blank-length = length-replicate {A = ℕ} 2048 0

-- A, B, newline, C and D: the screen scrolls twice.
abbrev text : List ℕ
text = 65 ∷ 66 ∷ 10 ∷ 67 ∷ []

write_str-Prints_example :
    Prints fresh (moves_all fresh.cols fresh.rows text fresh.pos) (write_str blank text fresh)
write_str-Prints_example =
    write_str-Prints blank blank-length fresh text fresh-OnScreen
      (omega arith, (omega arith, (omega arith, (omega arith, tt))))

cursor_after : moves_all 2 2 text (0, 0) ≡ (1, 1)
cursor_after = refl

set_pos_clamps : (set_pos 9 1 fresh).pos ≡ (1, 1)
unfolding set_pos new_terminal
set_pos_clamps = refl

one_line_up : scroll_up small 1 (λ o. o) 3 ≡ 515
unfolding scroll_up clear
one_line_up = refl

-- A picture of one column and two rows on a screen of one row: it is stored from the bottom up, and
-- the pixel on the screen is the one of the bottom row, 7, not the one of the top row, 9.
clipped_picture :
    (draw_bitmap
        (record { width = 1; height = 1; pitch = 4; address = 0 })
        (record { bmp_width = 1; bmp_height = 2; pixel_data = 7 ∷ 9 ∷ [] })
        0
        0
        (λ _. 0)
      >>= λ m. done (m 0))
    ≡ done 7
unfolding draw_bitmap draw_picture_rows draw_columns draw_pixel_unchecked
clipped_picture = refl
