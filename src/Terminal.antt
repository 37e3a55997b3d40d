-- ===== src/Terminal.antt =====
-- kernel/src/device/terminal.rs, over Framebuffer: the cursor and what is printed.
-- A call stands for what it does once it has the locks.
pub mod Cursor
mod Tests
use heine_os.Prelude.{
  ℕ, ◌+◌, ◌-◌, ◌*◌, ◌/◌, ◌%◌, ◌^◌, Bool, true, false, ◌||◌, List, [], ◌∷◌, if◌then◌else◌, leb, ◌==◌,
  min, max, Outcome, done, ◌>>=◌,
}
use heine_os.Framebuffer.{
  Framebuffer, Memory, clear, draw_char, scroll_up, black, green, char_width, char_height,
}

pub record Terminal : Type 0 where
  pub cols : ℕ
  pub rows : ℕ
  pub pos : ℕ × ℕ
  pub framebuffer : Framebuffer
  pub picture : Memory

abbrev pub default_fg_color : ℕ
default_fg_color = green

abbrev pub default_bg_color : ℕ
default_bg_color = black

-- `n - 1` on `usize`.
abbrev pub before : ℕ → ℕ
before n = (n + 2 ^ 64 - 1) % 2 ^ 64

unfoldable pub new_terminal : Framebuffer → Memory → Terminal
new_terminal fb m = record {
  cols = fb.width / char_width;
  rows = fb.height / char_height;
  pos = (0, 0);
  framebuffer = fb;
  picture = clear fb m;
}

unfoldable pub set_pos : ℕ → ℕ → Terminal → Terminal
set_pos col row t = record t {
  pos = (max (min col (before t.cols)) 0, max (min row (before t.rows)) 0);
}

unfoldable pub clear_screen : Terminal → Terminal
clear_screen t = record t { picture = clear t.framebuffer t.picture; pos = (0, 0) }

abbrev pub is_newline : ℕ → Bool
is_newline c = c == 10

-- The end of `put_char_colored`, from the place behind the character on.
abbrev pub wrapped : Bool → Terminal → Terminal
wrapped newline t = if leb t.cols t.pos.0 || newline then record t { pos = (0, t.pos.1 + 1) } else t

abbrev pub scrolled : Terminal → Terminal
scrolled t =
    if leb t.rows t.pos.1
    then record t { picture = scroll_up t.framebuffer 1 t.picture; pos = (t.pos.0, before t.rows) }
    else t

module _ (font : List ℕ) where
  unfoldable pub put_char_colored : ℕ → ℕ → ℕ → Terminal → Outcome Terminal
  put_char_colored c fg bg t =
      let drawn : Outcome Memory =
        draw_char t.framebuffer font c (t.pos.0 * char_width) (t.pos.1 * char_height) fg bg
          t.picture in
      if is_newline c
      then done (scrolled (wrapped true t))
      else drawn >>= λ p.
          done (scrolled (wrapped false (record t { picture = p; pos = (t.pos.0 + 1, t.pos.1) })))

  unfoldable pub put_char : ℕ → Terminal → Outcome Terminal
  put_char c t = put_char_colored c default_fg_color default_bg_color t

  unfoldable pub write_str : List ℕ → Terminal → Outcome Terminal
  write_str [] t = done t
  write_str (c ∷ cs) t = put_char c t >>= write_str cs

  -- `draw_cursor` and `clear_cursor`.
  abbrev pub draw_cursor : ℕ × ℕ → Framebuffer → Memory → Outcome Memory
  draw_cursor pos fb m =
      draw_char fb font 32 (pos.0 * char_width) (pos.1 * char_height) default_fg_color
        default_fg_color m

  abbrev pub clear_cursor : ℕ × ℕ → Framebuffer → Memory → Outcome Memory
  clear_cursor pos fb m =
      draw_char fb font 32 (pos.0 * char_width) (pos.1 * char_height) default_bg_color
        default_bg_color m
