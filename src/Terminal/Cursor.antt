-- ===== src/Terminal/Cursor.antt =====
-- kernel/src/device/terminal.rs: where the cursor goes.
use heine_os.Prelude.{
  ℕ, ◌+◌, ◌-◌, ◌*◌, ◌≤◌, ◌<◌, ◌^◌, ◌≡◌, refl, sym, ap, ap₂, subst, ◌∙◌, Bool, true, false, ◌||◌,
  List, [], ◌∷◌, length, if◌then◌else◌, leb→le, leb, min, split, Outcome, done, ◌>>=◌, arith,
}
use heine_os.Framebuffer.{Memory, draw_char, scroll_up}
use heine_os.Framebuffer.Inside.{IsWide, Behind, scroll_up-Behind, char-Draws}
use heine_os.Framebuffer.Scrolling.{leb-false}
use heine_os.Terminal.{
  Terminal, before, is_newline, wrapped, scrolled, put_char_colored, put_char, write_str,
  default_fg_color, default_bg_color,
}

-- Where the cursor goes from a place, on a screen of so many columns and rows: to the next column,
-- or to the start of the next row, which is the last row again when there is none.
abbrev pub ends_row : ℕ → ℕ → ℕ → Bool
ends_row cols col c = is_newline c || leb cols (col + 1)

abbrev pub moves : ℕ → ℕ → ℕ → ℕ × ℕ → ℕ × ℕ
moves cols rows c pos =
    if ends_row cols pos.0 c then (0, min (pos.1 + 1) (rows - 1)) else (pos.0 + 1, pos.1)

abbrev pub moves_all : ℕ → ℕ → List ℕ → ℕ × ℕ → ℕ × ℕ
moves_all cols rows [] pos = pos
moves_all cols rows (c ∷ cs) pos = moves_all cols rows cs (moves cols rows c pos)

abbrev pub AllBelow : List ℕ → Type 0
AllBelow [] = Unit
AllBelow (c ∷ cs) = (c < 256) × AllBelow cs

-- The cursor is on the screen.
pub record OnScreen (t : Terminal) : Type 0 where
  pub col_inside : t.pos.0 < t.cols
  pub row_inside : t.pos.1 < t.rows
  pub rows_fit : t.rows < 2 ^ 64
  pub wide : IsWide t.framebuffer

-- A call that ends, with the cursor there and on the screen, and that writes only to the screen.
pub record Prints (t : Terminal) (pos : ℕ × ℕ) (r : Outcome Terminal) : Type 0 where
  pub later : Terminal
  pub result : r ≡ done later
  pub cursor : later.pos ≡ pos
  pub same : (later.cols ≡ t.cols) × (later.rows ≡ t.rows) × (later.framebuffer ≡ t.framebuffer)
  pub on_screen : OnScreen later
  pub behind : Behind t.framebuffer t.picture later.picture

reached :
    (rows row : ℕ)
    → row < rows
    → rows < 2 ^ 64
    → leb rows (row + 1) ≡ true
    → before rows ≡ min (row + 1) (rows - 1)
reached rows row h k e = omega (arith, leb→le rows (row + 1) e)

module _ (t : Terminal) (h : OnScreen t) where
  -- After a character that ends no row.
  stays :
      (p : Memory)
      → t.pos.0 + 1 < t.cols
      → Behind t.framebuffer t.picture p
      → Prints t
          (t.pos.0 + 1, t.pos.1)
          (done (record t { picture = p; pos = (t.pos.0 + 1, t.pos.1) }))
  stays p l b = record {
    later = record t { picture = p; pos = (t.pos.0 + 1, t.pos.1) };
    result = refl;
    cursor = refl;
    same = (refl, refl, refl);
    on_screen = record {
      col_inside = l;
      row_inside = h.row_inside;
      rows_fit = h.rows_fit;
      wide = h.wide;
    };
    behind = b;
  }

  -- At the start of the next row.
  breaks :
      (p : Memory)
      → Behind t.framebuffer t.picture p
      → Prints t
          (0, min (t.pos.1 + 1) (t.rows - 1))
          (done (scrolled (record t { picture = p; pos = (0, t.pos.1 + 1) })))
  breaks p b =
      split
        (λ c.
          Prints t (0, min (t.pos.1 + 1) (t.rows - 1))
            (done (
              if c
              then record t { picture = scroll_up t.framebuffer 1 p; pos = (0, before t.rows) }
              else record t { picture = p; pos = (0, t.pos.1 + 1) })))
        (leb t.rows (t.pos.1 + 1))
        (λ e. record {
          later = record t { picture = scroll_up t.framebuffer 1 p; pos = (0, before t.rows) };
          result = refl;
          cursor = ap (λ (n : ℕ). (0, n)) (last_row e);
          same = (refl, refl, refl);
          on_screen = record {
            col_inside = omega (arith, h.col_inside);
            row_inside = omega (arith, h.row_inside, h.rows_fit);
            rows_fit = h.rows_fit;
            wide = h.wide;
          };
          behind = λ o k. scroll_up-Behind t.framebuffer 1 p o k ∙ b o k;
        })
        (λ e. record {
          later = record t { picture = p; pos = (0, t.pos.1 + 1) };
          result = refl;
          cursor = ap (λ (n : ℕ). (0, n)) (next_row e);
          same = (refl, refl, refl);
          on_screen = record {
            col_inside = omega (arith, h.col_inside);
            row_inside = not_last e;
            rows_fit = h.rows_fit;
            wide = h.wide;
          };
          behind = b;
        })
    where
      last_row : leb t.rows (t.pos.1 + 1) ≡ true → before t.rows ≡ min (t.pos.1 + 1) (t.rows - 1)
      last_row e = reached t.rows t.pos.1 h.row_inside h.rows_fit e

      not_last : leb t.rows (t.pos.1 + 1) ≡ false → t.pos.1 + 1 < t.rows
      not_last e = leb-false t.rows (t.pos.1 + 1) e

      next_row : leb t.rows (t.pos.1 + 1) ≡ false → t.pos.1 + 1 ≡ min (t.pos.1 + 1) (t.rows - 1)
      next_row e = omega (arith, not_last e)

or_true : (b : Bool) → b || true ≡ true
or_true true = refl
or_true false = refl

or_false : (b : Bool) → b || false ≡ b
or_false true = refl
or_false false = refl

lt→leb-false : (a b : ℕ) → b < a → leb a b ≡ false
lt→leb-false a b h = ground arith

module _ (font : List ℕ) (full : length font ≡ 2048) where
  module _ (t : Terminal) (h : OnScreen t) (c : ℕ) where
    -- Behind the character, at the end of its row or not.
    drawn-Prints :
        (p : Memory)
        → Behind t.framebuffer t.picture p
        → Prints t
            (if leb t.cols (t.pos.0 + 1)
              then (0, min (t.pos.1 + 1) (t.rows - 1))
              else (t.pos.0 + 1, t.pos.1))
            (done
              (scrolled (wrapped false (record t { picture = p; pos = (t.pos.0 + 1, t.pos.1) }))))
    drawn-Prints p b =
        subst
          (λ w.
            Prints t
              (if leb t.cols (t.pos.0 + 1)
                then (0, min (t.pos.1 + 1) (t.rows - 1))
                else (t.pos.0 + 1, t.pos.1))
              (done (
                scrolled (
                  if w
                  then record t { picture = p; pos = (0, t.pos.1 + 1) }
                  else record t { picture = p; pos = (t.pos.0 + 1, t.pos.1) }))))
          (sym (or_false (leb t.cols (t.pos.0 + 1))))
          (split
            (λ w.
              Prints t (if w then (0, min (t.pos.1 + 1) (t.rows - 1)) else (t.pos.0 + 1, t.pos.1)) (
                done (
                  scrolled (
                    if w
                    then record t { picture = p; pos = (0, t.pos.1 + 1) }
                    else record t { picture = p; pos = (t.pos.0 + 1, t.pos.1) }))))
            (leb t.cols (t.pos.0 + 1)) (λ e. breaks t h p b)
            (λ e.
              subst
                (λ w.
                  Prints t (t.pos.0 + 1, t.pos.1)
                    (done (
                      if w
                      then record t {
                        picture = scroll_up t.framebuffer 1 p;
                        pos = (t.pos.0 + 1, before t.rows);
                      }
                      else record t { picture = p; pos = (t.pos.0 + 1, t.pos.1) })))
                (sym (lt→leb-false t.rows t.pos.1 h.row_inside))
                (stays t h p (leb-false t.cols (t.pos.0 + 1) e) b)))

    put_char-Prints : c < 256 → Prints t (moves t.cols t.rows c t.pos) (put_char font c t)
    unfolding put_char put_char_colored
    put_char-Prints l =
        let d =
          char-Draws t.framebuffer h.wide font full c (t.pos.0 * 8) (t.pos.1 * 8) default_fg_color
            default_bg_color t.picture l in
        split
          (λ b.
            Prints t
              (if b || leb t.cols (t.pos.0 + 1)
                then (0, min (t.pos.1 + 1) (t.rows - 1))
                else (t.pos.0 + 1, t.pos.1))
              (if b
                then done (scrolled (wrapped true t))
                else draw_char t.framebuffer font c (t.pos.0 * 8) (t.pos.1 * 8) default_fg_color
                    default_bg_color t.picture
                  >>= λ p. done (
                      scrolled
                        (wrapped false (record t { picture = p; pos = (t.pos.0 + 1, t.pos.1) })))))
          (is_newline c)
          (λ e.
            subst
              (λ w.
                Prints t (0, min (t.pos.1 + 1) (t.rows - 1))
                  (done (scrolled (if w then record t { pos = (0, t.pos.1 + 1) } else t))))
              (sym (or_true (leb t.cols t.pos.0))) (breaks t h t.picture (λ o k. refl)))
          (λ e.
            subst
              (λ r.
                Prints t
                  (if leb t.cols (t.pos.0 + 1)
                    then (0, min (t.pos.1 + 1) (t.rows - 1))
                    else (t.pos.0 + 1, t.pos.1))
                  (r >>= λ p. done (
                    scrolled
                      (wrapped false (record t { picture = p; pos = (t.pos.0 + 1, t.pos.1) })))))
              (sym d.result) (drawn-Prints d.picture d.behind))

  -- On a screen of fewer than 2 ^ 64 rows whose rows have room for their pixels, with a cursor on the
  -- screen, printing a text of characters below 256 ends; the cursor has gone from place to place as
  -- `moves` says, is on the screen, and no memory behind the framebuffer has changed.
  pub write_str-Prints :
      (t : Terminal) (text : List ℕ)
      → OnScreen t
      → AllBelow text
      → Prints t (moves_all t.cols t.rows text t.pos) (write_str font text t)
  unfolding write_str
  write_str-Prints t [] h a = record {
    later = t;
    result = refl;
    cursor = refl;
    same = (refl, refl, refl);
    on_screen = h;
    behind = λ o k. refl;
  }
  write_str-Prints t (c ∷ cs) h (l, a) =
      let x = put_char-Prints t h c l in
      let y = write_str-Prints x.later cs x.on_screen a in
      let (f, g, k) = x.same in
      record {
        later = y.later;
        result = ap (λ r. r >>= write_str font cs) x.result ∙ y.result;
        cursor =
            y.cursor
            ∙ ap (λ (p : ℕ × ℕ). moves_all x.later.cols x.later.rows cs p) x.cursor
            ∙ ap₂ (λ (m n : ℕ). moves_all m n cs (moves t.cols t.rows c t.pos)) f g;
        same = (y.same.0 ∙ f, y.same.1 ∙ g, y.same.2 ∙ k);
        on_screen = y.on_screen;
        behind =
            λ o b. y.behind o (subst (λ fb. fb.pitch * fb.height ≤ o) (sym k) b) ∙ x.behind o b;
      }
