-- ===== src/Framebuffer/Inside.antt =====
-- kernel/src/device/framebuffer.rs: drawing stays inside of the framebuffer's memory.
use Prim.Native.Nat.{bit_and}
use native.Mathlib.Nat.{mul-le-mul_right, mul_comm}
use heine_os.Prelude.{
  ℕ, zero, suc, ◌+◌, ◌-◌, ◌*◌, ◌^◌, ◌≤◌, ◌<◌, ◌≡◌, refl, ap, ◌∙◌, true, false, ◌&&◌, ◌||◌, none,
  some, List, length, get_elem?-inside, take, drop, length-take, length-drop, if◌then◌else◌, ltb,
  leb, ◌==◌, split, Outcome, done, panics, ◌>>=◌, arith,
}
use heine_os.Framebuffer.{
  Framebuffer, Memory, clear, draw_pixel_unchecked, draw_bits, draw_rows, get_char_pixels,
  draw_char, scroll_up, char_height,
}
use heine_os.Framebuffer.Scrolling.{scroll_up_moves}

outside_range :
    (start count o a b : ℕ)
    → start + count ≤ o
    → (if leb start o && ltb o (start + count) then a else b) ≡ b
outside_range start count o a b h = ground arith

moved_outside :
    (total size o a b : ℕ)
    → total ≤ o
    → (if ltb o total then (if ltb (o + size) total then a else 0) else b) ≡ b
moved_outside total size o a b h = ground arith

le→leb : (a b : ℕ) → a ≤ b → leb a b ≡ true
le→leb a b h = ground arith

fits_char : (w h x y : ℕ) → (ltb w (x + 8) || ltb h (y + 8)) ≡ false → (x + 8 ≤ w) × (y + 8 ≤ h)
fits_char w h x y e = ground arith

module _ (fb : Framebuffer) where
  -- A row has room for its pixels.
  abbrev pub IsWide : Type 0
  IsWide = fb.width * 4 ≤ fb.pitch

  -- The memory behind the framebuffer is as it was.
  abbrev pub Behind : Memory → Memory → Type 0
  Behind m n = (o : ℕ) → fb.pitch * fb.height ≤ o → n o ≡ m o

  -- A drawing that ends and stays inside.
  pub record Draws (m : Memory) (r : Outcome Memory) : Type 0 where
    pub picture : Memory
    pub result : r ≡ done picture
    pub behind : Behind m picture

  pub clear-Behind : (m : Memory) → Behind m (clear fb m)
  unfolding clear
  clear-Behind m o h = outside_range 0 (fb.pitch * fb.height) o 0 (m o) (omega arith)

  pub scroll_up-Behind : (lines : ℕ) (m : Memory) → Behind m (scroll_up fb lines m)
  scroll_up-Behind lines m o h =
      scroll_up_moves fb lines m o
      ∙ moved_outside (fb.pitch * fb.height) (fb.pitch * char_height * lines) o _ (m o) h

  module _ (wide : IsWide) where
    pixel-Behind :
        (x y c : ℕ) (m : Memory)
        → x < fb.width
        → y < fb.height
        → Behind m (draw_pixel_unchecked fb x y c m)
    unfolding draw_pixel_unchecked
    pixel-Behind x y c m p q o h = outside_range (y * fb.pitch + x * 4) 4 o _ (m o) (
        omega (
          arith,
          h,
          wide,
          mul-le-mul_right {m = y + 1} {n = fb.height} fb.pitch (omega arith),
          mul_comm fb.pitch fb.height,
        ))

    bits-Behind :
        (bits row x y fg bg : ℕ) (m : Memory)
        → x + bits ≤ fb.width
        → y < fb.height
        → Behind m (draw_bits fb bits row x y fg bg m)
    unfolding draw_bits
    bits-Behind zero row x y fg bg m p q o h = refl
    bits-Behind (suc bit) row x y fg bg m p q o h =
        bits-Behind bit row (x + 1) y fg bg _ (omega arith) q o h
        ∙ pixel-Behind x y (if bit_and (2 ^ bit) row == 0 then bg else fg) m (omega arith) q o h

    rows-Draws :
        (pixels : List ℕ) (rows index x y fg bg : ℕ) (m : Memory)
        → index + rows ≤ length pixels
        → x + 8 ≤ fb.width
        → y + index + rows ≤ fb.height
        → Draws m (draw_rows fb pixels rows index x y fg bg m)
    unfolding draw_rows
    rows-Draws pixels zero index x y fg bg m p q r = record {
      picture = m;
      result = refl;
      behind = λ o h. refl;
    }
    rows-Draws pixels (suc rows) index x y fg bg m p q r =
        let (row, found) = get_elem?-inside pixels index (omega arith) in
        let now : Memory = draw_bits fb 8 row x (y + index) fg bg m in
        let later =
          rows-Draws pixels rows (index + 1) x y fg bg now (omega arith) q (omega arith) in
        record {
          picture = later.picture;
          result =
              ap
                (λ f. elim f [
                  | none ↦ panics
                  | some row ↦
                      draw_rows fb pixels rows (index + 1) x y fg bg
                        (draw_bits fb 8 row x (y + index) fg bg m)
                ])
                found
              ∙ later.result;
          behind =
              λ o h. later.behind o h ∙ bits-Behind 8 row x (y + index) fg bg m q (omega arith) o h;
        }

    module _ (font : List ℕ) (full : length font ≡ 2048) where
      pub char-Draws :
          (c x y fg bg : ℕ) (m : Memory) → c < 256 → Draws m (draw_char fb font c x y fg bg m)
      unfolding draw_char get_char_pixels
      char-Draws c x y fg bg m l =
          split
            (λ b. Draws m (
              if b
              then done m
              else get_char_pixels fb font c >>= λ pixels. draw_rows fb pixels 8 0 x y fg bg m))
            (ltb fb.width (x + 8) || ltb fb.height (y + 8))
            (λ e. record { picture = m; result = refl; behind = λ o h. refl })
            (λ e.
              let (p, q) = fits_char fb.width fb.height x y e in
              let pixels : List ℕ = take (8 * c + 8 - 8 * c) (drop (8 * c) font) in
              let found : get_char_pixels fb font c ≡ done pixels =
                ap (λ b. if b then done pixels else panics)
                  (le→leb (8 * c + 8) (length font) (omega (arith, full))) in
              let eight : length pixels ≡ 8 = omega (
                arith,
                length-take (8 * c + 8 - 8 * c) (drop (8 * c) font),
                length-drop (8 * c) font,
                full,
              ) in
              let drawn =
                rows-Draws pixels 8 0 x y fg bg m (omega (arith, eight)) p (omega arith) in
              record {
                picture = drawn.picture;
                result =
                    ap (λ r. r >>= λ pixels. draw_rows fb pixels 8 0 x y fg bg m) found
                    ∙ drawn.result;
                behind = drawn.behind;
              })
