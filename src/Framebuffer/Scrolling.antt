-- ===== src/Framebuffer/Scrolling.antt =====
-- kernel/src/device/framebuffer.rs: scrolling.
use heine_os.Prelude.{
  ℕ, ◌+◌, ◌-◌, ◌*◌, ◌≤◌, ◌<◌, ◌≡◌, ap, ◌∙◌, false, ◌&&◌, if◌then◌else◌, ltb, leb, arith, split,
  leb→le,
}
use heine_os.Framebuffer.{Framebuffer, Memory, char_height, write_bytes, copy_to, clear, scroll_up}

-- The picture moved up by so many bytes, and zero where nothing moves in.
abbrev pub moved_up : ℕ → ℕ → Memory → Memory
moved_up total size m o =
    if ltb o total then (if ltb (o + size) total then m (o + size) else 0) else m o

copied :
    (total size o a b : ℕ)
    → size < total
    → (if leb (total - size) o && ltb o (total - size + size)
        then 0
        else if leb 0 o && ltb o (0 + (total - size))
        then a
        else b)
      ≡ (if ltb o total then (if ltb (o + size) total then a else 0) else b)
copied total size o a b h = ground arith

cleared :
    (total size o a b : ℕ)
    → total ≤ size
    → (if leb 0 o && ltb o (0 + total) then 0 else b)
      ≡ (if ltb o total then (if ltb (o + size) total then a else 0) else b)
cleared total size o a b h = ground arith

pub leb-false : (a b : ℕ) → leb a b ≡ false → b < a
leb-false a b h = ground arith

-- `scroll_up` moves the picture up by the rows of so many lines of text, blackens what is below it,
-- and leaves the memory behind the picture as it is.
pub scroll_up_moves :
    (fb : Framebuffer) (lines : ℕ) (m : Memory) (o : ℕ)
    → scroll_up fb lines m o ≡ moved_up (fb.pitch * fb.height) (fb.pitch * char_height * lines) m o
unfolding scroll_up clear
scroll_up_moves fb lines m o =
    split
      (λ b.
        (if b
            then write_bytes 0 0 total m
            else write_bytes (total - size) 0 size (copy_to size 0 (total - size) m))
          o
        ≡ moved_up total size m o)
      (leb total size) (λ e. cleared total size o (m (o + size)) (m o) (leb→le total size e))
      (λ e.
        copied total size o (m (o - 0 + size)) (m o) (leb-false total size e)
        ∙ ap (λ (n : ℕ). if ltb o total then (if ltb (o + size) total then m n else 0) else m o)
            (omega arith))
  where
    total : ℕ
    total = fb.pitch * fb.height

    size : ℕ
    size = fb.pitch * char_height * lines
