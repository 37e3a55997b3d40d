-- ===== src/Keyboard/Kinds.antt =====
-- kernel/src/device/keyboard.rs: what a key is to the modifiers, apart from the bits that hold them.
-- A flag is named by its place in `KeyModifiers`.
use heine_os.Prelude.{ℕ, ◌<◌, ◌^◌, ◌≡◌, Bool, true, false, ◌&&◌, ◌||◌, not, if◌then◌else◌, ◌==◌}
use heine_os.Key.{contains}
use heine_os.Keyboard.{Keyboard, prefix1}

-- A key that is held for its flag, one that flips its flag when it goes down, or any other.
pub data Kind : Type 0 where
  holds : ℕ → Kind
  locks : ℕ → Kind
  plain : Kind

-- With the left Ctrl key held, the key of NumLock is the Break key.
unfoldable pub kind : ℕ → ℕ → Bool → Kind
kind prefix code ctrl =
    if (code == 42) || (code == 54)
    then holds 0
    else if code == 56
    then holds (if prefix == prefix1 then 2 else 1)
    else if code == 29
    then holds (if prefix == prefix1 then 4 else 3)
    else if code == 58
    then locks 5
    else if code == 70
    then locks 7
    else if code == 69
    then (if ctrl then plain else locks 6)
    else plain

abbrev pub is_plain : Kind → Bool
is_plain (holds i) = false
is_plain (locks i) = false
is_plain plain = true

-- The flag at place `j` once a key goes down or up.
abbrev pub after : Bool → Kind → ℕ → Bool → Bool
after true (holds i) j flag = (i == j) || flag
after false (holds i) j flag = not (i == j) && flag
after true (locks i) j flag = if i == j then not flag else flag
after false (locks i) j flag = flag
after pressed plain j flag = flag

-- The light at place `l` shows the lock at place `i`.
abbrev pub Shows : Keyboard → ℕ → ℕ → Type 0
Shows kb l i = contains kb.leds (2 ^ l) ≡ contains kb.gather.modifiers (2 ^ i)

abbrev pub InSync : Keyboard → Type 0
InSync kb = Shows kb 0 7 × Shows kb 1 6 × Shows kb 2 5

-- The bits are bytes, and the lights show the locks.
pub record IsKeyboard (kb : Keyboard) : Type 0 where
  pub modifiers_byte : kb.gather.modifiers < 256
  pub leds_byte : kb.leds < 256
  pub lights : InSync kb

-- What one key made of the keyboard.
pub record Decoded (kb : Keyboard) (k : Kind) (pressed done_ : Bool) (now : Keyboard) : Type 0 where
  pub valid : IsKeyboard now
  pub flags :
      (j : ℕ)
      → j < 8
      → contains now.gather.modifiers (2 ^ j)
        ≡ after pressed k j (contains kb.gather.modifiers (2 ^ j))
  pub prefix_kept : now.prefix ≡ kb.prefix
  pub complete_iff : done_ ≡ is_plain k
  pub direction : done_ ≡ true → now.gather.pressed ≡ pressed
