-- ===== src/Key.antt =====
-- kernel/src/device/key.rs: the modifiers of a key and the key events.
-- A `char` is the number of its code point, and a set of modifiers is the number of its bits. The
-- `Result` of `try_from` is an option. Key/Scancodes has the scancodes, Key/Waiting the queue.
pub mod Scancodes
pub mod Codes
pub mod Modifiers
pub mod Waiting
pub mod Polling
mod Tests
use Prim.Native.Nat.{bit_and, bit_or, bit_xor}
use heine_os.Prelude.{ℕ, ◌-◌, Bool, false, Option, none, some, if◌then◌else◌, ◌==◌}
use heine_os.Key.Scancodes.{Scancode, try_from}

-- The flags of `KeyModifiers`.
abbrev pub shift : ℕ
shift = 1

abbrev pub alt_left : ℕ
alt_left = 2

abbrev pub alt_right : ℕ
alt_right = 4

abbrev pub ctrl_left : ℕ
ctrl_left = 8

abbrev pub ctrl_right : ℕ
ctrl_right = 16

abbrev pub caps_lock : ℕ
caps_lock = 32

abbrev pub num_lock : ℕ
num_lock = 64

abbrev pub scroll_lock : ℕ
scroll_lock = 128

-- `bitflags` of a `u8`.
unfoldable pub contains : ℕ → ℕ → Bool
contains flags flag = bit_and flags flag == flag

unfoldable pub insert : ℕ → ℕ → ℕ
insert flags flag = bit_or flags flag

unfoldable pub remove : ℕ → ℕ → ℕ
remove flags flag = bit_and flags (255 - flag)

unfoldable pub toggle : ℕ → ℕ → ℕ
toggle flags flag = bit_xor flags flag

pub record KeyEvent : Type 0 where
  pub ascii : Option ℕ
  pub scancode : Option Scancode
  pub modifiers : ℕ
  pub pressed : Bool

abbrev pub new_key_event : KeyEvent
new_key_event = record { ascii = none; scancode = none; modifiers = 0; pressed = false }

-- `char::from_u32` is never `None` for a byte.
unfoldable pub set_ascii : KeyEvent → ℕ → KeyEvent
set_ascii key ascii = if ascii == 0 then key else record key { ascii = some ascii }

unfoldable pub set_scancode : KeyEvent → ℕ → KeyEvent
set_scancode key scancode = record key { scancode = try_from scancode }

unfoldable pub insert_modifiers : KeyEvent → ℕ → KeyEvent
insert_modifiers key flag = record key { modifiers = insert key.modifiers flag }

unfoldable pub remove_modifiers : KeyEvent → ℕ → KeyEvent
remove_modifiers key flag = record key { modifiers = remove key.modifiers flag }

unfoldable pub toggle_modifiers : KeyEvent → ℕ → KeyEvent
toggle_modifiers key flag = record key { modifiers = toggle key.modifiers flag }

abbrev pub set_pressed : KeyEvent → Bool → KeyEvent
set_pressed key pressed = record key { pressed = pressed }
