-- ===== src/GameBoy.antt =====
-- kernel/src/demo/lesson6/peanut_gb.rs: the keys of the emulator, and its error codes.
-- The emulator itself is third-party code; the joypad is its byte, in which a clear bit is a button
-- that is held. The list of keys is what the keyboard's queue gives, the oldest first.
pub mod Keys
pub mod Joypad
mod Tests
use Prim.Native.Nat.{bit_and, bit_or}
use heine_os.Prelude.{
  ℕ, zero, suc, ◌-◌, Bool, Option, none, some, List, [], ◌∷◌, if◌then◌else◌, ◌==◌,
}
use heine_os.Key.{KeyEvent}
use heine_os.Key.Scancodes.{Scancode, escape, q, w, e, a, s, d, enter, space}

pub data JoypadButton : Type 0 where
  button_a : JoypadButton
  button_b : JoypadButton
  select : JoypadButton
  start : JoypadButton
  right : JoypadButton
  left : JoypadButton
  up : JoypadButton
  down : JoypadButton

abbrev pub button_bit : JoypadButton → ℕ
button_bit button_a = 1
button_bit button_b = 2
button_bit select = 4
button_bit start = 8
button_bit right = 16
button_bit left = 32
button_bit up = 64
button_bit down = 128

-- What a key does.
pub data KeyAction : Type 0 where
  moves : JoypadButton → KeyAction
  quits : KeyAction
  ignored : KeyAction

abbrev pub mapped_button : Option Scancode → KeyAction
mapped_button none = ignored
mapped_button (some w) = moves up
mapped_button (some a) = moves left
mapped_button (some s) = moves down
mapped_button (some d) = moves right
mapped_button (some q) = moves select
mapped_button (some e) = moves start
mapped_button (some enter) = moves button_a
mapped_button (some space) = moves button_b
mapped_button (some escape) = quits
mapped_button (some other) = ignored

unfoldable pub update_joypad : JoypadButton → Bool → ℕ → ℕ
update_joypad button pressed joypad =
    if pressed then bit_and joypad (255 - button_bit button) else bit_or joypad (button_bit button)

-- One key, and how the loop goes on with the joypad; none where the emulator ends.
abbrev pub acted :
    (ℕ → Option (ℕ × List KeyEvent)) → Bool → ℕ → KeyAction → Option (ℕ × List KeyEvent)
acted next pressed joypad (moves button) = next (update_joypad button pressed joypad)
acted next pressed joypad quits = none
acted next pressed joypad ignored = next joypad

-- The keys behind a frame, for so many keys at most: the joypad and the keys that are left.
unfoldable pub handle_keys : ℕ → List KeyEvent → ℕ → Option (ℕ × List KeyEvent)
handle_keys zero keys joypad = some (joypad, keys)
handle_keys (suc n) [] joypad = some (joypad, [])
handle_keys (suc n) (key ∷ keys) joypad =
    acted (handle_keys n keys) key.pressed joypad (mapped_button key.scancode)

pub data GbInitError : Type 0 where
  no_error : GbInitError
  cartridge_unsupported : GbInitError
  invalid_checksum : GbInitError
  unknown_error : GbInitError

abbrev pub init_error_number : GbInitError → ℕ
init_error_number no_error = 0
init_error_number cartridge_unsupported = 1
init_error_number invalid_checksum = 2
init_error_number unknown_error = 255

unfoldable pub init_error_of : ℕ → Option GbInitError
init_error_of value =
    if value == 0
    then some no_error
    else if value == 1
    then some cartridge_unsupported
    else if value == 2
    then some invalid_checksum
    else if value == 3
    then some unknown_error
    else none
