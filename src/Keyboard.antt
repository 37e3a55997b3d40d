-- ===== src/Keyboard.antt =====
-- kernel/src/device/keyboard.rs: the driver of the PS/2 keyboard.
-- The two ports are the constants below, so the driver is its other three fields. A loop that waits
-- for the controller looks at its status for `patience` rounds at most.
pub mod Tables
pub mod Commands
pub mod Parsing
pub mod Kinds
pub mod Flags
pub mod Locks
pub mod Lights
pub mod Branches
pub mod Decoding
pub mod Bytes
pub mod Typing
mod Tests
use Prim.Native.Nat.{bit_and, bit_or}
use heine_os.Prelude.{
  ℕ, ◌-◌, ◌*◌, Bool, true, false, ◌&&◌, ◌||◌, not, Option, none, some, List, get_elem?,
  if◌then◌else◌, ltb, leb, ◌==◌, Outcome, done, panics, spins,
}
use heine_os.Ports.{
  Access, Trace, Device, Io, carry, ◌>>=◌, ◌>>◌, pure, panic, lift, keep, inb, out,
}
use heine_os.Ports.Polling.{poll}
use heine_os.Key.{
  KeyEvent, new_key_event, contains, insert, remove, set_ascii, set_scancode, set_pressed,
  insert_modifiers, remove_modifiers, toggle_modifiers, shift, alt_left, alt_right, ctrl_left,
  ctrl_right, caps_lock, num_lock, scroll_lock,
}
use heine_os.Keyboard.Tables.{normal_tab, shift_tab, alt_tab, asc_num_tab, scan_num_tab}

pub record Keyboard : Type 0 where
  pub prefix : ℕ
  pub gather : KeyEvent
  pub leds : ℕ

-- `LedStatus`.
abbrev pub led_scroll_lock : ℕ
led_scroll_lock = 1

abbrev pub led_num_lock : ℕ
led_num_lock = 2

abbrev pub led_caps_lock : ℕ
led_caps_lock = 4

-- `KeyboardStatus`.
abbrev pub output_buffer_full : ℕ
output_buffer_full = 1

abbrev pub input_buffer_full : ℕ
input_buffer_full = 2

abbrev pub auxiliary_device : ℕ
auxiliary_device = 32

-- `KeyboardRegister`.
abbrev pub control_port : ℕ
control_port = 100

abbrev pub data_port : ℕ
data_port = 96

-- `KeyboardCommand` and `KeyboardResponse`.
abbrev pub set_led_command : ℕ
set_led_command = 237

abbrev pub set_speed_command : ℕ
set_speed_command = 243

abbrev pub ack : ℕ
ack = 250

abbrev pub prefix1 : ℕ
prefix1 = 224

abbrev pub prefix2 : ℕ
prefix2 = 225

unfoldable pub new_keyboard : Keyboard
new_keyboard = record { prefix = 0; gather = new_key_event; leds = 0 }

-- An index out of the table panics; otherwise `key.set_ascii`, then `key.set_scancode(code)`.
abbrev pub after_read : ℕ → KeyEvent → Option ℕ → Outcome KeyEvent
after_read code key none = panics
after_read code key (some ascii) = done (set_scancode (set_ascii key ascii) code)

unfoldable pub look_up : List ℕ → ℕ → ℕ → KeyEvent → Outcome KeyEvent
look_up tab at code key = after_read code key (get_elem? tab at)

-- On the number block the scancode comes from a table as well.
abbrev pub after_number : ℕ → KeyEvent → Option ℕ → Outcome KeyEvent
after_number at key none = panics
after_number at key (some scancode) = look_up asc_num_tab at scancode key

unfoldable pub look_up_number : ℕ → KeyEvent → Outcome KeyEvent
look_up_number at key = after_number at key (get_elem? scan_num_tab at)

-- The tests of `parse_ascii_code` on the code.
abbrev pub on_number_block : KeyEvent → ℕ → ℕ → Bool
on_number_block key prefix code =
    contains key.modifiers num_lock && (prefix == 0) && leb 71 code && leb code 83

abbrev pub is_letter : ℕ → Bool
is_letter code =
    leb 16 code && leb code 26 || leb 30 code && leb code 40 || leb 44 code && leb code 50

unfoldable pub parse_ascii_code : ℕ → ℕ → KeyEvent → Outcome KeyEvent
parse_ascii_code code prefix key =
    if on_number_block key prefix code
    then look_up_number (code - 71) key
    else if contains key.modifiers alt_right
    then look_up alt_tab code code key
    else if contains key.modifiers shift
    then look_up shift_tab code code key
    else if contains key.modifiers caps_lock
    then if is_letter code
      then look_up shift_tab code code key
      else look_up normal_tab code code key
    else look_up normal_tab code code key

-- A key that is complete: `parse_ascii_code`, `set_pressed` and `return true`.
abbrev pub complete : Keyboard → Bool → Outcome KeyEvent → Outcome (Bool × Keyboard)
complete kb pressed (done key) = done (true, record kb { gather = set_pressed key pressed })
complete kb pressed panics = panics
complete kb pressed spins = spins

unfoldable pub complete_key : Keyboard → ℕ → ℕ → Bool → Outcome (Bool × Keyboard)
complete_key kb code prefix pressed = complete kb pressed (parse_ascii_code code prefix kb.gather)

-- What a change of the modifiers leaves; the event is not complete.
abbrev pub gathers : Keyboard → KeyEvent → Outcome (Bool × Keyboard)
gathers kb key = done (false, record kb { gather = key })

-- The branch of `decode_byte` for a key that is released; `code` is without its break bit.
unfoldable pub release_key : Keyboard → ℕ → ℕ → Outcome (Bool × Keyboard)
release_key kb code prefix =
    if (code == 42) || (code == 54)
    then gathers kb (remove_modifiers kb.gather shift)
    else if code == 56
    then gathers kb (remove_modifiers kb.gather (if prefix == prefix1 then alt_right else alt_left))
    else if code == 29
    then gathers kb
        (remove_modifiers kb.gather (if prefix == prefix1 then ctrl_right else ctrl_left))
    else if (code == 58) || (code == 70)
    then done (false, kb)
    else if code == 69
    then if contains kb.gather.modifiers ctrl_left
      then complete_key kb code prefix false
      else done (false, kb)
    else complete_key kb code prefix false

-- What the two loops wait for.
abbrev pub may_write : ℕ → Bool
may_write status = bit_and status input_buffer_full == 0

abbrev pub may_read : ℕ → Bool
may_read status = not (bit_and status output_buffer_full == 0)

module _ (dev : Device) (patience : ℕ) where
  unfoldable pub wait_for_write : Io (Unit {0})
  wait_for_write = poll dev control_port patience may_write

  unfoldable pub wait_for_read : Io (Unit {0})
  wait_for_read = poll dev control_port patience may_read

  -- A byte for the keyboard, and its answer, which has to be an ACK.
  unfoldable pub acknowledged : ℕ → Io (Unit {0})
  acknowledged byte = do
    out data_port byte
    wait_for_read
    answer ← inb dev data_port
    if answer == ack then pure tt else panic

  unfoldable pub set_repeat_rate : ℕ → ℕ → Io (Unit {0})
  set_repeat_rate delay speed = do
    wait_for_write
    acknowledged set_speed_command
    acknowledged (bit_or (bit_and delay 3 * 32) (bit_and speed 31))

  unfoldable pub set_led : Keyboard → ℕ → Bool → Io Keyboard
  set_led kb led on = do
    let leds = if on then insert kb.leds led else remove kb.leds led
    wait_for_write
    acknowledged set_led_command
    acknowledged leds
    pure (record kb { leds = leds })

  -- A toggle key that is pressed: the modifier, then the light.
  unfoldable pub toggle_lock : Keyboard → ℕ → ℕ → Io (Bool × Keyboard)
  toggle_lock kb lock led = do
    let key = toggle_modifiers kb.gather lock
    lit ← set_led (record kb { gather = key }) led (contains key.modifiers lock)
    pure (false, lit)

  -- The branch of `decode_byte` for a key that is pressed.
  unfoldable pub press_key : Keyboard → ℕ → ℕ → Io (Bool × Keyboard)
  press_key kb code prefix =
      if (code == 42) || (code == 54)
      then lift (gathers kb (insert_modifiers kb.gather shift))
      else if code == 56
      then lift (
          gathers kb
            (insert_modifiers kb.gather (if prefix == prefix1 then alt_right else alt_left)))
      else if code == 29
      then lift (
          gathers kb
            (insert_modifiers kb.gather (if prefix == prefix1 then ctrl_right else ctrl_left)))
      else if code == 58
      then toggle_lock kb caps_lock led_caps_lock
      else if code == 70
      then toggle_lock kb scroll_lock led_scroll_lock
      else if code == 69
      then if contains kb.gather.modifiers ctrl_left
        then lift (complete_key kb code prefix true)
        else toggle_lock kb num_lock led_num_lock
      else lift (complete_key kb code prefix true)

  unfoldable pub decode_byte : Keyboard → ℕ → Io (Bool × Keyboard)
  decode_byte kb code =
      let cleared : Keyboard = record kb { prefix = 0 } in
      if (code == prefix1) || (code == prefix2)
      then pure (false, record kb { prefix = code })
      else if not (bit_and code 128 == 0)
      then lift (release_key cleared (bit_and code 127) kb.prefix)
      else press_key cleared code kb.prefix

  -- The event that is complete after a byte, if one is.
  abbrev pub event : Bool × Keyboard → Option KeyEvent × Keyboard
  event (decoded, kb) = (if decoded then some kb.gather else none, kb)

  unfoldable pub try_read_next_byte : Keyboard → Io (Option KeyEvent × Keyboard)
  try_read_next_byte kb = do
    status ← inb dev control_port
    if bit_and status output_buffer_full == 0 then pure (none, kb) else (do
      code ← inb dev data_port
      if not (bit_and status auxiliary_device == 0)
          then pure (none, kb)
          else (do decoded ← decode_byte kb code; pure (event decoded)))
