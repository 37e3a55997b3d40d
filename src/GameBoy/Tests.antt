-- ===== src/GameBoy/Tests.antt =====
-- Three keys: Enter is pressed, W is pressed, and Enter is released.
use heine_os.Prelude.{◌≡◌, refl, Bool, true, false, none, some, List, [], ◌∷◌, arith}
use heine_os.Key.{KeyEvent, new_key_event}
use heine_os.Key.Scancodes.{Scancode, as_u8, enter, w}
use heine_os.GameBoy.{handle_keys, update_joypad, init_error_of}
use heine_os.GameBoy.Joypad.{Handled, handle_keys-Handled}

abbrev key : Scancode → Bool → KeyEvent
key code pressed = record new_key_event { scancode = some code; pressed = pressed }

abbrev three_keys : List KeyEvent
three_keys = key enter true ∷ key w true ∷ key enter false ∷ []

handle_keys-Handled_example : Handled 3 three_keys 255 (handle_keys 3 three_keys 255)
unfolding as_u8
handle_keys-Handled_example =
    handle_keys-Handled 3 three_keys 255 (omega arith) (refl, (refl, (refl, tt)))

W_is_held : handle_keys 3 three_keys 255 ≡ some (191, [])
unfolding handle_keys update_joypad
W_is_held = refl

-- The number of the unknown error is not read as one.
unknown_error_is_lost : init_error_of 255 ≡ none
unfolding init_error_of
unknown_error_is_lost = refl
