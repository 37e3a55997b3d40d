-- ===== src/Keyboard/Tests.antt =====
-- A keyboard with a controller that is always ready, and what is typed on it.
use heine_os.Prelude.{ℕ, ◌≡◌, refl, true, false, List, [], ◌∷◌, if◌then◌else◌, ◌==◌, panics, arith}
use heine_os.Keyboard.Kinds.{kind}
use heine_os.Ports.{Device}
use heine_os.Keyboard.{control_port, new_keyboard, decode_byte}
use heine_os.Keyboard.Bytes.{decode_byte_outside}
use heine_os.Keyboard.Typing.{typed}

-- Its output buffer is full, its input buffer is empty, and its data port reads an ACK.
abbrev ready : Device
ready t port = if port == control_port then 1 else 250

-- Shift and `a`, CapsLock, and the right Alt key.
abbrev bytes : List ℕ
bytes = 42 ∷ 30 ∷ 170 ∷ 58 ∷ 186 ∷ 224 ∷ 56 ∷ []

caps_is_on : typed bytes 0 (λ _. false) 5 ≡ true
unfolding typed kind
caps_is_on = refl

shift_is_up : typed bytes 0 (λ _. false) 0 ≡ false
unfolding typed kind
shift_is_up = refl

-- The menu key, after its prefix.
decode_byte_outside_example :
    decode_byte ready 1 (record new_keyboard { prefix = 224 }) 93 [] ≡ panics
decode_byte_outside_example =
    decode_byte_outside ready 1 (record new_keyboard { prefix = 224 }) 93 [] (omega arith) refl
      (omega arith)
