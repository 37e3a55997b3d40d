-- ===== src/GameBoy/Joypad.antt =====
-- kernel/src/demo/lesson6/peanut_gb.rs: what the keys do to the joypad.
use heine_os.Prelude.{true≢false, zero}
use heine_os.Prelude.{
  ℕ, zero, suc, ◌<◌, ◌^◌, ◌≡◌, refl, sym, ap, ◌∙◌, Bool, true, false, ◌&&◌, ◌||◌, not, Option, some,
  List, [], ◌∷◌, take, drop, if◌then◌else◌, ◌==◌, arith,
}
use heine_os.Key.Scancodes.{Scancode}
use heine_os.Key.{KeyEvent, contains, insert, remove}
use heine_os.Key.Modifiers.{contains-insert, contains-remove, insert-lt, remove-lt}
use heine_os.GameBoy.Keys.{place, key_of, same_key, hits, is_quits, quits-key, hits-key}
use heine_os.GameBoy.{
  JoypadButton, button_a, button_b, select, start, right, left, up, down, button_bit, KeyAction,
  moves, quits, ignored, mapped_button, update_joypad, acted, handle_keys,
}

place-lt : (b : JoypadButton) → place b < 8
place-lt button_a = omega arith
place-lt button_b = omega arith
place-lt select = omega arith
place-lt start = omega arith
place-lt right = omega arith
place-lt left = omega arith
place-lt up = omega arith
place-lt down = omega arith

bit_place : (b : JoypadButton) → button_bit b ≡ 2 ^ place b
bit_place button_a = refl
bit_place button_b = refl
bit_place select = refl
bit_place start = refl
bit_place right = refl
bit_place left = refl
bit_place up = refl
bit_place down = refl

-- Whether a button is released, as its bit says.
abbrev pub is_released : JoypadButton → ℕ → Bool
is_released b joypad = contains joypad (2 ^ place b)

-- Whether it is released behind some keys: as the last of them that is its key says, or as before.
abbrev pub released_after : JoypadButton → Bool → List KeyEvent → Bool
released_after b before [] = before
released_after b before (k ∷ ks) =
    released_after b (if same_key (key_of b) k.scancode then not k.pressed else before) ks

-- None of the keys is Escape.
abbrev pub AllStay : List KeyEvent → Type 0
AllStay [] = Unit
AllStay (k ∷ ks) = (same_key Scancode.escape k.scancode ≡ false) × AllStay ks

choose_off : (e x : Bool) → not e && x ≡ (if e then false else x)
choose_off true x = refl
choose_off false x = refl

choose_on : (e x : Bool) → e || x ≡ (if e then true else x)
choose_on true x = refl
choose_on false x = refl

update_joypad_lem :
    (c b : JoypadButton) (pressed : Bool) (joypad : ℕ)
    → joypad < 256
    → (update_joypad c pressed joypad < 256)
      × (is_released b (update_joypad c pressed joypad)
          ≡ (if place c == place b then not pressed else is_released b joypad))
unfolding update_joypad insert remove
update_joypad_lem c b true joypad h = rw (bit_place c) (
  remove-lt (place c) joypad (place-lt c) h,
  contains-remove (place c) (place b) joypad (place-lt c) (place-lt b) h
      ∙ choose_off (place c == place b) (is_released b joypad),
)
update_joypad_lem c b false joypad h = rw (bit_place c) (
  insert-lt (place c) joypad (place-lt c) h,
  contains-insert (place c) (place b) joypad (place-lt c) (place-lt b) h
      ∙ choose_on (place c == place b) (is_released b joypad),
)

-- The keys are handled: the joypad is a byte in which the bits are as the keys say.
pub record Handled (n : ℕ) (keys : List KeyEvent) (joypad : ℕ) (r : Option (ℕ × List KeyEvent))
    : Type 0 where
  pub after : ℕ
  pub result : r ≡ some (after, drop n keys)
  pub byte : after < 256
  pub buttons :
      (b : JoypadButton)
      → is_released b after ≡ released_after b (is_released b joypad) (take n keys)

-- From a byte on, where none of the first n keys is Escape, handling n keys takes these keys, or all
-- that there are, leaves the others, and the bit of each button is clear exactly if the last of these
-- keys that is its own, as `key_of` has them, was pressed, or, where there is none, if it was clear
-- before.
pub handle_keys-Handled :
    (n : ℕ) (keys : List KeyEvent) (joypad : ℕ)
    → joypad < 256
    → AllStay (take n keys)
    → Handled n keys joypad (handle_keys n keys joypad)
unfolding handle_keys
handle_keys-Handled zero keys joypad h s = record {
  after = joypad;
  result = refl;
  byte = h;
  buttons = λ b. refl;
}
handle_keys-Handled (suc n) [] joypad h s = record {
  after = joypad;
  result = refl;
  byte = h;
  buttons = λ b. refl;
}
handle_keys-Handled (suc n) (k ∷ ks) joypad h (s, stay) =
    by (mapped_button k.scancode) refl s (handle_keys-Handled n ks)
  where
    -- Whether the action is for a button is whether the key is its own.
    chosen :
        (b : JoypadButton) (act : KeyAction)
        → mapped_button k.scancode ≡ act
        → released_after b (if hits act b then not k.pressed else is_released b joypad) (take n ks)
          ≡ released_after b (is_released b joypad) (k ∷ take n ks)
    chosen b act e =
        ap (λ x. released_after b (if x then not k.pressed else is_released b joypad) (take n ks))
          (sym (ap (λ m. hits m b) e) ∙ hits-key k.scancode b)

    by :
        (act : KeyAction)
        → mapped_button k.scancode ≡ act
        → same_key Scancode.escape k.scancode ≡ false
        → ((j : ℕ) → j < 256 → AllStay (take n ks) → Handled n ks j (handle_keys n ks j))
        → Handled (suc n) (k ∷ ks) joypad (handle_keys (suc n) (k ∷ ks) joypad)
    by (moves c) e t later =
        let u = update_joypad c k.pressed joypad in
        let w = later u (update_joypad_lem c c k.pressed joypad h).0 stay in
        record {
          after = w.after;
          result = ap (acted (handle_keys n ks) k.pressed joypad) e ∙ w.result;
          byte = w.byte;
          buttons = λ b.
              w.buttons b
              ∙ ap (λ x. released_after b x (take n ks))
                  (update_joypad_lem c b k.pressed joypad h).1
              ∙ chosen b (moves c) e;
        }
    by quits e t later = absurd (true≢false (sym (quits-key k.scancode) ∙ ap is_quits e) t)
    by ignored e t later =
        let w = later joypad h stay in
        record {
          after = w.after;
          result = ap (acted (handle_keys n ks) k.pressed joypad) e ∙ w.result;
          byte = w.byte;
          buttons = λ b. w.buttons b ∙ chosen b ignored e;
        }
