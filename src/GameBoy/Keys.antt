-- ===== src/GameBoy/Keys.antt =====
-- kernel/src/demo/lesson6/peanut_gb.rs: which key is which button's.
use heine_os.Prelude.{none, get_elem?, subst, zero}
use heine_os.Prelude.{
  ℕ, zero, suc, ◌≡◌, refl, Bool, true, false, ◌&&◌, Option, some, List, [], ◌∷◌, ◌==◌, arith,
}
use heine_os.Prelude.Bytes.{agrees, agrees→≡, and-fst, and-snd}
use heine_os.Key.Scancodes.{Scancode, as_u8}
use heine_os.GameBoy.{
  JoypadButton, button_a, button_b, select, start, right, left, up, down, KeyAction, moves, quits,
  ignored, mapped_button,
}

-- The place of a button's bit.
abbrev pub place : JoypadButton → ℕ
place button_a = 0
place button_b = 1
place select = 2
place start = 3
place right = 4
place left = 5
place up = 6
place down = 7

-- The key of a button, as the emulator's help says.
abbrev pub key_of : JoypadButton → Scancode
key_of button_a = Scancode.enter
key_of button_b = Scancode.space
key_of select = Scancode.q
key_of start = Scancode.e
key_of right = Scancode.d
key_of left = Scancode.a
key_of up = Scancode.w
key_of down = Scancode.s

abbrev pub same_key : Scancode → Option Scancode → Bool
same_key code none = false
same_key code (some other) = as_u8 code == as_u8 other

-- What an action does to a button, and the test that it is what the keys mean.
abbrev pub hits : KeyAction → JoypadButton → Bool
hits (moves c) b = place c == place b
hits quits b = false
hits ignored b = false

abbrev pub is_quits : KeyAction → Bool
is_quits (moves c) = false
is_quits quits = true
is_quits ignored = false

abbrev agree : Option Scancode → KeyAction → List JoypadButton → Bool
agree code act [] = agrees (is_quits act) (same_key Scancode.escape code)
agree code act (b ∷ bs) = agrees (hits act b) (same_key (key_of b) code) && agree code act bs

abbrev all_buttons : List JoypadButton
all_buttons = button_a ∷ button_b ∷ select ∷ start ∷ right ∷ left ∷ up ∷ down ∷ []

keys_agree : (code : Option Scancode) → agree code (mapped_button code) all_buttons ≡ true
unfolding as_u8
keys_agree none = refl
keys_agree (some Scancode.escape) = refl
keys_agree (some Scancode.one) = refl
keys_agree (some Scancode.two) = refl
keys_agree (some Scancode.three) = refl
keys_agree (some Scancode.four) = refl
keys_agree (some Scancode.five) = refl
keys_agree (some Scancode.six) = refl
keys_agree (some Scancode.seven) = refl
keys_agree (some Scancode.eight) = refl
keys_agree (some Scancode.nine) = refl
keys_agree (some Scancode.zero) = refl
keys_agree (some Scancode.q) = refl
keys_agree (some Scancode.w) = refl
keys_agree (some Scancode.e) = refl
keys_agree (some Scancode.r) = refl
keys_agree (some Scancode.t) = refl
keys_agree (some Scancode.z) = refl
keys_agree (some Scancode.u) = refl
keys_agree (some Scancode.i) = refl
keys_agree (some Scancode.o) = refl
keys_agree (some Scancode.p) = refl
keys_agree (some Scancode.a) = refl
keys_agree (some Scancode.s) = refl
keys_agree (some Scancode.d) = refl
keys_agree (some Scancode.f) = refl
keys_agree (some Scancode.g) = refl
keys_agree (some Scancode.h) = refl
keys_agree (some Scancode.j) = refl
keys_agree (some Scancode.k) = refl
keys_agree (some Scancode.l) = refl
keys_agree (some Scancode.y) = refl
keys_agree (some Scancode.x) = refl
keys_agree (some Scancode.c) = refl
keys_agree (some Scancode.v) = refl
keys_agree (some Scancode.b) = refl
keys_agree (some Scancode.n) = refl
keys_agree (some Scancode.m) = refl
keys_agree (some Scancode.plus) = refl
keys_agree (some Scancode.minus) = refl
keys_agree (some Scancode.enter) = refl
keys_agree (some Scancode.space) = refl
keys_agree (some Scancode.up) = refl
keys_agree (some Scancode.down) = refl
keys_agree (some Scancode.left) = refl
keys_agree (some Scancode.right) = refl
keys_agree (some Scancode.home) = refl
keys_agree (some Scancode.end) = refl
keys_agree (some Scancode.page_up) = refl
keys_agree (some Scancode.page_down) = refl
keys_agree (some Scancode.insert) = refl
keys_agree (some Scancode.del) = refl
keys_agree (some Scancode.tab) = refl
keys_agree (some Scancode.backspace) = refl
keys_agree (some Scancode.f1) = refl
keys_agree (some Scancode.f2) = refl
keys_agree (some Scancode.f3) = refl
keys_agree (some Scancode.f4) = refl
keys_agree (some Scancode.f5) = refl
keys_agree (some Scancode.f6) = refl
keys_agree (some Scancode.f7) = refl
keys_agree (some Scancode.f8) = refl
keys_agree (some Scancode.f9) = refl
keys_agree (some Scancode.f10) = refl
keys_agree (some Scancode.f11) = refl
keys_agree (some Scancode.f12) = refl
keys_agree (some Scancode.meta) = refl

pub quits-key :
    (code : Option Scancode) → is_quits (mapped_button code) ≡ same_key Scancode.escape code
quits-key code = agrees→≡ _ _ (behind all_buttons (keys_agree code))
  where
    behind :
        (bs : List JoypadButton)
        → agree code (mapped_button code) bs ≡ true
        → agrees (is_quits (mapped_button code)) (same_key Scancode.escape code) ≡ true
    behind [] h = h
    behind (b ∷ bs) h = behind bs (and-snd _ _ h)

pub hits-key :
    (code : Option Scancode) (b : JoypadButton)
    → hits (mapped_button code) b ≡ same_key (key_of b) code
hits-key code b = at (place b) b all_buttons (listed b) (keys_agree code)
  where
    some-inj : {x y : JoypadButton} → some x ≡ some y → x ≡ y
    some-inj h = cc

    listed : (b : JoypadButton) → get_elem? all_buttons (place b) ≡ some b
    listed button_a = refl
    listed button_b = refl
    listed select = refl
    listed start = refl
    listed right = refl
    listed left = refl
    listed up = refl
    listed down = refl

    at :
        (n : ℕ) (b : JoypadButton) (bs : List JoypadButton)
        → get_elem? bs n ≡ some b
        → agree code (mapped_button code) bs ≡ true
        → hits (mapped_button code) b ≡ same_key (key_of b) code
    at n b [] e h = absurd (ground (arith, e))
    at zero b (c ∷ bs) e h =
        subst (λ c. hits (mapped_button code) c ≡ same_key (key_of c) code) (some-inj e)
          (agrees→≡ _ _ (and-fst _ _ h))
    at (suc n) b (c ∷ bs) e h = at n b bs e (and-snd _ _ h)
