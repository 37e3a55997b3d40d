-- ===== src/Keyboard/Locks.antt =====
-- kernel/src/device/keyboard.rs: the locks, and the lights that show them.
use heine_os.Prelude.{
  ℕ, ◌<◌, ◌^◌, ◌≡◌, refl, sym, ap, ◌∙◌, Bool, true, false, ◌&&◌, ◌||◌, not, if◌then◌else◌, ◌==◌,
  Bool-cases, inl, inr, ==_iff, true≢false, arith,
}
use heine_os.Key.{contains, toggle, toggle_modifiers}
use heine_os.Key.Modifiers.{
  contains-insert, contains-remove, contains-toggle, insert-lt, remove-lt, toggle-lt,
}
use heine_os.Keyboard.{Keyboard}
use heine_os.Keyboard.Commands.{lit}
use heine_os.Keyboard.Kinds.{locks, Shows, IsKeyboard, Decoded}

-- The lights that `set_led` leaves, one by one.
module _ (kb : Keyboard) (h : IsKeyboard kb) (l j : ℕ) (led : l < 8) (other : j < 8) where
  contains-lit :
      (on : Bool)
      → contains (lit kb (2 ^ l) on) (2 ^ j) ≡ (if l == j then on else contains kb.leds (2 ^ j))
  contains-lit true =
      contains-insert l j kb.leds led other h.leds_byte ∙ choice (l == j) (contains kb.leds (2 ^ j))
    where
      choice : (b c : Bool) → b || c ≡ (if b then true else c)
      choice true c = refl
      choice false c = refl
  contains-lit false =
      contains-remove l j kb.leds led other h.leds_byte ∙ choice (l == j) (contains kb.leds (2 ^ j))
    where
      choice : (b c : Bool) → not b && c ≡ (if b then false else c)
      choice true c = refl
      choice false c = refl

module _ (kb : Keyboard) (h : IsKeyboard kb) (i l : ℕ) (lock : i < 8) (led : l < 8) where
  flipped : ℕ
  flipped = toggle kb.gather.modifiers (2 ^ i)

  -- The keyboard once the lock at place `i` is flipped and its light, at place `l`, is set.
  abbrev pub locked : Keyboard
  locked = record kb {
    gather = toggle_modifiers kb.gather (2 ^ i);
    leds = lit kb (2 ^ l) (contains (toggle kb.gather.modifiers (2 ^ i)) (2 ^ i));
  }

  -- A light goes on showing its lock, be it the one that is flipped or not.
  Shows-on : (j k : ℕ) → j < 8 → k < 8 → (l == j) ≡ (i == k) → Shows kb j k → Shows locked j k
  unfolding toggle_modifiers
  Shows-on j k light other e s = contains-lit kb h l j led light on ∙ elim (Bool-cases (i == k)) [
    | inl same ↦
        ap (λ b. if b then on else contains kb.leds (2 ^ j)) (e ∙ same)
        ∙ ap (λ n. contains (toggle kb.gather.modifiers (2 ^ i)) (2 ^ n)) ((==_iff i k).0 same)
    | inr differ ↦
        ap (λ b. if b then on else contains kb.leds (2 ^ j)) (e ∙ differ)
        ∙ s
        ∙ sym (
            contains-toggle i k _ lock other h.modifiers_byte
            ∙ ap
                (λ b.
                  if b
                  then not (contains kb.gather.modifiers (2 ^ k))
                  else contains kb.gather.modifiers (2 ^ k))
                differ)
  ]
    where
      on : Bool
      on = contains (toggle kb.gather.modifiers (2 ^ i)) (2 ^ i)

  lit-lt : (on : Bool) → lit kb (2 ^ l) on < 256
  lit-lt true = insert-lt l kb.leds led h.leds_byte
  lit-lt false = remove-lt l kb.leds led h.leds_byte

  pub locked-Decoded :
      ((l == 0) ≡ (i == 7))
      → ((l == 1) ≡ (i == 6))
      → ((l == 2) ≡ (i == 5))
      → Decoded kb (locks i) true false locked
  unfolding toggle_modifiers
  locked-Decoded s n c = record {
    valid = record {
      modifiers_byte = toggle-lt i _ lock h.modifiers_byte;
      leds_byte = lit-lt _;
      lights = (
        Shows-on 0 7 (omega arith) (omega arith) s h.lights.0,
        Shows-on 1 6 (omega arith) (omega arith) n h.lights.1,
        Shows-on 2 5 (omega arith) (omega arith) c h.lights.2,
      );
    };
    flags = λ j m. contains-toggle i j _ lock m h.modifiers_byte;
    prefix_kept = refl;
    complete_iff = refl;
    direction = λ e. absurd (true≢false e refl);
  }
