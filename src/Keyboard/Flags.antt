-- ===== src/Keyboard/Flags.antt =====
-- kernel/src/device/keyboard.rs: what each branch of `decode_byte` does to the flags and the lights.
use heine_os.Prelude.{
  ℕ, ◌≤◌, ◌<◌, ◌^◌, ◌≡◌, refl, sym, ap, subst, ◌∙◌, Bool, true, false, ◌&&◌, ◌||◌, not, ◌==◌,
  Bool_false, true≢false, dec_lt, ==_iff, Outcome, done, panics, spins, arith,
}
use heine_os.Key.{KeyEvent, contains, insert_modifiers, remove_modifiers, set_pressed}
use heine_os.Key.Modifiers.{contains-insert, contains-remove, insert-lt, remove-lt}
use heine_os.Keyboard.{Keyboard, complete, complete_key}
use heine_os.Keyboard.Kinds.{holds, locks, plain, after, IsKeyboard, Decoded}
use heine_os.Keyboard.Parsing.{parse_ascii_code-Parsed, parse_ascii_code_outside}

-- A call that ends, ends well, and one that panics was given a code that no table knows.
abbrev pub Results : ℕ → (Bool → Keyboard → Type 0) → Outcome (Bool × Keyboard) → Type 0
Results code P (done (b, kb)) = P b kb
Results code P panics = 92 ≤ code
Results code P spins = ⊥

never : {A : Type 0} → false ≡ true → A
never e = absurd (true≢false e refl)

-- A flag that is held says nothing of the other flags.
after_other :
    (pressed : Bool) (i j : ℕ) (flag : Bool)
    → (i == j) ≡ false
    → after pressed (holds i) j flag ≡ flag
after_other true i j flag e = ap (λ b. b || flag) e
after_other false i j flag e = ap (λ b. not b && flag) e

module _ (kb : Keyboard) (h : IsKeyboard kb) where
  -- The flags below place 5 are held, and the lights show others.
  held-Decoded :
      (pressed : Bool) (i flags : ℕ)
      → i < 5
      → flags < 256
      → ((j : ℕ)
          → j < 8
          → contains flags (2 ^ j)
            ≡ after pressed (holds i) j (contains kb.gather.modifiers (2 ^ j)))
      → let key : KeyEvent = record kb.gather { modifiers = flags } in
        Decoded kb (holds i) pressed false (record kb { gather = key })
  held-Decoded pressed i flags l byte f = record {
    valid = record {
      modifiers_byte = byte;
      leds_byte = h.leds_byte;
      lights = (
        h.lights.0 ∙ sym (kept 7 (omega arith) (omega arith)),
        h.lights.1 ∙ sym (kept 6 (omega arith) (omega arith)),
        h.lights.2 ∙ sym (kept 5 (omega arith) (omega arith)),
      );
    };
    flags = f;
    prefix_kept = refl;
    complete_iff = refl;
    direction = never;
  }
    where
      kept : (j : ℕ) → j < 8 → 5 ≤ j → contains flags (2 ^ j) ≡ contains kb.gather.modifiers (2 ^ j)
      kept j m n =
          f j m
          ∙ after_other pressed i j _
              (Bool_false (i == j) (λ e. absurd (omega (arith, (==_iff i j).0 e))))

  pub insert-Decoded :
      (i : ℕ)
      → i < 5
      → Decoded kb (holds i) true false (record kb { gather = insert_modifiers kb.gather (2 ^ i) })
  unfolding insert_modifiers
  insert-Decoded i l =
      held-Decoded true i _ l (insert-lt i _ (omega arith) h.modifiers_byte)
        (λ j m. contains-insert i j _ (omega arith) m h.modifiers_byte)

  pub remove-Decoded :
      (i : ℕ)
      → i < 5
      → Decoded kb (holds i) false false (record kb { gather = remove_modifiers kb.gather (2 ^ i) })
  unfolding remove_modifiers
  remove-Decoded i l =
      held-Decoded false i _ l (remove-lt i _ (omega arith) h.modifiers_byte)
        (λ j m. contains-remove i j _ (omega arith) m h.modifiers_byte)

  -- A lock that is released changes nothing.
  pub lock_released-Decoded : (i : ℕ) → Decoded kb (locks i) false false kb
  lock_released-Decoded i = record {
    valid = h;
    flags = λ j m. refl;
    prefix_kept = refl;
    complete_iff = refl;
    direction = never;
  }

  -- Nor does NumLock's release while the Break key is plain; any other key is complete.
  pub complete-Decoded :
      (code prefix : ℕ) (pressed : Bool)
      → Results code (Decoded kb plain pressed) (complete_key kb code prefix pressed)
  unfolding complete_key
  complete-Decoded code prefix pressed = elim (dec_lt code 92) [
    | yes l ↦
        (let p = parse_ascii_code-Parsed code prefix kb.gather l in
          subst (λ r. Results code (Decoded kb plain pressed) (complete kb pressed r))
            (sym p.result) (parsed p.after p.same_modifiers))
    | no l ↦
        subst (λ r. Results code (Decoded kb plain pressed) (complete kb pressed r))
          (sym (parse_ascii_code_outside code prefix kb.gather (omega arith))) (omega arith)
  ]
    where
      parsed :
          (key : KeyEvent)
          → key.modifiers ≡ kb.gather.modifiers
          → Decoded kb plain pressed true (record kb { gather = set_pressed key pressed })
      parsed key e = record {
        valid = record {
          modifiers_byte = subst (λ m. m < 256) (sym e) h.modifiers_byte;
          leds_byte = h.leds_byte;
          lights =
              subst
                (λ m.
                  (contains kb.leds 1 ≡ contains m 128)
                  × (contains kb.leds 2 ≡ contains m 64)
                  × (contains kb.leds 4 ≡ contains m 32))
                (sym e) h.lights;
        };
        flags = λ j m. ap (λ m. contains m (2 ^ j)) e;
        prefix_kept = refl;
        complete_iff = refl;
        direction = λ _. refl;
      }
