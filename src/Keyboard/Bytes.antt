-- ===== src/Keyboard/Bytes.antt =====
-- kernel/src/device/keyboard.rs: `decode_byte` on every byte, and on many.
use Prim.Native.Nat.{bit_and}
use heine_os.Prelude.{
  split, ℕ, ◌≤◌, ◌<◌, ◌%◌, ◌≡◌, refl, sym, ap, subst, subst₂, Bool, true, false, ◌&&◌, ◌||◌, not,
  if◌then◌else◌, ◌==◌, ==_iff, ltb, ltb→lt, done, panics, arith,
}
use heine_os.Prelude.Bytes.{all_below, below, agrees, agrees→≡, and-fst, and-snd}
use heine_os.Key.{contains, ctrl_left}
use heine_os.Ports.{Device, Trace, Io, keep, lift, pure}
use heine_os.Keyboard.{
  Keyboard, prefix1, prefix2, release_key, press_key, decode_byte, complete, complete_key,
}
use heine_os.Keyboard.Commands.{Controller}
use heine_os.Keyboard.Kinds.{Kind, kind, IsKeyboard, Decoded}
use heine_os.Keyboard.Parsing.{parse_ascii_code_outside}
use heine_os.Keyboard.Decoding.{Ran, keep-Ran, release_key-Decoded, press_key-Decoded}

abbrev pub is_prefix : ℕ → Bool
is_prefix byte = (byte == prefix1) || (byte == prefix2)

-- A prefix is kept for the next byte; any other byte is a key, in the low seven bits, that goes
-- down, or up if the eighth is set.
abbrev pub Makes : Keyboard → ℕ → Bool → Keyboard → Type 0
Makes kb byte complete now =
    if is_prefix byte
    then (complete ≡ false) × (now ≡ record kb { prefix = byte }) × IsKeyboard now
    else Decoded (record kb { prefix = 0 })
        (kind kb.prefix (byte % 128) (contains kb.gather.modifiers ctrl_left)) (ltb byte 128)
        complete now

-- The two masks of `decode_byte`.
abbrev masks : ℕ → Bool
masks byte = agrees (bit_and byte 128 == 0) (ltb byte 128) && (bit_and byte 127 == byte % 128)

every-masks : all_below masks 256 ≡ true
every-masks = refl

module _ (byte : ℕ) (fits : byte < 256) where
  break_bit : (bit_and byte 128 == 0) ≡ ltb byte 128
  break_bit =
      agrees→≡ _ _
        (and-fst _ (bit_and byte 127 == byte % 128) (below masks 256 every-masks byte fits))

  low_bits : bit_and byte 127 ≡ byte % 128
  low_bits = (==_iff _ _).0 (
      and-snd (agrees (bit_and byte 128 == 0) (ltb byte 128)) _
        (below masks 256 every-masks byte fits))

module _ {dev : Device} {patience : ℕ} (c : Controller dev patience) where
  -- On a valid keyboard every byte ends, or panics for a code from 0x5c on.
  pub decode_byte-Makes :
      (kb : Keyboard) (byte : ℕ) (t : Trace)
      → IsKeyboard kb
      → byte < 256
      → Ran (byte % 128) (Makes kb byte) (decode_byte dev patience kb byte t)
  unfolding decode_byte
  decode_byte-Makes kb byte t h fits =
      split
        (λ b.
          Ran (byte % 128)
            (λ complete now.
              if b
              then (complete ≡ false) × (now ≡ record kb { prefix = byte }) × IsKeyboard now
              else D (ltb byte 128) complete now)
            ((if b
                then pure (false, record kb { prefix = byte })
                else key (bit_and byte 128 == 0) (bit_and byte 127))
              t))
        (is_prefix byte) (λ e. (refl, refl, valid byte))
        (λ e.
          subst₂ (λ b code. Ran (byte % 128) (D (ltb byte 128)) (key b code t))
            (sym (break_bit byte fits)) (sym (low_bits byte fits))
            (split (λ b. Ran (byte % 128) (D b) (key b (byte % 128) t)) (ltb byte 128) pressed
              released))
    where
      valid : (n : ℕ) → IsKeyboard (record kb { prefix = n })
      valid n = record {
        modifiers_byte = h.modifiers_byte;
        leds_byte = h.leds_byte;
        lights = h.lights;
      }

      cleared : Keyboard
      cleared = record kb { prefix = 0 }

      kinds : ℕ → Kind
      kinds code = kind kb.prefix code (contains kb.gather.modifiers ctrl_left)

      D : Bool → Bool → Keyboard → Type 0
      D = Decoded cleared (kinds (byte % 128))

      key : Bool → ℕ → Io (Bool × Keyboard)
      key low code =
          if not low
          then lift (release_key cleared code kb.prefix)
          else press_key dev patience cleared byte kb.prefix

      pressed : ltb byte 128 ≡ true → Ran (byte % 128) (D true) (key true (byte % 128) t)
      pressed low =
          subst
            (λ code.
              Ran code (Decoded cleared (kinds code) true)
                (press_key dev patience cleared byte kb.prefix t))
            (omega (arith, ltb→lt byte 128 low))
            (press_key-Decoded cleared (valid 0) byte kb.prefix c t)

      released : ltb byte 128 ≡ false → Ran (byte % 128) (D false) (key false (byte % 128) t)
      released high =
          keep-Ran (byte % 128) (D false) t (release_key cleared (byte % 128) kb.prefix)
            (release_key-Decoded cleared (valid 0) (byte % 128) kb.prefix)

-- A code that no table knows panics, whatever the state of the keyboard.
complete_key_outside :
    (kb : Keyboard) (code prefix : ℕ) (pressed : Bool)
    → 92 ≤ code
    → complete_key kb code prefix pressed ≡ panics
unfolding complete_key
complete_key_outside kb code prefix pressed h =
    ap (complete kb pressed) (parse_ascii_code_outside code prefix kb.gather h)

differs : (code n : ℕ) → n < code → (code == n) ≡ false
differs code n h = ground arith

module _ (kb : Keyboard) (code prefix : ℕ) (h : 92 ≤ code) where
  release_key_outside : release_key kb code prefix ≡ panics
  unfolding release_key
  release_key_outside =
      rw
        (
          differs code 42 (omega arith),
          differs code 54 (omega arith),
          differs code 56 (omega arith),
          differs code 29 (omega arith),
          differs code 58 (omega arith),
          differs code 70 (omega arith),
          differs code 69 (omega arith),
        )
        (complete_key_outside kb code prefix false h)

  press_key_outside :
      (dev : Device) (patience : ℕ) (t : Trace) → press_key dev patience kb code prefix t ≡ panics
  unfolding press_key
  press_key_outside dev patience t =
      rw
        (
          differs code 42 (omega arith),
          differs code 54 (omega arith),
          differs code 56 (omega arith),
          differs code 29 (omega arith),
          differs code 58 (omega arith),
          differs code 70 (omega arith),
          differs code 69 (omega arith),
        )
        (ap (keep t) (complete_key_outside kb code prefix true h))

-- Whatever the state of the keyboard and its controller, the kernel panics at a byte that is no
-- prefix and whose low seven bits are a code from 0x5c on.
pub decode_byte_outside :
    (dev : Device) (patience : ℕ) (kb : Keyboard) (byte : ℕ) (t : Trace)
    → byte < 256
    → is_prefix byte ≡ false
    → 92 ≤ byte % 128
    → decode_byte dev patience kb byte t ≡ panics
unfolding decode_byte
decode_byte_outside dev patience kb byte t fits p h =
    subst₂ (λ e b. (if e then pure (false, record kb { prefix = byte }) else key b) t ≡ panics)
      (sym p) (sym (break_bit byte fits))
      (split (λ b. key b t ≡ panics) (ltb byte 128)
        (λ low. press_key_outside cleared byte kb.prefix (omega arith) dev patience t)
        (λ high. ap (keep t) (
          release_key_outside cleared (bit_and byte 127) kb.prefix
            (subst (λ n. 92 ≤ n) (sym (low_bits byte fits)) h))))
  where
    cleared : Keyboard
    cleared = record kb { prefix = 0 }

    key : Bool → Io (Bool × Keyboard)
    key low =
        if not low
        then lift (release_key cleared (bit_and byte 127) kb.prefix)
        else press_key dev patience cleared byte kb.prefix

-- A prefix ends at once.
pub decode_byte_prefix :
    (dev : Device) (patience : ℕ) (kb : Keyboard) (byte : ℕ) (t : Trace)
    → is_prefix byte ≡ true
    → decode_byte dev patience kb byte t ≡ done ((false, record kb { prefix = byte }), t)
unfolding decode_byte
decode_byte_prefix dev patience kb byte t p = simp p refl
