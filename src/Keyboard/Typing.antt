-- ===== src/Keyboard/Typing.antt =====
-- kernel/src/device/keyboard.rs: the bytes of a whole session, one call of `decode_byte` for each.
use heine_os.Prelude.{
  ℕ, ◌<◌, ◌%◌, ◌^◌, ◌≡◌, Bool, true, ◌⊎◌, if◌then◌else◌, ltb, List, [], ◌∷◌, Outcome, done, panics,
  spins,
}
use heine_os.Key.{contains}
use heine_os.Ports.{Device, Trace, Io, carry}
use heine_os.Keyboard.{Keyboard, decode_byte}
use heine_os.Keyboard.Commands.{Controller}
use heine_os.Keyboard.Lights.{IsShown}
use heine_os.Keyboard.Kinds.{kind, after, IsKeyboard}
use heine_os.Keyboard.Bytes.{is_prefix, Makes}

module _ (dev : Device) (patience : ℕ) where
  -- The interrupts of a session.
  unfoldable pub decode_all : List ℕ → Keyboard → Io Keyboard
  decode_all [] kb t = done (kb, t)
  decode_all (byte ∷ bytes) kb t =
      carry (decode_byte dev patience kb byte t) (λ r. decode_all bytes r.1)

-- The flags after a session, by their places: the keys that are held are held, and each lock is
-- flipped whenever its key goes down.
unfoldable pub typed : List ℕ → ℕ → (ℕ → Bool) → ℕ → Bool
typed [] prefix flags = flags
typed (byte ∷ bytes) prefix flags =
    let next = λ (j : ℕ). after (ltb byte 128) (kind prefix (byte % 128) (flags 3)) j (flags j) in
    let kept = typed bytes byte flags in
    let keyed = typed bytes 0 next in if is_prefix byte then kept else keyed

-- A byte that a keyboard with 92 codes sends.
abbrev pub IsKnown : ℕ → Type 0
IsKnown byte = (byte < 256) × ((is_prefix byte ≡ true) ⊎ (byte % 128 < 92))

abbrev pub AllKnown : List ℕ → Type 0
AllKnown [] = Unit
AllKnown (byte ∷ bytes) = IsKnown byte × AllKnown bytes

abbrev pub HasFlags : Keyboard → (ℕ → Bool) → Type 0
HasFlags kb flags = (j : ℕ) → j < 8 → contains kb.gather.modifiers (2 ^ j) ≡ flags j

pub record Typed (flags : ℕ → Bool) (r : Outcome (Keyboard × Trace)) : Type 0 where
  pub now : Keyboard
  pub later : Trace
  pub result : r ≡ done (now, later)
  pub valid : IsKeyboard now
  pub flags_are : HasFlags now flags

-- The lights behind a session.
abbrev AllShown : Outcome (Keyboard × Trace) → Type 0
AllShown (done (now, later)) = IsShown now later
AllShown panics = Unit
AllShown spins = Unit

-- The flags are right, and the keyboard shows the lights of the driver, which are those of the locks.
pub record Watched (flags : ℕ → Bool) (r : Outcome (Keyboard × Trace)) : Type 0 where
  pub is_typed : Typed flags r
  pub shown : IsShown is_typed.now is_typed.later

module _ {dev : Device} {patience : ℕ} (c : Controller dev patience) where
  -- What a byte leads to, if it ends.
  record Ended (kb : Keyboard) (byte : ℕ) (r : Outcome ((Bool × Keyboard) × Trace)) : Type 0 where
    complete : Bool
    now : Keyboard
    later : Trace
    result : r ≡ done ((complete, now), later)
    makes : Makes kb byte complete now
