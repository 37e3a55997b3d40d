-- ===== src/Keyboard/Lights.antt =====
-- kernel/src/device/keyboard.rs: the lights that the keyboard was told to show are those that the
-- driver records.
use heine_os.Prelude.{
  ℕ, ◌≡◌, refl, sym, ap, subst, ◌∙◌, Bool, true, false, not, List, [], ◌∷◌, ◌||◌, if◌then◌else◌,
  ◌==◌, split, Outcome, done, panics, spins,
}
use Prim.Native.Nat.{bit_and}
use heine_os.Key.{KeyEvent, contains, toggle_modifiers, ctrl_left, num_lock}
use heine_os.Ports.{Device, Trace, Io, keep, lift, carry, pure}
use heine_os.Keyboard.{
  Keyboard, prefix1, prefix2, complete, complete_key, release_key, toggle_lock, press_key,
  decode_byte, led_num_lock,
}
use heine_os.Keyboard.Commands.{Controller, sent, set_led-Sends, lit}
use heine_os.Keyboard.Kinds.{Kind, plain}
use heine_os.Keyboard.Branches.{if_both, pressed_along, released_along}

-- A keyboard that was sent these bytes, the latest first: whether it waits for the operand of the
-- command 237, and the lights that it shows, none at first.
abbrev pub lamps : List ℕ → Bool × ℕ
lamps [] = (false, 0)
lamps (byte ∷ bytes) =
    let before = lamps bytes in if before.0 then (false, byte) else (byte == 237, before.1)

abbrev pub IsShown : Keyboard → Trace → Type 0
IsShown kb t = lamps (sent t) ≡ (false, kb.leds)

-- The lights behind a call.
abbrev pub Synced : Outcome ((Bool × Keyboard) × Trace) → Type 0
Synced (done ((complete, now), later)) = IsShown now later
Synced panics = Unit
Synced spins = Unit

abbrev KeepsLights : ℕ → Outcome (Bool × Keyboard) → Type 0
KeepsLights leds (done (complete, now)) = now.leds ≡ leds
KeepsLights leds panics = Unit
KeepsLights leds spins = Unit

complete-KeepsLights :
    (kb : Keyboard) (pressed : Bool) (o : Outcome KeyEvent)
    → KeepsLights kb.leds (complete kb pressed o)
complete-KeepsLights kb pressed (done key) = refl
complete-KeepsLights kb pressed panics = tt
complete-KeepsLights kb pressed spins = tt

keep-Synced :
    (kb : Keyboard) (t : Trace) (o : Outcome (Bool × Keyboard))
    → IsShown kb t
    → KeepsLights kb.leds o
    → Synced (keep t o)
keep-Synced kb t (done (c, now)) h k = h ∙ ap (λ (n : ℕ). (false, n)) (sym k)
keep-Synced kb t panics h k = tt
keep-Synced kb t spins h k = tt

module _ (kb : Keyboard) (code prefix : ℕ) where
  complete_key-KeepsLights :
      (pressed : Bool) → KeepsLights kb.leds (complete_key kb code prefix pressed)
  unfolding complete_key
  complete_key-KeepsLights pressed = complete-KeepsLights kb pressed _

  release_key-KeepsLights : KeepsLights kb.leds (release_key kb code prefix)
  unfolding release_key
  release_key-KeepsLights =
      let Same : Kind → Outcome (Bool × Keyboard) → Type 0 = λ k. KeepsLights kb.leds in
      released_along Same ((code == 42) || (code == 54)) (code == 56) (code == 29) (code == 58)
        (code == 70) (code == 69) plain plain plain plain plain plain plain _ _ _ _ _ _ refl refl
        refl refl refl
        (if_both Same (contains kb.gather.modifiers ctrl_left) plain plain
          (complete_key kb code prefix false) (done (false, kb))
          (λ _. complete_key-KeepsLights false) (λ _. refl))
        (complete_key-KeepsLights false)

  module _ {dev : Device} {patience : ℕ} (c : Controller dev patience) (t : Trace)
      (h : IsShown kb t) where
    toggle_lock-Synced : (lock led : ℕ) → Synced (toggle_lock dev patience kb lock led t)
    unfolding toggle_lock
    toggle_lock-Synced lock led =
        let key = toggle_modifiers kb.gather lock in
        let r = set_led-Sends c (record kb { gather = key }) led (contains key.modifiers lock) t in
        subst (λ o. Synced (carry o (λ lit. pure (false, lit)))) (sym r.result)
          (ap lamps r.sent_are
            ∙ ap
                (λ (before : Bool × ℕ).
                  let asked : Bool × ℕ =
                    if before.0 then (false, 237) else (237 == 237, before.1) in
                  if asked.0
                  then (false, lit kb led (contains key.modifiers lock))
                  else (lit kb led (contains key.modifiers lock) == 237, asked.1))
                h)

    press_key-Synced : Synced (press_key dev patience kb code prefix t)
    unfolding press_key
    press_key-Synced =
        let Same : Kind → Io (Bool × Keyboard) → Type 0 = λ k m. Synced (m t) in
        pressed_along Same ((code == 42) || (code == 54)) (code == 56) (code == 29) (code == 58)
          (code == 70) (code == 69) plain plain plain plain plain plain plain _ _ _ _ _ _ _ h h h
          (toggle_lock-Synced _ _) (toggle_lock-Synced _ _)
          (if_both Same (contains kb.gather.modifiers ctrl_left) plain plain
            (lift (complete_key kb code prefix true))
            (toggle_lock dev patience kb num_lock led_num_lock) (λ _. completes)
            (λ _. toggle_lock-Synced _ _))
          completes
      where
        completes : Synced (lift (complete_key kb code prefix true) t)
        completes =
            keep-Synced kb t (complete_key kb code prefix true) h (complete_key-KeepsLights true)

pub decode_byte-Synced :
    {dev : Device} {patience : ℕ}
    → Controller dev patience
    → (kb : Keyboard) (byte : ℕ) (t : Trace) → IsShown kb t
    → Synced (decode_byte dev patience kb byte t)
unfolding decode_byte
decode_byte-Synced {dev} {patience} c kb byte t h =
    let cleared : Keyboard = record kb { prefix = 0 } in
    let down : Io (Bool × Keyboard) = press_key dev patience cleared byte kb.prefix in
    let up : Io (Bool × Keyboard) = lift (release_key cleared (bit_and byte 127) kb.prefix) in
    split
      (λ b. Synced (
        (if b
            then pure (false, record kb { prefix = byte })
            else if not (bit_and byte 128 == 0)
            then up
            else down)
          t))
      ((byte == prefix1) || (byte == prefix2)) (λ e. h)
      (λ e.
        split (λ b. Synced ((if b then up else down) t)) (not (bit_and byte 128 == 0))
          (λ f.
            keep-Synced cleared t (release_key cleared (bit_and byte 127) kb.prefix) h
              (release_key-KeepsLights cleared (bit_and byte 127) kb.prefix))
          (λ f. press_key-Synced cleared byte kb.prefix c t h))
