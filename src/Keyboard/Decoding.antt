-- ===== src/Keyboard/Decoding.antt =====
-- kernel/src/device/keyboard.rs: `decode_byte`, on every byte.
use heine_os.Prelude.{
  ℕ, ◌≤◌, ◌<◌, ◌^◌, ◌≡◌, refl, sym, subst, Bool, true, false, ◌||◌, if◌then◌else◌, ◌==◌, Outcome,
  done, panics, spins, arith,
}
use heine_os.Key.{
  contains, insert_modifiers, remove_modifiers, toggle_modifiers, ctrl_left, num_lock,
}
use heine_os.Ports.{Device, Trace, Io, keep, lift, carry, pure}
use heine_os.Keyboard.{
  Keyboard, prefix1, toggle_lock, release_key, press_key, complete_key, gathers, led_num_lock,
}
use heine_os.Keyboard.Commands.{Controller, set_led-Sends}
use heine_os.Keyboard.Kinds.{Kind, holds, locks, plain, kind, IsKeyboard, Decoded}
use heine_os.Keyboard.Flags.{
  Results, insert-Decoded, remove-Decoded, lock_released-Decoded, complete-Decoded,
}
use heine_os.Keyboard.Branches.{if_both, pressed_along, released_along}
use heine_os.Keyboard.Locks.{locked-Decoded}

-- What a call that may reach the controller comes to.
abbrev pub Ran : ℕ → (Bool → Keyboard → Type 0) → Outcome ((Bool × Keyboard) × Trace) → Type 0
Ran code P (done (r, t)) = P r.0 r.1
Ran code P panics = 92 ≤ code
Ran code P spins = ⊥

pub keep-Ran :
    (code : ℕ) (P : Bool → Keyboard → Type 0) (t : Trace) (r : Outcome (Bool × Keyboard))
    → Results code P r
    → Ran code P (keep t r)
keep-Ran code P t (done a) p = p
keep-Ran code P t panics p = p
keep-Ran code P t spins p = elim p [ ]

module _ (kb : Keyboard) (h : IsKeyboard kb) (code prefix : ℕ) where
  abbrev Released : Kind → Outcome (Bool × Keyboard) → Type 0
  Released k = Results code (Decoded kb k false)

  -- One of two flags, after the prefix.
  remove_side :
      (b : Bool) (i j : ℕ)
      → i < 5
      → j < 5
      → Released
          (holds (if b then i else j))
          (gathers kb (remove_modifiers kb.gather (if b then 2 ^ i else 2 ^ j)))
  remove_side true i j l m = remove-Decoded kb h i l
  remove_side false i j l m = remove-Decoded kb h j m

  pub release_key-Decoded :
      Released
        (kind prefix code (contains kb.gather.modifiers ctrl_left))
        (release_key kb code prefix)
  unfolding kind release_key
  release_key-Decoded =
      released_along Released ((code == 42) || (code == 54)) (code == 56) (code == 29) (code == 58)
        (code == 70) (code == 69) _ _ _ _ _ _ _ _ _ _ _ _ _ (remove-Decoded kb h 0 (omega arith))
        (remove_side (prefix == prefix1) 2 1 (omega arith) (omega arith))
        (remove_side (prefix == prefix1) 4 3 (omega arith) (omega arith))
        (lock_released-Decoded kb h 5) (lock_released-Decoded kb h 7)
        (if_both Released (contains kb.gather.modifiers ctrl_left) plain (locks 6)
          (complete_key kb code prefix false) (done (false, kb))
          (λ _. complete-Decoded kb h code prefix false) (λ _. lock_released-Decoded kb h 6))
        (complete-Decoded kb h code prefix false)

  module _ {dev : Device} {patience : ℕ} (c : Controller dev patience) (t : Trace) where
    abbrev Pressed : Kind → Io (Bool × Keyboard) → Type 0
    Pressed k m = Ran code (Decoded kb k true) (m t)

    insert_side :
        (b : Bool) (i j : ℕ)
        → i < 5
        → j < 5
        → Pressed
            (holds (if b then i else j))
            (lift (gathers kb (insert_modifiers kb.gather (if b then 2 ^ i else 2 ^ j))))
    insert_side true i j l m = insert-Decoded kb h i l
    insert_side false i j l m = insert-Decoded kb h j m

    toggle_lock-Decoded :
        (i l : ℕ) (lock : i < 8) (led : l < 8)
        → ((l == 0) ≡ (i == 7))
        → ((l == 1) ≡ (i == 6))
        → ((l == 2) ≡ (i == 5))
        → Pressed (locks i) (toggle_lock dev patience kb (2 ^ i) (2 ^ l))
    unfolding toggle_lock toggle_modifiers
    toggle_lock-Decoded i l lock led s n k =
        let key = toggle_modifiers kb.gather (2 ^ i) in
        let r =
          set_led-Sends c (record kb { gather = key }) (2 ^ l) (contains key.modifiers (2 ^ i)) t in
        subst (λ o. Ran code (Decoded kb (locks i) true) (carry o (λ lit. pure (false, lit))))
          (sym r.result) (locked-Decoded kb h i l lock led s n k)

    pub press_key-Decoded :
        Pressed
          (kind prefix code (contains kb.gather.modifiers ctrl_left))
          (press_key dev patience kb code prefix)
    unfolding kind press_key
    press_key-Decoded =
        pressed_along Pressed ((code == 42) || (code == 54)) (code == 56) (code == 29) (code == 58)
          (code == 70) (code == 69) _ _ _ _ _ _ _ _ _ _ _ _ _ _
          (insert-Decoded kb h 0 (omega arith))
          (insert_side (prefix == prefix1) 2 1 (omega arith) (omega arith))
          (insert_side (prefix == prefix1) 4 3 (omega arith) (omega arith))
          (toggle_lock-Decoded 5 2 (omega arith) (omega arith) refl refl refl)
          (toggle_lock-Decoded 7 0 (omega arith) (omega arith) refl refl refl)
          (if_both Pressed (contains kb.gather.modifiers ctrl_left) plain (locks 6)
            (lift (complete_key kb code prefix true))
            (toggle_lock dev patience kb num_lock led_num_lock) (λ _. completes)
            (λ _. toggle_lock-Decoded 6 1 (omega arith) (omega arith) refl refl refl))
          completes
      where
        completes : Pressed plain (lift (complete_key kb code prefix true))
        completes =
            keep-Ran code (Decoded kb plain true) t (complete_key kb code prefix true)
              (complete-Decoded kb h code prefix true)
