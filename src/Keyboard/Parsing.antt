-- ===== src/Keyboard/Parsing.antt =====
-- kernel/src/device/keyboard.rs: `parse_ascii_code`, on every code.
use heine_os.Prelude.{
  ℕ, ◌-◌, ◌≤◌, ◌<◌, ◌≡◌, refl, sym, ap, subst, Bool, true, false, some, List, length, get_elem?,
  get_elem?-inside, get_elem?-outside, if◌then◌else◌, leb, ◌==◌, Bool-cases, inl, inr, Outcome,
  done, panics, arith, leb→le,
}
use heine_os.Prelude.Bytes.{and-snd}
use heine_os.Key.{KeyEvent, contains, set_ascii, set_scancode, shift, alt_right, caps_lock}
use heine_os.Keyboard.{
  after_read, after_number, look_up, look_up_number, on_number_block, is_letter, parse_ascii_code,
}
use heine_os.Keyboard.Tables.{normal_tab, shift_tab, alt_tab, asc_num_tab, scan_num_tab}

-- The event got an ascii code and a scancode; the rest of it is as it was.
pub record Parsed (key : KeyEvent) (r : Outcome KeyEvent) : Type 0 where
  pub after : KeyEvent
  pub result : r ≡ done after
  pub same_modifiers : after.modifiers ≡ key.modifiers
  pub same_pressed : after.pressed ≡ key.pressed

set_ascii-modifiers : (key : KeyEvent) (ascii : ℕ) → (set_ascii key ascii).modifiers ≡ key.modifiers
unfolding set_ascii
set_ascii-modifiers key ascii = elim (Bool-cases (ascii == 0)) [ inl e ↦ rw e | inr e ↦ rw e ]

set_ascii-pressed : (key : KeyEvent) (ascii : ℕ) → (set_ascii key ascii).pressed ≡ key.pressed
unfolding set_ascii
set_ascii-pressed key ascii = elim (Bool-cases (ascii == 0)) [ inl e ↦ rw e | inr e ↦ rw e ]

look_up-Parsed :
    (tab : List ℕ) (at code : ℕ) (key : KeyEvent)
    → at < length tab
    → Parsed key (look_up tab at code key)
unfolding look_up set_scancode
look_up-Parsed tab at code key h =
    let (ascii, e) = get_elem?-inside tab at h in
    record {
      after = set_scancode (set_ascii key ascii) code;
      result = found ascii e;
      same_modifiers = set_ascii-modifiers key ascii;
      same_pressed = set_ascii-pressed key ascii;
    }
  where
    found :
        (ascii : ℕ)
        → get_elem? tab at ≡ some ascii
        → look_up tab at code key ≡ done (set_scancode (set_ascii key ascii) code)
    found ascii e = ap (after_read code key) e

-- `look_up` goes on with what it read.
look_up_number-Parsed : (at : ℕ) (key : KeyEvent) → at < 13 → Parsed key (look_up_number at key)
unfolding look_up_number
look_up_number-Parsed at key h =
    let (scancode, e) = get_elem?-inside scan_num_tab at h in
    let p = look_up-Parsed asc_num_tab at scancode key h in
    record {
      after = p.after;
      result = subst (λ o. after_number at key o ≡ done p.after) (sym e) p.result;
      same_modifiers = p.same_modifiers;
      same_pressed = p.same_pressed;
    }

-- What holds of every table holds of the one that is chosen.
chosen :
    (P : Outcome KeyEvent → Type 0) (pad alt up caps letter : Bool)
    (number alternative upper plain : Outcome KeyEvent)
    → (pad ≡ true → P number)
    → P alternative
    → P upper
    → P plain
    → P (
        if pad
        then number
        else if alt
        then alternative
        else if up
        then upper
        else if caps
        then if letter then upper else plain
        else plain)
chosen P true alt up caps letter _ _ _ _ n a u p = n refl
chosen P false true up caps letter _ _ _ _ n a u p = a
chosen P false false true caps letter _ _ _ _ n a u p = u
chosen P false false false true true _ _ _ _ n a u p = u
chosen P false false false true false _ _ _ _ n a u p = p
chosen P false false false false letter _ _ _ _ n a u p = p

module _ (P : Outcome KeyEvent → Type 0) (code prefix : ℕ) (key : KeyEvent) where
  parsed_by :
      (code ≤ 83 → P (look_up_number (code - 71) key))
      → ((tab : List ℕ) → length tab ≡ 92 → P (look_up tab code code key))
      → P (parse_ascii_code code prefix key)
  unfolding parse_ascii_code
  parsed_by number other =
      chosen P (on_number_block key prefix code) (contains key.modifiers alt_right)
        (contains key.modifiers shift) (contains key.modifiers caps_lock) (is_letter code)
        (look_up_number (code - 71) key) (look_up alt_tab code code key)
        (look_up shift_tab code code key) (look_up normal_tab code code key)
        (λ e. number (leb→le code 83 (and-snd _ (leb code 83) e))) (other alt_tab refl)
        (other shift_tab refl) (other normal_tab refl)

-- The tables know the 92 codes below 0x5c.
pub parse_ascii_code-Parsed :
    (code prefix : ℕ) (key : KeyEvent) → code < 92 → Parsed key (parse_ascii_code code prefix key)
parse_ascii_code-Parsed code prefix key h =
    parsed_by (Parsed key) code prefix key
      (λ l. look_up_number-Parsed (code - 71) key (omega arith))
      (λ tab e. look_up-Parsed tab code code key (omega arith))

look_up_outside :
    (tab : List ℕ) (at code : ℕ) (key : KeyEvent)
    → length tab ≤ at
    → look_up tab at code key ≡ panics
unfolding look_up
look_up_outside tab at code key h = ap (after_read code key) (get_elem?-outside tab at h)

-- Every other code is outside of the tables, and the kernel panics.
pub parse_ascii_code_outside :
    (code prefix : ℕ) (key : KeyEvent) → 92 ≤ code → parse_ascii_code code prefix key ≡ panics
parse_ascii_code_outside code prefix key h =
    parsed_by (λ r. r ≡ panics) code prefix key (λ l. absurd (omega arith))
      (λ tab e. look_up_outside tab code code key (omega arith))
