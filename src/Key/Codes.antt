-- ===== src/Key/Codes.antt =====
-- kernel/src/device/key.rs: the scancodes and their numbers are one to one.
use heine_os.Prelude.{
  ℕ, ◌≡◌, refl, subst, ◌∙◌, ◌↔◌, some, List, [], ◌∷◌, Bool, true, ◌&&◌, ◌==◌, ==_iff, Bool-cases,
  inl, inr, arith,
}
use heine_os.Prelude.Bytes.{and-fst, and-snd}
use heine_os.Key.Scancodes.{Scancode, as_u8, arms, match_arms, try_from}

-- The numbers of the arms are those of the constructors that they return.
abbrev right_arms : List (ℕ × Scancode) → Bool
right_arms [] = true
right_arms ((number, scancode) ∷ rest) = (as_u8 scancode == number) && right_arms rest

some-inj : {s t : Scancode} → some s ≡ some t → s ≡ t
some-inj h = ground arith

match_arms-as_u8 :
    (l : List (ℕ × Scancode)) (value : ℕ) (found : Scancode)
    → right_arms l ≡ true
    → match_arms l value ≡ some found
    → as_u8 found ≡ value
unfolding match_arms
match_arms-as_u8 [] value found r h = ground arith
match_arms-as_u8 ((number, scancode) ∷ rest) value found r h =
    let further = match_arms-as_u8 rest value found (and-snd _ (right_arms rest) r) in
    let here : as_u8 scancode ≡ number = (==_iff _ _).0 (and-fst (as_u8 scancode == number) _ r) in
    elim (Bool-cases (number == value)) [
      | inl e ↦
          (let same : scancode ≡ found = some-inj (simp (e) at h) in
            subst (λ t. as_u8 t ≡ value) same (here ∙ (==_iff _ _).0 e))
      | inr e ↦ further (simp (e) at h)
    ]

arms_right : right_arms arms ≡ true
unfolding as_u8
arms_right = refl

try_from-known : (found : Scancode) → try_from (as_u8 found) ≡ some found
unfolding try_from match_arms as_u8
try_from-known found = ground arith

-- `try_from` returns a scancode exactly for its number: no number stands for two scancodes, and
-- none of them is left out.
pub try_from_iff :
    (value : ℕ) (found : Scancode) → (try_from value ≡ some found) ↔ (as_u8 found ≡ value)
unfolding try_from
try_from_iff value found = (
  match_arms-as_u8 arms value found arms_right,
  λ e. subst (λ v. try_from v ≡ some found) e (try_from-known found),
)
