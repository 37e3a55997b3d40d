-- ===== src/Multiboot/Text.antt =====
-- kernel/src/multiboot.rs: the texts of tags.
use heine_os.Prelude.{
  ℕ, ◌+◌, ◌-◌, ◌%◌, ◌^◌, ◌≤◌, ◌<◌, ◌≡◌, ◌≢◌, ◌↔◌, refl, sym, ap, subst, ◌∙◌, Bool, true, Option,
  none, some, List, [], ◌∷◌, ◌++◌, if◌then◌else◌, ◌==◌, ==_iff, Bool_false, split, true≢false,
  Outcome, done, panics, spins, arith,
}
use heine_os.Multiboot.{Memory, tag_size, bytes_at, from_bytes_with_nul, to_str, convert_str}

abbrev pub NoNull : List ℕ → Type 0
NoNull [] = Unit
NoNull (b ∷ bytes) = (b ≢ 0) × NoNull bytes

nul_text : (text : List ℕ) → NoNull text → from_bytes_with_nul (text ++ (0 ∷ [])) ≡ some text
unfolding from_bytes_with_nul
nul_text [] h = refl
nul_text (b ∷ []) (n, h) = rw (Bool_false (b == 0) (λ e. n ((==_iff b 0).0 e))) refl
nul_text (b ∷ c ∷ text) (n, h) =
    rw (Bool_false (b == 0) (λ e. n ((==_iff b 0).0 e)), nul_text (c ∷ text) h) refl

abbrev HasNull : List ℕ → List ℕ → Type 0
HasNull bytes text = (bytes ≡ text ++ (0 ∷ [])) × NoNull text

-- What a result says of the bytes.
abbrev Says : List ℕ → Option (List ℕ) → Type 0
Says bytes none = Unit
Says bytes (some text) = HasNull bytes text

abbrev extended : ℕ → Option (List ℕ) → Option (List ℕ)
extended b rest = elim rest [ none ↦ none | some text ↦ some (b ∷ text) ]

extended-Says :
    (b : ℕ) (bytes : List ℕ) (r : Option (List ℕ))
    → b ≢ 0
    → Says bytes r
    → Says (b ∷ bytes) (extended b r)
extended-Says b bytes none n h = tt
extended-Says b bytes (some text) n (e, h) = (ap (λ l. b ∷ l) e, (n, h))

from_bytes_with_nul-Says : (bytes : List ℕ) → Says bytes (from_bytes_with_nul bytes)
unfolding from_bytes_with_nul
from_bytes_with_nul-Says [] = tt
from_bytes_with_nul-Says (b ∷ []) =
    split (λ t. Says (b ∷ []) (if t then some [] else none)) (b == 0)
      (λ e. (ap (λ (k : ℕ). k ∷ []) ((==_iff b 0).0 e), tt)) (λ _. tt)
from_bytes_with_nul-Says (b ∷ c ∷ bytes) =
    let r = from_bytes_with_nul (c ∷ bytes) in
    split (λ t. Says (b ∷ c ∷ bytes) (if t then none else extended b r)) (b == 0) (λ _. tt)
      (λ e.
        extended-Says b (c ∷ bytes) r (λ p. true≢false ((==_iff b 0).1 p) e)
          (from_bytes_with_nul-Says (c ∷ bytes)))

module _ (valid : List ℕ → Bool) (bytes : List ℕ) where
  -- The bytes are a valid text and a null byte, which is the only one.
  abbrev pub Spells : List ℕ → Type 0
  Spells text = (bytes ≡ text ++ (0 ∷ [])) × NoNull text × (valid text ≡ true)

  abbrev Tells : Outcome (List ℕ) → Type 0
  Tells (done text) = Spells text
  Tells panics = Unit
  Tells spins = ⊥

  to_str-Tells : (r : Option (List ℕ)) → Says bytes r → Tells (to_str valid r)
  to_str-Tells none h = tt
  to_str-Tells (some text) (e, n) =
      split (λ t. Tells (if t then done text else panics)) (valid text) (λ v. (e, n, v)) (λ _. tt)

  to_str-Spells :
      (text : List ℕ) → Spells text → to_str valid (from_bytes_with_nul bytes) ≡ done text
  to_str-Spells text (e, n, v) = rw (e, nul_text text n, v) refl

-- On a tag whose size counts its header, of so many bytes, convert_str returns a text exactly where
-- the bytes from the header to the end of the size are that text, which is valid, followed by a null
-- byte, and no byte of the text is null.
pub convert_str_iff :
    (valid : List ℕ → Bool) (header : ℕ) (m : Memory) (tag : ℕ) (text : List ℕ)
    → header ≤ tag_size m tag
    → tag_size m tag < 2 ^ 32
    → (convert_str valid header m tag ≡ done text)
      ↔ Spells valid (bytes_at m (tag + header) (tag_size m tag - header)) text
unfolding convert_str
convert_str_iff valid header m tag text lo hi =
    let bytes = bytes_at m (tag + header) (tag_size m tag - header) in
    let length_is : (tag_size m tag + 2 ^ 64 - header) % 2 ^ 64 ≡ tag_size m tag - header =
      omega arith in
    let same : convert_str valid header m tag ≡ to_str valid (from_bytes_with_nul bytes) =
      ap (λ (n : ℕ). to_str valid (from_bytes_with_nul (bytes_at m (tag + header) n))) length_is in
    (
      (λ e.
          subst (Tells valid bytes) (sym same ∙ e) (
            to_str-Tells valid bytes (from_bytes_with_nul bytes) (from_bytes_with_nul-Says bytes))),
      (λ h. same ∙ to_str-Spells valid bytes text h),
    )
