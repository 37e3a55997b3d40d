-- ===== src/Paging/Words.antt =====
-- kernel/src/paging/pages.rs: what setting the user bit does to an entry.
use Prim.Native.Nat.{bit_and, bit_or}
use heine_os.Prelude.{
  ℕ, ◌+◌, ◌-◌, ◌*◌, ◌/◌, ◌%◌, ◌^◌, ◌<◌, ◌≡◌, ◌≢◌, ◌↔◌, refl, sym, subst, ap, ap₂, ◌∙◌, Bool, true,
  ◌&&◌, ltb, ◌==◌, ==_iff, ltb→lt, arith,
}
use heine_os.Prelude.Bits.{
  bit_and_ones, bit_and_high, bit_and_shifted, bit_or_split, bit_or-zero, bit_and_split,
  bit_or_field,
}
use heine_os.Prelude.Bytes.{all_below, below, and-fst, and-snd}
use heine_os.Paging.{user_flags, is_table, next_page_map}

-- An entry with the user bit.
unfoldable pub opened_entry : ℕ → ℕ
opened_entry w = bit_or w 4

-- The bits from the ninth on are as they were.
opened_entry-split : (w : ℕ) → opened_entry w ≡ w / 2 ^ 9 * 2 ^ 9 + bit_or (w % 2 ^ 9) 4
unfolding opened_entry
opened_entry-split w =
    bit_or_split 9 w 4 ∙ ap (λ (n : ℕ). n * 2 ^ 9 + bit_or (w % 2 ^ 9) 4) (bit_or-zero (w / 2 ^ 9))

-- What the low nine bits show, by trying them all.
abbrev low_test : ℕ → Bool
low_test r =
    ltb (bit_or r 4) 512
    && (ltb 3 (bit_or r 4)
        && (bit_or (bit_or r 4) 4 == bit_or r 4
            && (bit_or r (bit_or r 4) == bit_or r 4
                && (bit_and (bit_or r 4) 128 == r / 2 ^ 7 % 2 * 128
                    && bit_or r 4 / 2 ^ 7 == r / 2 ^ 7))))

record IsLow (r : ℕ) : Type 0 where
  small : bit_or r 4 < 512
  large : 3 < bit_or r 4
  twice : bit_or (bit_or r 4) 4 ≡ bit_or r 4
  once : bit_or r (bit_or r 4) ≡ bit_or r 4
  huge : bit_and (bit_or r 4) 128 ≡ r / 2 ^ 7 % 2 * 128
  seventh : bit_or r 4 / 2 ^ 7 ≡ r / 2 ^ 7

every-low_test : all_below low_test 512 ≡ true
every-low_test = refl

low-IsLow : (r : ℕ) → r < 512 → IsLow r
low-IsLow r h =
    let t = below low_test 512 every-low_test r h in
    let a = and-snd _ _ t in
    let b = and-snd _ _ a in
    let c = and-snd _ _ b in
    let d = and-snd _ _ c in
    record {
      small = ltb→lt _ _ (and-fst _ _ t);
      large = ltb→lt _ _ (and-fst _ _ a);
      twice = (==_iff _ _).0 (and-fst _ _ b);
      once = (==_iff _ _).0 (and-fst _ _ c);
      huge = (==_iff _ _).0 (and-fst _ _ d);
      seventh = (==_iff _ _).0 (and-snd _ _ d);
    }

module _ (w : ℕ) where
  low : IsLow (w % 2 ^ 9)
  low = low-IsLow (w % 2 ^ 9) (omega arith)

  user_flags-low : user_flags w ≡ bit_or (w % 2 ^ 9) 4
  unfolding user_flags
  user_flags-low = ap (λ (n : ℕ). bit_or n 4) (bit_and_ones 9 w)

  opened_entry-high : opened_entry w / 2 ^ 9 ≡ w / 2 ^ 9
  opened_entry-high = omega (arith, opened_entry-split w, low.small)

  opened_entry-low : opened_entry w % 2 ^ 9 ≡ bit_or (w % 2 ^ 9) 4
  opened_entry-low = omega (arith, opened_entry-split w, low.small)

  -- What the code writes.
  pub written-opened_entry : bit_or w (user_flags w) ≡ opened_entry w
  written-opened_entry =
      ap (bit_or w) user_flags-low
      ∙ bit_or_split 9 w (bit_or (w % 2 ^ 9) 4)
      ∙ ap₂ (λ (a b : ℕ). bit_or (w / 2 ^ 9) a * 2 ^ 9 + bit_or (w % 2 ^ 9) b)
          (omega (arith, low.small)) (omega (arith, low.small))
      ∙ ap₂ (λ (a b : ℕ). a * 2 ^ 9 + b) (bit_or-zero (w / 2 ^ 9)) low.once
      ∙ sym (opened_entry-split w)

  pub opened_entry_positive : opened_entry w ≢ 0
  opened_entry_positive e = absurd (omega (arith, opened_entry-split w, low.large))

  pub opened_entry-opened_entry : opened_entry (opened_entry w) ≡ opened_entry w
  opened_entry-opened_entry =
      opened_entry-split (opened_entry w)
      ∙ ap₂ (λ (a b : ℕ). a * 2 ^ 9 + bit_or b 4) opened_entry-high opened_entry-low
      ∙ ap (λ (n : ℕ). w / 2 ^ 9 * 2 ^ 9 + n) low.twice
      ∙ sym (opened_entry-split w)

-- The bit for huge pages, and the address in an entry.
abbrev pub IsTable : ℕ → ℕ → Type 0
IsTable level w = (1 < level) × (w / 2 ^ 7 % 2 ≡ 0)

abbrev pub table_of : ℕ → ℕ
table_of w = w / 2 ^ 12 % 2 ^ 40 * 2 ^ 12

table_test : (level n : ℕ) → ((ltb 1 level && n * 128 == 0) ≡ true) ↔ ((1 < level) × (n ≡ 0))
table_test level n = ground arith

-- The test and the mask of the code.
pub is_table_iff : (level w : ℕ) → (is_table level w ≡ true) ↔ IsTable level w
unfolding is_table
is_table_iff level w =
    let huge_is : bit_and (user_flags w) 128 ≡ w / 2 ^ 7 % 2 * 128 =
      ap (λ (n : ℕ). bit_and n 128) (user_flags-low w) ∙ (low w).huge ∙ omega arith in
    subst (λ (n : ℕ). ((ltb 1 level && n == 0) ≡ true) ↔ IsTable level w) (sym huge_is)
      (table_test level (w / 2 ^ 7 % 2))

pub next_page_map-table_of : (w : ℕ) → next_page_map w ≡ table_of w
unfolding next_page_map
next_page_map-table_of w =
    bit_and_shifted 12 w (2 ^ 40 - 1) ∙ ap (λ (n : ℕ). n * 2 ^ 12) (bit_and_ones 40 (w / 2 ^ 12))

-- An entry refers to the same table as before.
pub IsTable-opened_entry :
    (level w : ℕ)
    → (IsTable level (opened_entry w) → IsTable level w)
      × (IsTable level w → IsTable level (opened_entry w))
IsTable-opened_entry level w =
    ((λ (l, e). (l, omega (arith, huge_kept))), (λ (l, e). (l, omega (arith, huge_kept))))
  where
    huge_kept : opened_entry w / 2 ^ 7 % 2 ≡ w / 2 ^ 7 % 2
    huge_kept = omega (arith, opened_entry-split w, (low w).small, (low w).seventh)

pub table_of-opened_entry : (w : ℕ) → table_of (opened_entry w) ≡ table_of w
table_of-opened_entry w = ap (λ (n : ℕ). n % 2 ^ 40 * 2 ^ 12) (omega (arith, opened_entry-high w))

-- The write protection removed and inserted: bit 16 is set, and the others are as they were.
pub write_protected :
    (c : ℕ)
    → c < 2 ^ 64
    → bit_or (bit_and c (2 ^ 64 - 1 - 2 ^ 16)) (2 ^ 16) ≡ c / 2 ^ 17 * 2 ^ 17 + 2 ^ 16 + c % 2 ^ 16
write_protected c h = omega (
  arith,
  bit_or_field 16 1 (bit_and c (2 ^ 64 - 1 - 2 ^ 16)) 1 (omega (arith, cleared)) (omega arith),
  cleared,
)
  where
    cleared : bit_and c (2 ^ 64 - 1 - 2 ^ 16) ≡ c / 2 ^ 17 * 2 ^ 17 + c % 2 ^ 16
    cleared =
        bit_and_split 16 c (2 ^ 64 - 1 - 2 ^ 16)
        ∙ ap₂ (λ (a b : ℕ). a * 2 ^ 16 + b)
            (bit_and_high 1 48 (c / 2 ^ 16) (omega arith) (omega arith))
            (bit_and_ones 16 (c % 2 ^ 16))
        ∙ omega arith
