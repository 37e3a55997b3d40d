-- ===== src/Multiboot/Search.antt =====
-- kernel/src/multiboot.rs: what the search for a tag finds.
-- The specification is the list of the tags, each with the number of its type and its size.
use heine_os.Prelude.{
  ℕ, zero, suc, ◌+◌, ◌-◌, ◌*◌, ◌/◌, ◌%◌, ◌^◌, ◌≤◌, ◌<◌, ◌≡◌, ◌≢◌, refl, sym, ap, subst, ◌∙◌, false,
  Option, none, some, List, [], ◌∷◌, if◌then◌else◌, ltb, ◌==◌, lt→ltb, ==_iff, Bool_false, split,
  true≢false, length, done, spins, arith,
}
use Prim.Native.Nat.{bit_and}
use native.Mathlib.Nat.{mod-eq_of_lt}
use heine_os.Prelude.Bits.{bit_and_high}
use heine_os.Multiboot.{
  Memory, TagType, type_number, tag_typ, tag_size, total_size, padded_size, find_from, find_tag,
}

abbrev pub Tag : Type 0
Tag = ℕ × ℕ

-- The room that a tag takes: its size up to the next multiple of 8.
abbrev pub room : ℕ → ℕ
room size = (size + 7) / 8 * 8

-- The tags stand one behind the other from an address on.
abbrev pub Laid : Memory → ℕ → List Tag → Type 0
Laid m a [] = Unit
Laid m a ((typ, size) ∷ tags) =
    (tag_typ m a ≡ typ)
    × (tag_size m a ≡ size)
    × (8 ≤ size)
    × (size ≤ 2 ^ 32 - 8)
    × Laid m (a + room size) tags

abbrev pub extent : List Tag → ℕ
extent [] = 0
extent ((typ, size) ∷ tags) = room size + extent tags

-- Where the first tag of a type stands.
abbrev pub first_at : ℕ → ℕ → List Tag → Option ℕ
first_at want a [] = none
first_at want a ((typ, size) ∷ tags) =
    if typ == want then some a else first_at want (a + room size) tags

pub padded_size-room : (size : ℕ) → size ≤ 2 ^ 32 - 8 → padded_size size ≡ room size
unfolding padded_size
padded_size-room size h =
    ap (λ (n : ℕ). bit_and n (2 ^ 32 - 8)) (mod-eq_of_lt below)
    ∙ bit_and_high 3 32 (size + 7) (omega arith) below
  where
    below : size + 7 < 2 ^ 32
    below = omega arith

pub padded_size_wraps : (size : ℕ) → 2 ^ 32 - 8 < size → size < 2 ^ 32 → padded_size size ≡ 0
unfolding padded_size
padded_size_wraps size h l =
    bit_and_high 3 32 ((size + 7) % 2 ^ 32) (omega arith) (omega arith) ∙ omega arith

abbrev differs : (a b : ℕ) → a ≢ b → (a == b) ≡ false
differs a b n = Bool_false (a == b) (λ e. n ((==_iff a b).0 e))

le→ltb-false : (a b : ℕ) → b ≤ a → ltb a b ≡ false
le→ltb-false a b h = ground arith

module _ (m : Memory) (info : ℕ) (want : TagType) where
  -- A round at an offset where a tag stands.
  module _ (rounds offset tag : ℕ) (here : (info + offset) % 2 ^ 64 ≡ tag)
      (inside : offset < total_size m info) (n : tag ≢ 0) where
    find_from_hit :
        tag_typ m tag ≡ type_number want
        → find_from m info want (suc rounds) offset ≡ done (some tag)
    unfolding find_from
    find_from_hit e =
        rw
          (
            here,
            lt→ltb offset (total_size m info) inside,
            differs tag 0 n,
            (==_iff (tag_typ m tag) (type_number want)).1 e,
          )
          refl

    find_from_miss :
        tag_typ m tag ≢ type_number want
        → tag_size m tag ≢ 0
        → find_from m info want (suc rounds) offset
          ≡ find_from m info want rounds ((offset + padded_size (tag_size m tag)) % 2 ^ 64)
    unfolding find_from
    find_from_miss d z =
        rw
          (
            here,
            lt→ltb offset (total_size m info) inside,
            differs tag 0 n,
            differs (tag_typ m tag) (type_number want) d,
            differs (tag_size m tag) 0 z,
          )
          refl

  find_from_end :
      (rounds offset : ℕ)
      → total_size m info ≤ offset
      → find_from m info want (suc rounds) offset ≡ done none
  unfolding find_from
  find_from_end rounds offset h = rw (le→ltb-false offset (total_size m info) h) refl

  -- A round over a well-formed tag of another type.
  find_from_pass :
      (typ size rounds offset : ℕ)
      → info ≢ 0
      → tag_typ m (info + offset) ≡ typ
      → tag_size m (info + offset) ≡ size
      → 8 ≤ size
      → size ≤ 2 ^ 32 - 8
      → offset < total_size m info
      → info + total_size m info ≤ 2 ^ 64
      → total_size m info < 2 ^ 32
      → typ ≢ type_number want
      → find_from m info want (suc rounds) offset
        ≡ find_from m info want rounds (offset + room size)
  find_from_pass typ size rounds offset n t s lo hi inside top u d =
      find_from_miss rounds offset (info + offset) (mod-eq_of_lt (omega arith)) inside (omega arith)
        (λ p. d (sym t ∙ p)) (omega arith)
      ∙ ap (λ (k : ℕ). find_from m info want rounds ((offset + padded_size k) % 2 ^ 64)) s
      ∙ ap (λ (k : ℕ). find_from m info want rounds ((offset + k) % 2 ^ 64))
          (padded_size-room size hi)
      ∙ ap (find_from m info want rounds) (mod-eq_of_lt (omega arith))

  -- The search over the tags that are left.
  found :
      (tags : List Tag) (rounds offset : ℕ)
      → info ≢ 0
      → Laid m (info + offset) tags
      → total_size m info ≡ offset + extent tags
      → info + total_size m info ≤ 2 ^ 64
      → total_size m info < 2 ^ 32
      → length tags < rounds
      → find_from m info want rounds offset
        ≡ done (first_at (type_number want) (info + offset) tags)
  found tags zero offset n laid e top u h = absurd (omega arith)
  found [] (suc rounds) offset n laid e top u h = find_from_end rounds offset (omega arith)
  found ((typ, size) ∷ tags) (suc rounds) offset n (t, s, lo, hi, laid) e top u h =
      let tag = info + offset in
      let inside : offset < total_size m info = omega arith in
      let k = type_number want in
      split
        (λ b.
          find_from m info want (suc rounds) offset
          ≡ done (if b then some tag else first_at k (tag + room size) tags))
        (typ == k)
        (λ same.
          find_from_hit rounds offset tag (mod-eq_of_lt (omega arith)) inside (omega arith)
            (t ∙ (==_iff typ k).0 same))
        (λ other.
          find_from_pass typ size rounds offset n t s lo hi inside top u
            (λ p. true≢false ((==_iff typ k).1 p) other)
          ∙ found tags rounds (offset + room size) n
              (subst (λ (a : ℕ). Laid m a tags) (omega arith) laid) (omega arith) top u
              (omega arith)
          ∙ ap (λ (a : ℕ). done (first_at k a tags)) (omega arith))

  -- A tag of another type whose size is too large to be rounded up in 32 bits.
  pub record IsTooLarge (tag : ℕ) : Type 0 where
    pub other_type : tag_typ m tag ≢ type_number want
    pub large : 2 ^ 32 - 8 < tag_size m tag
    pub fits : tag_size m tag < 2 ^ 32

  halted :
      (rounds offset : ℕ)
      → info ≢ 0
      → IsTooLarge (info + offset)
      → offset < total_size m info
      → info + total_size m info ≤ 2 ^ 64
      → find_from m info want rounds offset ≡ spins
  unfolding find_from
  halted zero offset n bad inside top = refl
  halted (suc rounds) offset n bad inside top =
      find_from_miss rounds offset (info + offset) (mod-eq_of_lt (omega arith)) inside (omega arith)
        bad.other_type (omega (arith, bad.large))
      ∙ ap (λ (k : ℕ). find_from m info want rounds ((offset + k) % 2 ^ 64))
          (padded_size_wraps _ bad.large bad.fits)
      ∙ ap (find_from m info want rounds) (omega arith)
      ∙ halted rounds offset n bad inside top

  abbrev pub Lacks : List Tag → Type 0
  Lacks [] = Unit
  Lacks ((typ, size) ∷ tags) = (typ ≢ type_number want) × Lacks tags

  halts_later :
      (tags : List Tag) (rounds offset : ℕ)
      → info ≢ 0
      → Laid m (info + offset) tags
      → Lacks tags
      → IsTooLarge (info + offset + extent tags)
      → offset + extent tags < total_size m info
      → info + total_size m info ≤ 2 ^ 64
      → total_size m info < 2 ^ 32
      → find_from m info want rounds offset ≡ spins
  unfolding find_from
  halts_later tags zero offset n laid lacks bad inside top u = refl
  halts_later [] (suc rounds) offset n laid lacks bad inside top u =
      halted (suc rounds) offset n (subst (λ (a : ℕ). IsTooLarge a) (omega arith) bad) (omega arith)
        top
  halts_later ((typ, size) ∷ tags) (suc rounds) offset n (t, s, lo, hi, laid) (d, lacks) bad inside
        top u =
      find_from_pass typ size rounds offset n t s lo hi (omega arith) top u d
      ∙ halts_later tags rounds (offset + room size) n
          (subst (λ (a : ℕ). Laid m a tags) (omega arith) laid) lacks
          (subst (λ (a : ℕ). IsTooLarge a) (omega arith) bad) (omega arith) top u

-- What the boot loader promises: the information lies at an address that is not null, does not reach
-- the end of memory, and its size, a `u32`, counts the header and the tags.
pub record IsBootInfo (m : Memory) (info : ℕ) (tags : List Tag) : Type 0 where
  pub address : info ≢ 0
  pub laid : Laid m (info + 8) tags
  pub sized : total_size m info ≡ 8 + extent tags
  pub inside : info + total_size m info ≤ 2 ^ 64
  pub fits : total_size m info < 2 ^ 32

-- On well-formed boot information find_tag ends, within one round more than there are tags, with the
-- address of the first tag of the type, or with none where no tag has it.
pub find_tag-first_at :
    (m : Memory) (info : ℕ) (tag_type : TagType) (tags : List Tag) (rounds : ℕ)
    → IsBootInfo m info tags
    → length tags < rounds
    → find_tag m info tag_type rounds ≡ done (first_at (type_number tag_type) (info + 8) tags)
unfolding find_tag
find_tag-first_at m info tag_type tags rounds h l =
    found m info tag_type tags rounds 8 h.address h.laid h.sized h.inside h.fits l

-- Where some tags without the type stand before a tag of another type whose size is larger than
-- 2^32 - 8, inside of the total size, find_tag goes round for ever: no number of rounds ends it.
pub find_tag_stuck :
    (m : Memory) (info : ℕ) (tag_type : TagType) (tags : List Tag) (rounds : ℕ)
    → info ≢ 0
    → Laid m (info + 8) tags
    → Lacks m info tag_type tags
    → IsTooLarge m info tag_type (info + 8 + extent tags)
    → 8 + extent tags < total_size m info
    → info + total_size m info ≤ 2 ^ 64
    → total_size m info < 2 ^ 32
    → find_tag m info tag_type rounds ≡ spins
unfolding find_tag
find_tag_stuck m info tag_type tags rounds n laid lacks bad inside top u =
    halts_later m info tag_type tags rounds 8 n laid lacks bad inside top u
