-- ===== src/Boot/Information.antt =====
-- kernel/src/boot.rs: with which boot information the kernel starts.
use heine_os.Prelude.{arith, ◌<◌}
use heine_os.Prelude.{
  ℕ, zero, suc, ◌+◌, ◌<◌, ◌≡◌, ◌↔◌, refl, sym, ap, subst, ◌∙◌, not, Option, none, some, List,
  length, if◌then◌else◌, ◌==◌, ==_iff, split, ◌≢◌, Outcome, done, panics, ◌>>=◌, unwrap,
}
use heine_os.Multiboot.{
  Memory, TagType, type_number, framebuffer_info, efi_boot_services_not_terminated, module_tag,
  efi64_bit_system_table_pointer, efi64_bit_image_handle_pointer, read_u64, find_tag,
  module_as_slice,
}
use heine_os.Multiboot.Search.{Tag, IsBootInfo, first_at, find_tag-first_at}
use heine_os.Framebuffer.{from_multiboot}
use heine_os.Boot.{multiboot2_magic, info_at, Booted, IsFromPtr, check_uefi, read_boot_information}

-- A tag of a type is among the tags, and the first of them stands there.
abbrev pub IsFirst : ℕ → List Tag → TagType → ℕ → Type 0
IsFirst info tags tag_type place = first_at (type_number tag_type) (info + 8) tags ≡ some place

abbrev pub Has : ℕ → List Tag → TagType → Type 0
Has info tags tag_type = (place : ℕ) × IsFirst info tags tag_type place

-- The magic number is right, the five tags are there, the image handle is not null, the first of the framebuffer's describes one
-- that the kernel can use, and the first module is the ramdisk.
pub record Starts (m : Memory) (info : ℕ) (tags : List Tag) (magic : ℕ) (b : Booted) : Type 0 where
  pub magic_is : magic ≡ multiboot2_magic
  pub screen_tag : ℕ
  pub screen_first : IsFirst info tags framebuffer_info screen_tag
  pub screen_is : from_multiboot (info_at m screen_tag) ≡ some b.screen
  pub services : Has info tags efi_boot_services_not_terminated
  pub image_tag : ℕ
  pub image_first : IsFirst info tags efi64_bit_image_handle_pointer image_tag
  pub image_there : 0 < read_u64 m (image_tag + 8)
  pub table : Has info tags efi64_bit_system_table_pointer
  pub ramdisk_tag : ℕ
  pub ramdisk_first : IsFirst info tags module_tag ramdisk_tag
  pub ramdisk_is : module_as_slice m ramdisk_tag ≡ b.ramdisk

-- A call that ends, if it does not panic, in a result of which this holds; it does not wait for ever.
abbrev EndsIn {ℓ} : {A : Type ℓ} → Outcome A → (A → Type 0) → Type 0
EndsIn (done a) P = P a
EndsIn panics P = Unit
EndsIn Outcome.spins P = ⊥

unwrap-EndsIn :
    {A B : Type 0} (o : Option A) (f : A → Outcome B) (P : B → Type 0)
    → ((a : A) → o ≡ some a → EndsIn (f a) P)
    → EndsIn (unwrap o >>= f) P
unwrap-EndsIn none f P h = tt
unwrap-EndsIn (some a) f P h = h a refl

bind-EndsIn :
    {A B : Type 0} (o : Outcome A) (f : A → Outcome B) (Q : A → Type 0) (P : B → Type 0)
    → EndsIn o Q
    → ((a : A) → Q a → EndsIn (f a) P)
    → EndsIn (o >>= f) P
bind-EndsIn (done a) f Q P h k = k a h
bind-EndsIn panics f Q P h k = tt
bind-EndsIn Outcome.spins f Q P h k = h

done-inj : {A : Type 0} {a b : A} → done a ≡ done b → a ≡ b
done-inj h = cc

module _ (m : Memory) (info rounds : ℕ) (from_ptr : ℕ → Option ℕ) (tags : List Tag)
    (h : IsBootInfo m info tags) (fp : IsFromPtr from_ptr) (l : length tags < rounds) where
  expect_found :
      (tag_type : TagType) (place : ℕ)
      → IsFirst info tags tag_type place
      → (find_tag m info tag_type rounds >>= unwrap) ≡ done place
  expect_found tag_type place e =
      ap (λ r. r >>= unwrap) (find_tag-first_at m info tag_type tags rounds h l)
      ∙ ap (λ o. unwrap o) e

  expect-EndsIn :
      {B : Type 0} (tag_type : TagType) (f : ℕ → Outcome B) (P : B → Type 0)
      → ((place : ℕ) → IsFirst info tags tag_type place → EndsIn (f place) P)
      → EndsIn (find_tag m info tag_type rounds >>= unwrap >>= f) P
  expect-EndsIn tag_type f P k =
      subst (λ r. EndsIn (r >>= unwrap >>= f) P)
        (sym (find_tag-first_at m info tag_type tags rounds h l))
        (unwrap-EndsIn (first_at (type_number tag_type) (info + 8) tags) f P k)

  check_uefi-EndsIn : EndsIn (check_uefi m info rounds from_ptr) (λ _.
      Has info tags efi_boot_services_not_terminated
      × ((tag : ℕ) × IsFirst info tags efi64_bit_image_handle_pointer tag
          × (0 < read_u64 m (tag + 8)))
      × Has info tags efi64_bit_system_table_pointer)
  unfolding check_uefi
  check_uefi-EndsIn = expect-EndsIn efi_boot_services_not_terminated _ _ (λ a p.
      expect-EndsIn efi64_bit_image_handle_pointer _ _ (λ b q.
        unwrap-EndsIn (from_ptr (read_u64 m (b + 8))) _ _ (λ handle e.
          expect-EndsIn efi64_bit_system_table_pointer _ _
            (λ c r. ((a, p), (b, q, not_null (read_u64 m (b + 8)) handle e), (c, r))))))
    where
      not_null : (p handle : ℕ) → from_ptr p ≡ some handle → 0 < p
      not_null zero handle e = absurd (ground (arith, fp.0, e))
      not_null (suc p) handle e = omega arith

  module _ (magic : ℕ) where
    ends : EndsIn (read_boot_information m info rounds from_ptr magic) (Starts m info tags magic)
    unfolding read_boot_information
    ends =
        let proceed : Outcome Booted = find_tag m info framebuffer_info rounds >>= unwrap >>= λ tag.
        unwrap (from_multiboot (info_at m tag)) >>= λ screen.
        check_uefi m info rounds from_ptr >>= λ _.
        find_tag m info module_tag rounds >>= unwrap >>= λ initrd.
        done (record { screen = screen; ramdisk = module_as_slice m initrd }) in
        split (λ b. EndsIn (if not b then panics else proceed) (Starts m info tags magic))
          (magic == multiboot2_magic)
          (λ right. expect-EndsIn framebuffer_info _ _ (λ tag first.
            unwrap-EndsIn (from_multiboot (info_at m tag)) _ _ (λ screen usable.
              bind-EndsIn (check_uefi m info rounds from_ptr) _ _ _ check_uefi-EndsIn
                (λ _ (a, b, c). expect-EndsIn module_tag _ _ (λ place module_first. record {
                  magic_is = (==_iff magic multiboot2_magic).0 right;
                  screen_tag = tag;
                  screen_first = first;
                  screen_is = usable;
                  services = a;
                  image_tag = b.0;
                  image_first = b.1;
                  image_there = b.2;
                  table = c;
                  ramdisk_tag = place;
                  ramdisk_first = module_first;
                  ramdisk_is = refl;
                })))))
          (λ _. tt)

    starts :
        (b : Booted)
        → Starts m info tags magic b
        → read_boot_information m info rounds from_ptr magic ≡ done b
    unfolding read_boot_information check_uefi
    starts b s =
        rw
          (
            (==_iff magic multiboot2_magic).1 s.magic_is,
            expect_found framebuffer_info s.screen_tag s.screen_first,
            s.screen_is,
            expect_found efi_boot_services_not_terminated s.services.0 s.services.1,
            expect_found efi64_bit_image_handle_pointer s.image_tag s.image_first,
            fp.1 (read_u64 m (s.image_tag + 8)) s.image_there,
            expect_found efi64_bit_system_table_pointer s.table.0 s.table.1,
            expect_found module_tag s.ramdisk_tag s.ramdisk_first,
            s.ramdisk_is,
          )
          refl

-- On well-formed boot information, with one round more than there are tags, read_boot_information
-- does not go round for ever, and it ends with a screen and a ramdisk exactly where the magic number
-- is right, the five tags are there, the image handle is not null, and these are what the first of
-- the tags for the framebuffer and for modules say; else it panics.
pub read_boot_information-Starts :
    (m : Memory) (info rounds : ℕ) (from_ptr : ℕ → Option ℕ) (tags : List Tag) (magic : ℕ)
    → IsBootInfo m info tags
    → IsFromPtr from_ptr
    → length tags < rounds
    → (read_boot_information m info rounds from_ptr magic ≢ Outcome.spins)
      × ((b : Booted)
          → (read_boot_information m info rounds from_ptr magic ≡ done b)
            ↔ Starts m info tags magic b)
read_boot_information-Starts m info rounds from_ptr tags magic h fp l =
    let e = ends m info rounds from_ptr tags h fp l magic in
    (
      (λ p. subst (λ r. EndsIn r (Starts m info tags magic)) p e),
      (λ b. (
        (λ p. subst (λ r. EndsIn r (Starts m info tags magic)) p e),
        starts m info rounds from_ptr tags h fp l magic b,
      )),
    )
