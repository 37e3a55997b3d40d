-- ===== src/Boot.antt =====
-- kernel/src/boot.rs: what `main` takes from the boot information, and the start of the drivers.
-- The services of the firmware, the descriptor tables and the heap are set up by calls of other
-- parts, assembly or third-party code, and not part of these functions.
pub mod Information
pub mod Accesses
pub mod Drivers
mod Tests
use heine_os.Prelude.{
  ℕ, ◌+◌, ◌<◌, ◌≡◌, Bool, not, Option, none, some, List, if◌then◌else◌, ◌==◌, Outcome, done, panics,
  spins, ◌>>=◌, unwrap,
}
use heine_os.Ports.{Device, Io, lift, carry}
use heine_os.Multiboot.{
  Memory, TagType, framebuffer_info, efi_boot_services_not_terminated, module_tag,
  efi64_bit_system_table_pointer, efi64_bit_image_handle_pointer, read_u32, read_u64, byte_at,
  find_tag, module_as_slice,
}
use heine_os.Framebuffer.{
  Framebuffer, FramebufferInfo, FramebufferType, indexed, rgb, text, from_multiboot,
}
use heine_os.Interrupts.{no_vectors, register}
use heine_os.Pci.{PciDevice}

abbrev pub multiboot2_magic : ℕ
multiboot2_magic = 920085129

-- The fields of the framebuffer's tag.
abbrev pub framebuffer_type : ℕ → FramebufferType
framebuffer_type n = if n == 1 then rgb else (if n == 2 then text else indexed)

abbrev pub info_at : Memory → ℕ → FramebufferInfo
info_at m tag = record {
  info_address = read_u64 m (tag + 8);
  info_pitch = read_u32 m (tag + 16);
  info_width = read_u32 m (tag + 20);
  info_height = read_u32 m (tag + 24);
  bpp = byte_at m (tag + 28);
  typ = framebuffer_type (byte_at m (tag + 29));
}

-- What the kernel goes on with: the screen, and the bytes of the initial ramdisk.
pub record Booted : Type 0 where
  pub screen : Framebuffer
  pub ramdisk : List ℕ

-- What the documentation of `uefi::Handle::from_ptr` says: only a null pointer gives no handle.
abbrev pub IsFromPtr : (ℕ → Option ℕ) → Type 0
IsFromPtr from_ptr = (from_ptr 0 ≡ none) × ((p : ℕ) → 0 < p → from_ptr p ≡ some p)

module _ (m : Memory) (info rounds : ℕ) where
  -- `find_tag(...).expect(...)`.
  abbrev pub expect_tag : TagType → Outcome ℕ
  expect_tag tag_type = find_tag m info tag_type rounds >>= unwrap

  -- `uefi::Handle::from_ptr` of the third-party crate is a parameter.
  module _ (handle_from_ptr : ℕ → Option ℕ) where
    -- `exit_uefi_boot_services`, up to the calls of the firmware.
    unfoldable pub check_uefi : Outcome (Unit {0})
    check_uefi = expect_tag efi_boot_services_not_terminated >>= λ _.
        expect_tag efi64_bit_image_handle_pointer >>= λ tag.
        unwrap (handle_from_ptr (read_u64 m (tag + 8))) >>= λ _.
        expect_tag efi64_bit_system_table_pointer >>= λ _. done tt

    -- `main`, up to the initial ramdisk.
    unfoldable pub read_boot_information : ℕ → Outcome Booted
    read_boot_information multiboot_magic =
        if not (multiboot_magic == multiboot2_magic)
        then panics
        else expect_tag framebuffer_info >>= λ tag.
            unwrap (from_multiboot (info_at m tag)) >>= λ screen. check_uefi >>= λ _.
            expect_tag module_tag >>= λ initrd.
            done (record { screen = screen; ramdisk = module_as_slice m initrd })
