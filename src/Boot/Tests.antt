-- ===== src/Boot/Tests.antt =====
-- A boot information with the five tags, and controllers that keep their masks.
use heine_os.Prelude.{
  ◌-◌, ◌≡◌, ◌≢◌, ◌↔◌, refl, ◌<◌, List, [], ◌∷◌, get_or, if◌then◌else◌, ◌==◌, ◌&&◌, Option, none,
  some, zero, suc, ℕ, ==_iff, Bool_false, Outcome, done, panics, arith,
}
use heine_os.Ports.{Device, did_read, did_write}
use heine_os.Pic.Controller.{Keeps, pending}
use heine_os.Multiboot.{
  Memory, read_u32, read_u64, find_tag, find_from, padded_size, module_as_slice, module_size,
}
use heine_os.Multiboot.Search.{Tag, IsBootInfo}
use heine_os.Framebuffer.{from_multiboot}
use heine_os.Boot.{Booted, IsFromPtr, read_boot_information, check_uefi}
use heine_os.Boot.Information.{Starts, read_boot_information-Starts}
use heine_os.Boot.Drivers.{Started, start_first_drivers, start_first_drivers-Started}

abbrev information : Memory
information a =
    get_or
      (112 ∷ 0 ∷ 0 ∷ 0 ∷ 0 ∷ 0 ∷ 0 ∷ 0 ∷ 8 ∷ 0 ∷ 0 ∷ 0 ∷ 32 ∷ 0 ∷ 0 ∷ 0 ∷ 0 ∷ 16 ∷ 0 ∷ 0 ∷ 0 ∷ 0 ∷ 0
        ∷ 0 ∷ 8 ∷ 0 ∷ 0 ∷ 0 ∷ 2 ∷ 0 ∷ 0 ∷ 0 ∷ 2 ∷ 0 ∷ 0 ∷ 0 ∷ 32 ∷ 1 ∷ 0 ∷ 0 ∷ 18 ∷ 0 ∷ 0 ∷ 0 ∷ 8
        ∷ 0 ∷ 0 ∷ 0 ∷ 20 ∷ 0 ∷ 0 ∷ 0 ∷ 16 ∷ 0 ∷ 0 ∷ 0 ∷ 64 ∷ 0 ∷ 0 ∷ 0 ∷ 0 ∷ 0 ∷ 0 ∷ 0 ∷ 12 ∷ 0 ∷ 0
        ∷ 0 ∷ 16 ∷ 0 ∷ 0 ∷ 0 ∷ 0 ∷ 0 ∷ 0 ∷ 0 ∷ 0 ∷ 0 ∷ 0 ∷ 0 ∷ 3 ∷ 0 ∷ 0 ∷ 0 ∷ 17 ∷ 0 ∷ 0 ∷ 0 ∷ 16
        ∷ 0 ∷ 0 ∷ 0 ∷ 20 ∷ 0 ∷ 0 ∷ 0 ∷ 0 ∷ 0 ∷ 0 ∷ 0 ∷ 0 ∷ 0 ∷ 0 ∷ 0 ∷ 0 ∷ 0 ∷ 0 ∷ 0 ∷ 8 ∷ 0 ∷ 0 ∷ 0
        ∷ [])
      (a - 16) 0

abbrev six_tags : List Tag
six_tags = (8, 32) ∷ (18, 8) ∷ (20, 16) ∷ (12, 16) ∷ (3, 17) ∷ (0, 8) ∷ []

information-IsBootInfo : IsBootInfo information 16 six_tags
unfolding read_u32
information-IsBootInfo = record {
  address = omega arith;
  laid = omega arith;
  sized = omega arith;
  inside = omega arith;
  fits = omega arith;
}

-- `uefi::Handle::from_ptr`.
abbrev non_null : ℕ → Option ℕ
non_null zero = none
non_null (suc p) = some (suc p)

non_null-IsFromPtr : IsFromPtr non_null
non_null-IsFromPtr = (refl, positive)
  where
    positive : (p : ℕ) → 0 < p → non_null p ≡ some p
    positive zero h = absurd (omega arith)
    positive (suc p) h = refl

read_boot_information-Starts_example :
    (read_boot_information information 16 7 non_null 920085129 ≢ Outcome.spins)
    × ((b : Booted)
        → (read_boot_information information 16 7 non_null 920085129 ≡ done b)
          ↔ Starts information 16 six_tags 920085129 b)
read_boot_information-Starts_example =
    read_boot_information-Starts information 16 7 non_null six_tags 920085129 information-IsBootInfo
      non_null-IsFromPtr (omega arith)

abbrev expected : Booted
expected = record {
  screen = record { width = 2; height = 2; pitch = 8; address = 4096 };
  ramdisk = 112 ∷ 0 ∷ 0 ∷ 0 ∷ [];
}

starts_here : read_boot_information information 16 7 non_null 920085129 ≡ done expected
unfolding read_boot_information check_uefi find_tag find_from padded_size read_u32 read_u64
    from_multiboot module_as_slice module_size
starts_here = refl

-- Two controllers: the masks start at zero, and a byte for a data port that comes behind the
-- initialisation is one; within it there is none.
abbrev masks : Device
masks [] port = 0
masks (did_read other value ∷ t) port = masks t port
masks (did_write other value ∷ t) port =
    let before = masks t port in
    let ready = (port == other) && (pending port t == 0) in if ready then value else before

masks-Keeps : Keeps masks
masks-Keeps = record {
  written = λ t port value d e h. rw ((==_iff port port).1 refl, e) refl;
  beside = λ t port other value d h k.
      rw (Bool_false (port == other) (λ e. h ((==_iff port other).0 e))) refl;
  reading = λ t port other value d. refl;
}

data Driver : Type 0 where
  timer : Driver
  keyboard : Driver

start_first_drivers-Started_example :
    Started masks timer keyboard (start_first_drivers masks timer keyboard [])
start_first_drivers-Started_example =
    start_first_drivers-Started masks timer keyboard [] masks-Keeps

-- A null image handle.
no_handle : check_uefi (λ a. if a == 60 then 0 else information a) 16 7 non_null ≡ panics
unfolding check_uefi find_tag find_from padded_size read_u32 read_u64
no_handle = refl
