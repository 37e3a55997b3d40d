-- ===== src/Multiboot.antt =====
-- kernel/src/multiboot.rs: the boot information, on a memory of bytes.
-- A reference is the address that it points to; a sum of `u32` or `usize` wraps. The type of a tag
-- is compared as the number that stands in memory.
pub mod Search
pub mod Text
mod Tests
use Prim.Native.Nat.{bit_and}
use heine_os.Prelude.{
  ℕ, zero, suc, ◌+◌, ◌-◌, ◌*◌, ◌%◌, ◌^◌, Bool, true, false, Option, none, some, List, [], ◌∷◌,
  if◌then◌else◌, ltb, ◌==◌, Outcome, done, panics, spins,
}

abbrev pub Memory : Type 0
Memory = ℕ → ℕ

abbrev pub byte_at : Memory → ℕ → ℕ
byte_at m a = m a % 2 ^ 8

-- Four bytes, the lowest first.
unfoldable pub read_u32 : Memory → ℕ → ℕ
read_u32 m a =
    byte_at m a
    + byte_at m (a + 1) * 2 ^ 8
    + byte_at m (a + 2) * 2 ^ 16
    + byte_at m (a + 3) * 2 ^ 24

unfoldable pub read_u64 : Memory → ℕ → ℕ
read_u64 m a = read_u32 m a + read_u32 m (a + 4) * 2 ^ 32

pub data TagType : Type 0 where
  command_line : TagType
  boot_loader_name : TagType
  module_tag : TagType
  framebuffer_info : TagType
  efi64_bit_system_table_pointer : TagType
  efi_boot_services_not_terminated : TagType
  efi64_bit_image_handle_pointer : TagType

abbrev pub type_number : TagType → ℕ
type_number command_line = 1
type_number boot_loader_name = 2
type_number module_tag = 3
type_number framebuffer_info = 8
type_number efi64_bit_system_table_pointer = 12
type_number efi_boot_services_not_terminated = 18
type_number efi64_bit_image_handle_pointer = 20

-- The fields of a tag's header and of the boot information, by their address.
abbrev pub tag_typ : Memory → ℕ → ℕ
tag_typ m tag = read_u32 m tag

abbrev pub tag_size : Memory → ℕ → ℕ
tag_size m tag = read_u32 m (tag + 4)

abbrev pub total_size : Memory → ℕ → ℕ
total_size m info = read_u32 m info

-- `(tag.size + 7) & !7`.
unfoldable pub padded_size : ℕ → ℕ
padded_size size = bit_and ((size + 7) % 2 ^ 32) (2 ^ 32 - 8)

module _ (m : Memory) (info : ℕ) (tag_type : TagType) where
  -- The loop, for so many rounds at most: with none left it is taken never to end.
  unfoldable pub find_from : ℕ → ℕ → Outcome (Option ℕ)
  find_from zero offset = spins
  find_from (suc rounds) offset =
      let tag = (info + offset) % 2 ^ 64 in
      let later = find_from rounds ((offset + padded_size (tag_size m tag)) % 2 ^ 64) in
      if ltb offset (total_size m info)
      then (if tag == 0
          then panics
          else (if tag_typ m tag == type_number tag_type
              then done (some tag)
              else (if tag_size m tag == 0 then done none else later)))
      else done none

  unfoldable pub find_tag : ℕ → Outcome (Option ℕ)
  find_tag rounds = find_from rounds 8

-- So many bytes from an address on.
abbrev pub bytes_at : Memory → ℕ → ℕ → List ℕ
bytes_at m a zero = []
bytes_at m a (suc n) = byte_at m a ∷ bytes_at m (a + 1) n

-- `CStr::from_bytes_with_nul`: the text before the null byte, which is the last byte and the only one.
unfoldable pub from_bytes_with_nul : List ℕ → Option (List ℕ)
from_bytes_with_nul [] = none
from_bytes_with_nul (b ∷ []) = if b == 0 then some [] else none
from_bytes_with_nul (b ∷ c ∷ bytes) =
    let rest = from_bytes_with_nul (c ∷ bytes) in
    if b == 0 then none else elim rest [ none ↦ none | some text ↦ some (b ∷ text) ]

-- `valid` stands for the test of `to_str`: the bytes are UTF-8.
module _ (valid : List ℕ → Bool) where
  abbrev pub to_str : Option (List ℕ) → Outcome (List ℕ)
  to_str none = panics
  to_str (some text) = if valid text then done text else panics

  -- `convert_str`, for a tag whose text stands after so many bytes.
  unfoldable pub convert_str : ℕ → Memory → ℕ → Outcome (List ℕ)
  convert_str header m tag =
      let len = (tag_size m tag + 2 ^ 64 - header) % 2 ^ 64 in
      to_str (from_bytes_with_nul (bytes_at m (tag + header) len))

  abbrev pub command_line_as_str : Memory → ℕ → Outcome (List ℕ)
  command_line_as_str = convert_str 8

  abbrev pub boot_loader_name_as_str : Memory → ℕ → Outcome (List ℕ)
  boot_loader_name_as_str = convert_str 8

  abbrev pub module_name : Memory → ℕ → Outcome (List ℕ)
  module_name = convert_str 16

unfoldable pub module_size : Memory → ℕ → ℕ
module_size m tag = (read_u32 m (tag + 12) + 2 ^ 32 - read_u32 m (tag + 8)) % 2 ^ 32

unfoldable pub module_as_slice : Memory → ℕ → List ℕ
module_as_slice m tag = bytes_at m (read_u32 m (tag + 8)) (module_size m tag)

abbrev pub efi_pointer : Memory → ℕ → ℕ
efi_pointer m tag = read_u64 m (tag + 8)
