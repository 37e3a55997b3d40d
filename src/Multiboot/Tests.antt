-- ===== src/Multiboot/Tests.antt =====
-- A boot information with two tags, and one whose first tag claims a size close to 2 ^ 32.
use heine_os.Prelude.{
  ◌-◌, ◌≡◌, ◌↔◌, refl, Bool, true, none, some, List, [], ◌∷◌, get_or, done, spins, arith,
}
use heine_os.Multiboot.{
  Memory, boot_loader_name, module_tag, read_u32, padded_size, find_from, find_tag, bytes_at,
  from_bytes_with_nul, convert_str, boot_loader_name_as_str, command_line,
}
use heine_os.Multiboot.Search.{Tag, IsBootInfo, IsTooLarge, find_tag-first_at, find_tag_stuck}
use heine_os.Multiboot.Text.{NoNull, convert_str_iff}

-- The name of the loader is the text `ab`.
abbrev named : Memory
named a =
    get_or
      (32 ∷ 0 ∷ 0 ∷ 0 ∷ 0 ∷ 0 ∷ 0 ∷ 0 ∷ 2 ∷ 0 ∷ 0 ∷ 0 ∷ 11 ∷ 0 ∷ 0 ∷ 0 ∷ 97 ∷ 98 ∷ 0 ∷ 0 ∷ 0 ∷ 0 ∷ 0
        ∷ 0 ∷ 0 ∷ 0 ∷ 0 ∷ 0 ∷ 8 ∷ 0 ∷ 0 ∷ 0 ∷ [])
      (a - 16) 0

abbrev two_tags : List Tag
two_tags = (2, 11) ∷ (0, 8) ∷ []

named-IsBootInfo : IsBootInfo named 16 two_tags
unfolding read_u32
named-IsBootInfo = record {
  address = omega arith;
  laid = omega arith;
  sized = omega arith;
  inside = omega arith;
  fits = omega arith;
}

find_tag-first_at_example : find_tag named 16 boot_loader_name 3 ≡ done (some 24)
find_tag-first_at_example =
    find_tag-first_at named 16 boot_loader_name two_tags 3 named-IsBootInfo (omega arith)

no_module : find_tag named 16 module_tag 3 ≡ done none
unfolding find_tag find_from read_u32 padded_size
no_module = refl

convert_str_iff_example : (convert_str (λ _. true) 8 named 24 ≡ done (97 ∷ 98 ∷ [])) ↔ (
    (bytes_at named 32 3 ≡ (97 ∷ 98 ∷ 0 ∷ [])) × NoNull (97 ∷ 98 ∷ []) × (◌≡◌ {A = Bool} true true))
unfolding read_u32
convert_str_iff_example =
    convert_str_iff (λ _. true) 8 named 24 (97 ∷ 98 ∷ []) (omega arith) (omega arith)

name_is : boot_loader_name_as_str (λ _. true) named 24 ≡ done (97 ∷ 98 ∷ [])
unfolding convert_str from_bytes_with_nul read_u32
name_is = refl

abbrev oversized : Memory
oversized a =
    get_or (32 ∷ 0 ∷ 0 ∷ 0 ∷ 0 ∷ 0 ∷ 0 ∷ 0 ∷ 2 ∷ 0 ∷ 0 ∷ 0 ∷ 255 ∷ 255 ∷ 255 ∷ 255 ∷ []) (a - 16) 0

oversized-IsTooLarge : IsTooLarge oversized 16 command_line 24
unfolding read_u32
oversized-IsTooLarge = record { other_type = omega arith; large = omega arith; fits = omega arith }

find_tag_stuck_example : find_tag oversized 16 command_line 1000 ≡ spins
unfolding read_u32
find_tag_stuck_example =
    find_tag_stuck oversized 16 command_line [] 1000 (omega arith) tt tt oversized-IsTooLarge
      (omega arith) (omega arith) (omega arith)
