-- ===== src/Idt/Tests.antt =====
-- A table whose functions lie 16 bytes apart.
use heine_os.Prelude.{ℕ, ◌+◌, ◌*◌, ◌≡◌, refl, some, length, get_elem?, arith}
use heine_os.Idt.{IdtEntry, new_descriptor, IdtDescriptor}
use heine_os.Idt.Table.{entries_of, new_idt}
use heine_os.Idt.Gates.{IsGate, address_for, privilege_for, type_for, new_idt-IsGate}

abbrev with_code : ℕ → ℕ
with_code n = 1048576 + n * 32

abbrev without_code : ℕ → ℕ
without_code n = 1048576 + n * 32 + 16

new_idt-IsGate_example :
    (length (new_idt with_code without_code 2097152) ≡ 256)
    × ((e : IdtEntry) × (get_elem? (new_idt with_code without_code 2097152) 14 ≡ some e)
        × IsGate
            (address_for with_code without_code 2097152 14)
            (privilege_for with_code without_code 2097152 14)
            (type_for with_code without_code 2097152 14)
            e)
new_idt-IsGate_example =
    new_idt-IsGate with_code without_code 2097152 14 (omega arith) (omega arith) (omega arith)
      (omega arith)

limit_of_table :
    IdtDescriptor.limit (new_descriptor (new_idt with_code without_code 2097152) 0) ≡ 4095
unfolding new_descriptor new_idt entries_of
limit_of_table = refl
