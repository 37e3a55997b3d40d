-- ===== src/Paging.antt =====
-- kernel/src/paging/pages.rs, with the control registers of kernel/src/device/cpu.rs: the page tables
-- that the boot loader has set up are opened to user mode.
-- An entry is a word of 64 bits, at the address of its first byte.
pub mod Words
pub mod Opening
pub mod Walk
mod Tests
use Prim.Native.Nat.{bit_and, bit_or}
use heine_os.Prelude.{ℕ, zero, suc, ◌+◌, ◌-◌, ◌*◌, ◌^◌, Bool, ◌&&◌, if◌then◌else◌, ltb, ◌==◌}
use heine_os.Machine.{Memory, write}

abbrev pub page_table_entries : ℕ
page_table_entries = 512

-- The bits of `PageFlags` and of `Cr0Flags` that the code uses.
abbrev pub user : ℕ
user = 2 ^ 2

abbrev pub huge_page : ℕ
huge_page = 2 ^ 7

abbrev pub all_flags : ℕ
all_flags = 2 ^ 9 - 1

abbrev pub write_protect : ℕ
write_protect = 2 ^ 16

-- The flags that are written: those of the entry, and the user bit.
unfoldable pub user_flags : ℕ → ℕ
user_flags entry = bit_or (bit_and entry all_flags) user

-- Whether an entry of a table of this level refers to a table.
unfoldable pub is_table : ℕ → ℕ → Bool
is_table level entry = ltb 1 level && bit_and (user_flags entry) huge_page == 0

unfoldable pub next_page_map : ℕ → ℕ
next_page_map entry = bit_and entry (2 ^ 52 - 2 ^ 12)

-- The body of the loop; `descend` is the call for a table of the next level.
unfoldable pub open_entry : (ℕ → Memory → Memory) → ℕ → ℕ → Memory → Memory
open_entry descend level address m =
    let entry = m address in
    let opened = write m address (bit_or entry (user_flags entry)) in
    if entry == 0
    then m
    else (if is_table level entry then descend (next_page_map entry) opened else opened)

-- The loop, over so many entries from an index on.
unfoldable pub open_entries : (ℕ → Memory → Memory) → ℕ → ℕ → ℕ → ℕ → Memory → Memory
open_entries descend level map zero i m = m
open_entries descend level map (suc left) i m =
    open_entries descend level map left (i + 1) (open_entry descend level (map + i * 8) m)

unfoldable pub setup_initial_page_map : ℕ → ℕ → Memory → Memory
setup_initial_page_map zero map m = open_entries (λ next later. later) 0 map page_table_entries 0 m
setup_initial_page_map (suc level) map m =
    open_entries (setup_initial_page_map level) (suc level) map page_table_entries 0 m

-- The control registers and memory.
pub record Processor : Type 0 where
  pub cr0 : ℕ
  pub cr3 : ℕ
  pub memory : Memory

-- `cpu::read_cr0` and `Cr0Flags::remove` or `insert`, and `cpu::write_cr0`.
abbrev pub cr0_removed : ℕ → Processor → Processor
cr0_removed flag p = record p { cr0 = bit_and p.cr0 (2 ^ 64 - 1 - flag) }

abbrev pub cr0_inserted : ℕ → Processor → Processor
cr0_inserted flag p = record p { cr0 = bit_or p.cr0 flag }

unfoldable pub read_cr3 : Processor → ℕ
read_cr3 p = bit_and p.cr3 (2 ^ 64 - 2 ^ 12)

unfoldable pub setup_initial_paging : Processor → Processor
setup_initial_paging p =
    let writable = cr0_removed write_protect p in
    let opened : Processor = record writable {
      memory = setup_initial_page_map 4 (read_cr3 writable) writable.memory;
    } in
    cr0_inserted write_protect opened
