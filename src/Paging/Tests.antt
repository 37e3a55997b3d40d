-- ===== src/Paging/Tests.antt =====
-- Two tables: an entry that refers to the second table, and there a huge page.
use heine_os.Prelude.{◌≡◌, refl, if◌then◌else◌, ◌==◌, arith}
use heine_os.Machine.{Memory}
use heine_os.Paging.{
  Processor, open_entry, open_entries, user_flags, is_table, next_page_map, setup_initial_paging,
}
use heine_os.Paging.Walk.{IsOpened, setup_initial_paging-IsOpened}

abbrev tables : Memory
tables a = if a == 4096 then 8195 else (if a == 8192 then 4194435 else 0)

abbrev processor : Processor
processor = record { cr0 = 2147549203; cr3 = 4096; memory = tables }

abbrev two_levels : Memory
two_levels =
    open_entries (λ next m. open_entries (λ last later. later) 3 next 2 0 m) 4 4096 2 0 tables

first_has_user : two_levels 4096 ≡ 8199
unfolding open_entries open_entry user_flags is_table next_page_map
first_has_user = refl

huge_has_user : two_levels 8192 ≡ 4194439
unfolding open_entries open_entry user_flags is_table next_page_map
huge_has_user = refl

setup_initial_paging-IsOpened_example : IsOpened processor (setup_initial_paging processor)
setup_initial_paging-IsOpened_example = setup_initial_paging-IsOpened processor (omega arith)
