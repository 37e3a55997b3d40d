-- ===== src/Allocator/Tests.antt =====
-- Runs of kernel/src/allocator/{global,list}.rs on a heap of 256 bytes at 4096.
use native.Mathlib.Nat.{dvd_refl}
use heine_os.Prelude.{
  ℕ, ◌≡◌, inl, inr, refl, Option, none, some, List, [], ◌∷◌, Outcome, done, panics, arith,
}
use heine_os.Allocator.{
  Layout, LinkedListAllocator, align_up, new_allocator, init, add_free_block, alloc, dealloc,
  size_align, place, find_free_block, check_block_for_alloc,
}
use heine_os.Allocator.Size.{IsLayout, Asks}
use heine_os.Allocator.Insert.{Added, add_free_block-Added}
use heine_os.Allocator.Alloc.{
  IsHeap, region, Grants, Allocates, granted, refused, alloc_asked, alloc-Allocates,
}
use heine_os.Allocator.Live.{Held, Picks, allocates, IsConsistent}
use heine_os.Allocator.Live.Safety.{start, later, heap_safe}

-- Free: 4096 to 4128 and 4160 to 4352.
abbrev heap : LinkedListAllocator
heap = record {
  head = record { start_addr = 64; size = 0 };
  blocks = region 4096 32 ∷ region 4160 192 ∷ [];
  heap_start = 4096;
  heap_end = 4352;
}

abbrev fresh : LinkedListAllocator
fresh = record heap { blocks = region 4096 256 ∷ [] }

abbrev words : Layout
words = record { size = 24; align = 8 }

abbrev page : Layout
page = record { size = 16; align = 64 }

-- A request of 24 bytes would leave 8 of the first block, too few for a node: the second is cut.
alloc_skips :
    alloc heap words
    ≡ done (some 4160, record heap { blocks = region 4096 32 ∷ region 4184 168 ∷ [] })
unfolding alloc find_free_block check_block_for_alloc align_up size_align add_free_block place
alloc_skips = refl

dealloc_joins : dealloc heap 4128 (record { size = 32; align = 8 }) ≡ done fresh
unfolding dealloc size_align add_free_block place
dealloc_joins = refl

double_free : dealloc heap 4096 words ≡ panics
unfolding dealloc size_align add_free_block place
double_free = refl

no_room : alloc heap (record { size = 200; align = 8 }) ≡ done (none, heap)
unfolding alloc find_free_block check_block_for_alloc align_up size_align add_free_block place
no_room = refl

heap-IsHeap : IsHeap heap
heap-IsHeap = record { no_size = refl; sorted = (omega arith, (omega arith, omega arith, tt)) }

words-IsLayout : IsLayout words
words-IsLayout = record { power = 3; align_is = refl; room = omega arith }

page-IsLayout : IsLayout page
page-IsLayout = record { power = 6; align_is = refl; room = omega arith }

words-Asks : Asks words 24 3
unfolding size_align
words-Asks = record {
  computed = refl;
  covers_layout = omega arith;
  holds_node = omega arith;
  fits = omega arith;
  size_aligned = omega arith;
  k_low = omega arith;
  k_high = omega arith;
  divides = dvd_refl 8;
}

grant_of :
    {a : LinkedListAllocator} {l : Layout} {r : Outcome (Option ℕ × LinkedListAllocator)}
    {size k p : ℕ} {after : LinkedListAllocator}
    → Allocates a l r size k
    → r ≡ done (some p, after)
    → Grants a l r size k
grant_of (granted g) e = g
grant_of (refused r n) e = cc r

words-Grants : Grants heap words (alloc heap words) 24 3
words-Grants = grant_of (alloc_asked heap words 24 3 heap-IsHeap words-Asks) alloc_skips

add_free_block-Added_example : Added (add_free_block heap 4128 32) heap (region 4128 32)
add_free_block-Added_example =
    add_free_block-Added heap 4128 32 refl (omega arith) heap-IsHeap.sorted
      (inr (omega arith), (inl (omega arith), tt))

alloc-Allocates_example :
    (size k : ℕ) × Asks page size k × Allocates heap page (alloc heap page) size k
alloc-Allocates_example = alloc-Allocates heap page heap-IsHeap page-IsLayout

abbrev after_words : LinkedListAllocator
after_words = record fresh { blocks = region 4120 232 ∷ [] }

abbrev in_use : Held
in_use = record { start = 4096; layout = words; size = 24; k = 3; asks = words-Asks }

one_allocated : alloc fresh words ≡ done (some 4096, after_words)
unfolding alloc find_free_block check_block_for_alloc align_up size_align add_free_block place
one_allocated = refl

heap_safe_example :
    IsConsistent (region 4096 256) (record { heap = after_words; held = in_use ∷ [] })
    × ((x : Held) (rest : List Held)
        → Picks x (in_use ∷ []) rest
        → (back : LinkedListAllocator) × (dealloc after_words x.start x.layout ≡ done back))
unfolding init new_allocator add_free_block place
heap_safe_example =
    heap_safe 64 4096 256 (omega arith) refl
      (later start (allocates words 24 3 words-Asks 4096 after_words words-IsLayout one_allocated))
