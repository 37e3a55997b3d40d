-- ===== src/Bump/Tests.antt =====
-- A heap of 100 bytes and requests for 180.
use heine_os.Prelude.{◌≡◌, refl, List, [], ◌∷◌, arith}
use heine_os.Allocator.{align_up}
use heine_os.Bump.{BumpAllocator, new_bump, init_bump, bump_alloc}
use heine_os.Bump.Blocks.{Request, alloc_all, Chained, alloc_all-Chained}

abbrev heap : BumpAllocator
heap = init_bump 4096 100 new_bump

abbrev requests : List Request
requests = (90, 3) ∷ (90, 4) ∷ []

alloc_all-Chained_example :
    Chained requests (alloc_all requests heap).0 heap.next (alloc_all requests heap).1.next
unfolding init_bump
alloc_all-Chained_example =
    alloc_all-Chained requests heap (omega arith, (omega arith, tt)) (omega arith)

-- The second block lies behind the end of the heap.
beyond : (alloc_all requests heap).0 ≡ 4096 ∷ 4192 ∷ []
unfolding alloc_all bump_alloc init_bump align_up
beyond = refl
