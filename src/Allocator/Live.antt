-- ===== src/Allocator/Live.antt =====
-- The heap of kernel/src/allocator/list.rs with the blocks that the kernel holds: any calls of
-- `alloc` and `dealloc`, in any order.
pub mod Safety
mod Holding
use heine_os.Prelude.{
  ℕ, ◌<◌, ◌≡◌, refl, sym, ap, ◌∙◌, ◌⊎◌, inl, inr, Bool, true, false, ◌||◌, Option, none, some, List,
  [], ◌∷◌, map, Outcome, done, Bool_false, true≢false, arith, subst,
}
use heine_os.Allocator.{Block, Layout, LinkedListAllocator, alloc, dealloc}
use heine_os.Allocator.FreeList.{
  stop, IsBlock, IsSorted, Disjoint, Apart, inside, covers, covers_of_Apart, Apart-covers,
  Disjoint-covers,
}
use heine_os.Allocator.Size.{IsLayout, Asks}
use heine_os.Allocator.Insert.{Added, add_free_block-Added}
use heine_os.Allocator.Alloc.{IsHeap, region, Grants}

-- A block in use: the pointer that `alloc` returned, the layout, and the size that it stands for.
pub record Held : Type 0 where
  pub start : ℕ
  pub layout : Layout
  pub size : ℕ
  pub k : ℕ
  pub asks : Asks layout size k

abbrev pub region_of : Held → Block
region_of h = region h.start h.size

abbrev pub regions : List Held → List Block
regions = map region_of

-- Taking one of the held blocks out.
pub data Picks (x : Held) : List Held → List Held → Type 0 where
  here : {xs : List Held} → Picks x (x ∷ xs) xs
  there : {y : Held} {xs ys : List Held} → Picks x xs ys → Picks x (y ∷ xs) (y ∷ ys)

pub record System : Type 0 where
  pub heap : LinkedListAllocator
  pub held : List Held

pub data Step (s : System) : System → Type 0 where
  allocates :
      (l : Layout) (size k : ℕ) (asks : Asks l size k) (start : ℕ) (after : LinkedListAllocator)
      → IsLayout l
      → alloc s.heap l ≡ done (some start, after)
      → Step s (record {
        heap = after;
        held = record { start = start; layout = l; size = size; k = k; asks = asks } ∷ s.held;
      })
  refuses :
      (l : Layout) (after : LinkedListAllocator)
      → IsLayout l
      → alloc s.heap l ≡ done (none, after)
      → Step s (record s { heap = after })
  frees :
      (x : Held) (rest : List Held) (after : LinkedListAllocator)
      → Picks x s.held rest
      → dealloc s.heap x.start x.layout ≡ done after
      → Step s (record { heap = after; held = rest })

-- Every held block is apart from the free list and from the held blocks behind it.
abbrev pub HeldApart : List Block → List Held → Type 0
HeldApart bs [] = Unit {0}
HeldApart bs (h ∷ hs) =
    IsBlock (region_of h)
    × Apart (region_of h) bs
    × Apart (region_of h) (regions hs)
    × HeldApart bs hs

-- All that is free or held lies in the block that the heap was given.
pub record IsConsistent (whole : Block) (s : System) : Type 0 where
  pub heap : IsHeap s.heap
  pub apart : HeldApart s.heap.blocks s.held
  pub within :
      (x : ℕ) → covers s.heap.blocks x || covers (regions s.held) x ≡ true → inside whole x ≡ true
