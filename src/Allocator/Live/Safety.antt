-- ===== src/Allocator/Live/Safety.antt =====
-- No two blocks that the heap of kernel/src/allocator/list.rs has handed out overlap, and none
-- overlaps what is free.
use heine_os.Prelude.{
  ℕ, ◌≡◌, refl, ap, ◌∙◌, Bool, true, false, ◌||◌, none, some, List, [], ◌∷◌, done, arith, subst,
  subst₂,
}
use heine_os.Allocator.{
  add_usize, Block, Layout, LinkedListAllocator, alloc, dealloc, init, new_allocator,
}
use heine_os.Allocator.FreeList.{IsBlock, inside, covers}
use heine_os.Allocator.Size.{Asks}
use heine_os.Allocator.Insert.{add_free_block-Added}
use heine_os.Allocator.Alloc.{
  region, Grants, Allocates, granted, refused, alloc-Allocates, alloc_asked, dealloc_asked,
}
use heine_os.Allocator.Live.{
  Held, region_of, regions, Picks, System, Step, allocates, refuses, frees, IsConsistent,
}
use heine_os.Allocator.Live.Holding.{
  HeldApart-shrink, HeldApart-grow, free-Apart, picked, covers-picked,
}

middle : (a b c : Bool) → b ≡ true → a || (b || c) ≡ true
middle a b c e = ground arith

last : (a b c : Bool) → c ≡ true → a || (b || c) ≡ true
last a b c e = ground arith

module _ (whole : Block) where
  granted_within :
      (before gap r after held inside_whole : Bool)
      → before ≡ gap || (r || after)
      → (before || held ≡ true → inside_whole ≡ true)
      → after || (r || held) ≡ true
      → inside_whole ≡ true
  granted_within before gap r after held w e h t = ground (arith, h)

  granted-IsConsistent :
      {s : System} (l : Layout) (size k : ℕ) (asks : Asks l size k)
      (g : Grants s.heap l (alloc s.heap l) size k)
      → IsConsistent whole s
      → IsConsistent whole (record {
        heap = g.after;
        held = record { start = g.start; layout = l; size = size; k = k; asks = asks } ∷ s.held;
      })
  granted-IsConsistent {s} l size k asks g c = record {
    heap = g.heap;
    apart = (
      g.block,
      g.apart,
      free-Apart (region g.start size) s.heap.blocks s.held g.block
          (λ x e. g.covered x ∙ middle _ _ _ e) c.apart,
      HeldApart-shrink s.heap.blocks g.after.blocks s.held g.heap.sorted
          (λ x e. g.covered x ∙ last _ _ _ e) c.apart,
    );
    within = λ x e.
        granted_within _ (inside g.gap x) _ (covers g.after.blocks x) (covers (regions s.held) x) _
          (g.covered x) (c.within x) e;
  }

  freed_within :
      (after x before held rest inside_whole : Bool)
      → after ≡ x || before
      → held ≡ x || rest
      → (before || held ≡ true → inside_whole ≡ true)
      → after || rest ≡ true
      → inside_whole ≡ true
  freed_within after x before held rest w e f h t = ground (arith, h)

  freed-IsConsistent :
      {s : System} (x : Held) (rest : List Held) (p : Picks x s.held rest)
      → IsConsistent whole s
      → (back : LinkedListAllocator) × (dealloc s.heap x.start x.layout ≡ done back)
        × IsConsistent whole (record { heap = back; held = rest })
  freed-IsConsistent {s} x rest p c =
      let r = picked s.heap.blocks p c.apart in
      let d = add_free_block-Added s.heap x.start x.size c.heap.no_size r.0 c.heap.sorted r.1 in
      (
        d.after,
        dealloc_asked s.heap x.start x.layout x.asks ∙ d.result,
        record {
          heap = record {
            no_size = ap (λ (b : Block). b.size) d.same_head ∙ c.heap.no_size;
            sorted = d.sorted;
          };
          apart =
              HeldApart-grow (region_of x) s.heap.blocks d.after.blocks rest d.sorted d.covered r.2
                r.3;
          within = λ a e.
              freed_within (covers d.after.blocks a) (inside (region_of x) a)
                (covers s.heap.blocks a) (covers (regions s.held) a) (covers (regions rest) a) _
                (d.covered a) (covers-picked a p) (c.within a) e;
        },
      )

  allocated-IsConsistent :
      {s : System} (l : Layout) (size k : ℕ) (asks : Asks l size k) (start : ℕ)
      (after : LinkedListAllocator)
      → alloc s.heap l ≡ done (some start, after)
      → Allocates s.heap l (alloc s.heap l) size k
      → IsConsistent whole s
      → IsConsistent whole (record {
        heap = after;
        held = record { start = start; layout = l; size = size; k = k; asks = asks } ∷ s.held;
      })
  allocated-IsConsistent {s} l size k asks start after e (granted g) c =
      subst₂
        (λ (at : ℕ) (h : LinkedListAllocator). IsConsistent whole (record {
          heap = h;
          held = record { start = at; layout = l; size = size; k = k; asks = asks } ∷ s.held;
        }))
        (cc g.result) (cc g.result) (granted-IsConsistent l size k asks g c)
  allocated-IsConsistent l size k asks start after e (refused r n) c = cc

  refused-same :
      (a after : LinkedListAllocator) (l : Layout) (size k : ℕ)
      → alloc a l ≡ done (none, after)
      → Allocates a l (alloc a l) size k
      → a ≡ after
  refused-same a after l size k e (granted g) = cc (g.result)
  refused-same a after l size k e (refused r n) = cc r

  Step-IsConsistent : {s t : System} → Step s t → IsConsistent whole s → IsConsistent whole t
  Step-IsConsistent {s} (allocates l size k asks start after v e) c =
      allocated-IsConsistent l size k asks start after e (alloc_asked s.heap l size k c.heap asks) c
  Step-IsConsistent {s} (refuses l after v e) c =
      let r = alloc-Allocates s.heap l c.heap v in
      subst (λ (h : LinkedListAllocator). IsConsistent whole (record s { heap = h }))
        (refused-same s.heap after l r.0 r.1 e r.3) c
  Step-IsConsistent (frees x rest after p e) c =
      let r = freed-IsConsistent x rest p c in
      subst (λ (h : LinkedListAllocator). IsConsistent whole (record { heap = h; held = rest }))
        (cc r.1) r.2

-- Any number of calls of `alloc` and `dealloc` on held blocks.
pub data Reach (first : System) : System → Type 0 where
  start : Reach first first
  later : {s t : System} → Reach first s → Step s t → Reach first t

Reach-IsConsistent :
    (whole : Block) {first s : System}
    → IsConsistent whole first
    → Reach first s
    → IsConsistent whole s
Reach-IsConsistent whole c start = c
Reach-IsConsistent whole c (later r st) = Step-IsConsistent whole st (Reach-IsConsistent whole c r)

init-IsConsistent :
    (at heap_start heap_size : ℕ) {a : LinkedListAllocator}
    → IsBlock (region heap_start heap_size)
    → init (new_allocator at) heap_start heap_size ≡ done a
    → IsConsistent (region heap_start heap_size) (record { heap = a; held = [] })
unfolding init new_allocator
init-IsConsistent at heap_start heap_size {a} hb e =
    let d = add_free_block-Added (new_allocator at) heap_start heap_size refl hb tt tt in
    let filled : LinkedListAllocator = record d.after {
      heap_start = heap_start;
      heap_end = add_usize heap_start heap_size;
    } in
    let opened : init (new_allocator at) heap_start heap_size ≡ done filled = rw d.result in
    let same : filled ≡ a = cc opened in
    subst
      (λ (h : LinkedListAllocator).
        IsConsistent (region heap_start heap_size) (record { heap = h; held = [] }))
      same
      (record {
        heap = record { no_size = ap (λ (b : Block). b.size) d.same_head; sorted = d.sorted };
        apart = tt;
        within = λ x t.
            alone (inside (region heap_start heap_size) x) (covers d.after.blocks x) (d.covered x)
              t;
      })
  where
    alone : (w c : Bool) → c ≡ w || false → c || false ≡ true → w ≡ true
    alone w c e t = ground arith

-- A heap that `init` was given, after any calls of `alloc` and of `dealloc` on blocks in use: the
-- blocks in use are apart from each other and from what is free, all of it lies in the memory that
-- `init` was given, and the next `dealloc` of a block in use does not panic.
pub heap_safe :
    (at heap_start heap_size : ℕ) {a : LinkedListAllocator} {s : System}
    → IsBlock (region heap_start heap_size)
    → init (new_allocator at) heap_start heap_size ≡ done a
    → Reach (record { heap = a; held = [] }) s
    → IsConsistent (region heap_start heap_size) s
      × ((x : Held) (rest : List Held)
          → Picks x s.held rest
          → (back : LinkedListAllocator) × (dealloc s.heap x.start x.layout ≡ done back))
heap_safe at heap_start heap_size hb e r =
    let c = Reach-IsConsistent _ (init-IsConsistent at heap_start heap_size hb e) r in
    (c, λ x rest p. let f = freed-IsConsistent _ x rest p c in (f.0, f.1))
