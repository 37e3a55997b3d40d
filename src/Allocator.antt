-- ===== src/Allocator.antt =====
-- kernel/src/allocator/{global,list}.rs: the heap of the kernel.
-- A `usize` is a number below 2 ^ 64, and its sums wrap as in a release build. A free block is a
-- `ListNode` at its own address; the list that the allocator owns is the chain of those nodes, each
-- the only owner of the next. Memory itself is not modelled: the blocks and addresses are.
pub mod Align
pub mod FreeList
pub mod Size
pub mod Insert
pub mod Find
pub mod Alloc
pub mod Live
mod Tests
use Prim.Native.Nat.{bit_and}
use heine_os.Prelude.{
  ℕ, ◌+◌, ◌-◌, ◌*◌, ◌/◌, ◌%◌, ◌^◌, max, Bool, true, false, ◌&&◌, Option, none, some, List, [], ◌∷◌,
  if◌then◌else◌, ltb, leb, ◌==◌, Outcome, done, panics, spins, ◌>>=◌, ◌>>◌, unwrap,
}

abbrev pub add_usize : ℕ → ℕ → ℕ
add_usize a b = (a + b) % 2 ^ 64

abbrev pub sub_usize : ℕ → ℕ → ℕ
sub_usize a b = (a + 2 ^ 64 - b) % 2 ^ 64

abbrev pub not_usize : ℕ → ℕ
not_usize a = 2 ^ 64 - 1 - a

-- `usize::checked_add`.
abbrev pub checked_add : ℕ → ℕ → Option ℕ
checked_add a b = if ltb (a + b) (2 ^ 64) then some (a + b) else none

unfoldable pub align_up : ℕ → ℕ → ℕ
align_up addr align = bit_and (sub_usize (add_usize addr align) 1) (not_usize (sub_usize align 1))

-- A `ListNode`: its address and its size. Its `next` is the rest of the list that it stands in.
pub record Block : Type 0 where
  pub start_addr : ℕ
  pub size : ℕ

abbrev pub end_addr : Block → ℕ
end_addr b = add_usize b.start_addr b.size

-- `size_of::<ListNode>()` and `align_of::<ListNode>()`.
abbrev pub node_size : ℕ
node_size = 16

abbrev pub node_align : ℕ
node_align = 8

-- `core::alloc::Layout`.
pub record Layout : Type 0 where
  pub size : ℕ
  pub align : ℕ

-- The head is a node of size 0 in the allocator itself.
pub record LinkedListAllocator : Type 0 where
  pub head : Block
  pub blocks : List Block
  pub heap_start : ℕ
  pub heap_end : ℕ

-- `LinkedListAllocator::new`; `at` is where the allocator stands.
unfoldable pub new_allocator : ℕ → LinkedListAllocator
new_allocator at = record {
  head = record { start_addr = at; size = 0 };
  blocks = [];
  heap_start = 0;
  heap_end = 0;
}

-- `prev` grown by `next`; the caller keeps what hung on `next`.
merge_blocks : Block → Block → Outcome Block
merge_blocks prev next =
    if end_addr prev == next.start_addr
    then done (record prev { size = add_usize prev.size next.size })
    else panics

-- The end of `add_free_block`: the new node, with what hangs on it, comes after `current` or into it.
pub attach : Block → Block → List Block → Outcome (Block × List Block)
attach current new_node rest =
    if ltb 0 current.size && (end_addr current == new_node.start_addr)
    then (do merged ← merge_blocks current new_node; done (merged, rest))
    else done (current, new_node ∷ rest)

-- The loop of `add_free_block` at `current`, whose `next` is the list: the node and the list that it
-- leaves there.
unfoldable pub place : Block → Block → List Block → Outcome (Block × List Block)
unfolding merge_blocks attach
place new_node current [] = attach current new_node []
place new_node current (next ∷ rest) =
    let further = place new_node next rest in
    if leb next.start_addr new_node.start_addr && ltb new_node.start_addr (end_addr next)
    then panics
    else if ltb (end_addr new_node) next.start_addr
    then attach current new_node (next ∷ rest)
    else if end_addr new_node == next.start_addr
    then (do merged ← merge_blocks new_node next; attach current merged rest)
    else (do (moved, behind) ← further; done (current, moved ∷ behind))

unfoldable pub add_free_block : LinkedListAllocator → ℕ → ℕ → Outcome LinkedListAllocator
add_free_block a addr size = do
  (head, blocks) ← place (record { start_addr = addr; size = size }) a.head a.blocks
  done (record a { head = head; blocks = blocks })

unfoldable pub init : LinkedListAllocator → ℕ → ℕ → Outcome LinkedListAllocator
init a heap_start heap_size = do
  filled ← add_free_block a heap_start heap_size
  done (record filled { heap_start = heap_start; heap_end = add_usize heap_start heap_size })

unfoldable pub check_block_for_alloc : Block → ℕ → ℕ → Option ℕ
check_block_for_alloc block size align =
    let alloc_start = align_up block.start_addr align in
    elim (checked_add alloc_start size) [
      | none ↦ none
      | some alloc_end ↦
          if ltb (end_addr block) alloc_end
          then none
          else (let excess_size = sub_usize (end_addr block) alloc_end in
              if ltb 0 excess_size && ltb excess_size node_size then none else some alloc_start)
    ]

-- A block taken out of the list, the address found in it, and the list without it.
pub record Found : Type 0 where
  pub block : Block
  pub alloc_start : ℕ
  pub rest : List Block

unfoldable pub find_free_block : List Block → ℕ → ℕ → Option Found
find_free_block [] size align = none
find_free_block (block ∷ rest) size align =
    let further = find_free_block rest size align in
    elim (check_block_for_alloc block size align) [
      | some alloc_start ↦ some (record { block = block; alloc_start = alloc_start; rest = rest })
      | none ↦ elim further [ none ↦ none | some f ↦ some (record f { rest = block ∷ f.rest }) ]
    ]

-- `Layout::align_to` fails where the size, rounded up to the alignment, leaves `isize`;
-- `pad_to_align` rounds it up.
unfoldable pub size_align : Layout → Outcome (ℕ × ℕ)
size_align layout =
    let align = max layout.align node_align in
    if ltb (2 ^ 63) (layout.size + align)
    then panics
    else done (max ((layout.size + (align - 1)) / align * align) node_size, align)

-- The end of `alloc`, with a block found: what lies behind the request is freed again.
split_block : LinkedListAllocator → ℕ → Found → Outcome (Option ℕ × LinkedListAllocator)
split_block a size f = do
  alloc_end ← unwrap (checked_add f.alloc_start size)
  let excess_size = sub_usize (end_addr f.block) alloc_end
  let taken = record a { blocks = f.rest }
  left ← (if ltb 0 excess_size then add_free_block taken alloc_end excess_size else done taken)
  done (some f.alloc_start, left)

-- What `alloc` does with the outcome of its search. A null pointer is `none`.
allocate_from : LinkedListAllocator → ℕ → Option Found → Outcome (Option ℕ × LinkedListAllocator)
unfolding split_block
allocate_from a size none = done (none, a)
allocate_from a size (some f) = split_block a size f

unfoldable pub alloc : LinkedListAllocator → Layout → Outcome (Option ℕ × LinkedListAllocator)
unfolding allocate_from
alloc a layout = do
  (size, align) ← size_align layout
  allocate_from a size (find_free_block a.blocks size align)

unfoldable pub dealloc : LinkedListAllocator → ℕ → Layout → Outcome LinkedListAllocator
dealloc a ptr layout = do (size, align) ← size_align layout; add_free_block a ptr size
