-- ===== src/Allocator/Insert.antt =====
-- `add_free_block` of kernel/src/allocator/list.rs: the block goes to its place, and adjacent blocks
-- become one.
mod Walk
use heine_os.Prelude.{
  ℕ, ◌+◌, ◌%◌, ◌^◌, ◌≤◌, ◌<◌, ◌≡◌, refl, sym, ap, ◌∙◌, ◌⊎◌, inl, inr, Bool, true, false, ◌&&◌, ◌||◌,
  List, [], ◌∷◌, leb, ltb, ◌==◌, Outcome, done, panics, ◌>>=◌, dec_lt, ℕ_discrete, if◌then◌else◌,
  arith, subst,
}
use heine_os.Allocator.{
  Block, LinkedListAllocator, end_addr, merge_blocks, attach, place, add_free_block,
}
use heine_os.Allocator.FreeList.{
  stop, IsBlock, Above, IsSorted, Disjoint, Apart, inside, covers, Above-mono, Above-IsSorted,
  covers_below,
}
use Walk.{grown, grown-IsBlock, inside-grown, place-Placed, place_further, place_joined, place_gap}

-- What an insertion leaves in an allocator.
pub record Added (r : Outcome LinkedListAllocator) (a : LinkedListAllocator) (added : Block)
    : Type 0 where
  pub after : LinkedListAllocator
  pub result : r ≡ done after
  pub same_head : after.head ≡ a.head
  pub sorted : IsSorted after.blocks
  pub covered : (x : ℕ) → covers after.blocks x ≡ inside added x || covers a.blocks x

module _ (added head : Block) where
  -- The walk from the allocator's own node, which has no size and never grows.
  record Chained (blocks : List Block) : Type 0 where
    chain : List Block
    result : place added head blocks ≡ done (head, chain)
    sorted : IsSorted chain
    covered : (x : ℕ) → covers chain x ≡ inside added x || covers blocks x

  head-Chained :
      (blocks : List Block)
      → head.size ≡ 0
      → IsBlock added
      → IsSorted blocks
      → Apart added blocks
      → Chained blocks
  head-Chained [] z ha h apart = record {
    chain = added ∷ [];
    result = unfold place attach in ground arith;
    sorted = (ha, tt);
    covered = λ x. refl;
  }
  head-Chained (next ∷ rest) z ha h (inr after, apart) =
      let p = place-Placed added next rest ha h.0 after h.1 apart in
      record {
        chain = p.node ∷ p.chain;
        result = place_further added head next rest _ ha h.0 after p.result;
        sorted = (p.block, p.sorted);
        covered = p.covered;
      }
  head-Chained (next ∷ rest) z ha h (inl before, apart) =
      elim (ℕ_discrete (stop added) next.start_addr) [
        | yes e ↦ record {
          chain = grown added next ∷ rest;
          result = place_joined added head next rest ha h.0 e ∙ (unfold attach in ground arith);
          sorted = (grown-IsBlock ha h.0 e, Above-mono _ (stop next) rest (omega arith) h.1);
          covered = λ x. ground (arith, inside-grown added next x e);
        }
        | no ne ↦ record {
          chain = added ∷ next ∷ rest;
          result =
              place_gap added head next rest ha h.0 (omega arith) ∙ (unfold attach in ground arith);
          sorted = (ha, (h.0, omega arith, h.1));
          covered = λ x. refl;
        }
      ]

-- A block that is apart from all free ones is taken in: the free list stays sorted, with no two
-- blocks touching, and it covers exactly the block's addresses besides those that it covered.
pub add_free_block-Added :
    (a : LinkedListAllocator) (addr size : ℕ)
    → let added : Block = record { start_addr = addr; size = size } in
      a.head.size ≡ 0
      → IsBlock added
      → IsSorted a.blocks
      → Apart added a.blocks
      → Added (add_free_block a addr size) a added
unfolding add_free_block
add_free_block-Added a addr size z ha h apart =
    let c = head-Chained (record { start_addr = addr; size = size }) a.head a.blocks z ha h apart in
    record {
      after = record a { blocks = c.chain };
      result = rw c.result;
      same_head = refl;
      sorted = c.sorted;
      covered = c.covered;
    }

-- The walk meets the block that holds the new one's start, and panics there.
place_overlap :
    (added current : Block) (blocks : List Block)
    → IsSorted blocks
    → 0 < added.size
    → stop added ≤ 2 ^ 63
    → covers blocks added.start_addr ≡ true
    → place added current blocks ≡ panics
unfolding place
place_overlap added current [] h pos fits c = cc
place_overlap added current (next ∷ rest) h pos fits c =
    elim (dec_lt added.start_addr (stop next)) [
      | yes lt ↦ ground (arith, covers_below (stop next) rest added.start_addr h.1)
      | no ge ↦
          ground
            (arith, place_overlap added next rest (Above-IsSorted (stop next) rest h.1) pos fits)
    ]

-- A block whose first address is free already, as after freeing twice, is not taken: the kernel
-- panics.
pub add_free_block_double :
    (a : LinkedListAllocator) (addr size : ℕ)
    → IsSorted a.blocks
    → 0 < size
    → addr + size ≤ 2 ^ 63
    → covers a.blocks addr ≡ true
    → add_free_block a addr size ≡ panics
unfolding add_free_block
add_free_block_double a addr size h pos fits c =
    rw (place_overlap (record { start_addr = addr; size = size }) a.head a.blocks h pos fits c)
