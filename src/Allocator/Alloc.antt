-- ===== src/Allocator/Alloc.antt =====
-- `alloc` and `dealloc` of kernel/src/allocator/list.rs.
use native.Mathlib.Nat.{mod-eq-zero_of_dvd, dvd_trans, dvd_of_mod-eq-zero}
use heine_os.Prelude.{
  ℕ, ◌+◌, ◌-◌, ◌%◌, ◌^◌, ◌≤◌, ◌<◌, ◌≡◌, refl, sym, ap, ◌∙◌, ◌⊎◌, Bool, ◌||◌, Option, none, some,
  Outcome, done, ltb, if◌then◌else◌, ℕ_discrete, arith, subst,
}
use heine_os.Allocator.{
  checked_add, sub_usize, end_addr, Block, Layout, LinkedListAllocator, Found, align_up,
  find_free_block, add_free_block, split_block, allocate_from, alloc, dealloc,
}
use heine_os.Allocator.Align.{pow-mod_eight, align_up-least}
use heine_os.Allocator.FreeList.{
  stop, IsBlock, IsSorted, Apart, inside, covers, covers_of_Apart, Apart-covers,
}
use heine_os.Allocator.Size.{IsLayout, Asks, size_align-Asks}
use heine_os.Allocator.Insert.{add_free_block-Added}
use heine_os.Allocator.Find.{Takes, Search, NoneFits, find_free_block-Search}

-- The allocator's own node has no size, and the free list is well formed.
pub record IsHeap (a : LinkedListAllocator) : Type 0 where
  pub no_size : a.head.size ≡ 0
  pub sorted : IsSorted a.blocks

abbrev pub region : ℕ → ℕ → Block
region start size = record { start_addr = start; size = size }

-- A block of memory handed out: `region start size` now belongs to the caller.
pub record Grants (a : LinkedListAllocator) (l : Layout)
    (r : Outcome (Option ℕ × LinkedListAllocator)) (size k : ℕ) : Type 0 where
  pub start : ℕ
  pub gap : Block
  pub after : LinkedListAllocator
  pub result : r ≡ done (some start, after)
  pub aligned : start % l.align ≡ 0
  pub block : IsBlock (region start size)
  pub heap : IsHeap after
  pub apart : Apart (region start size) after.blocks
  pub gap_before : stop gap ≡ start
  pub gap_small : gap.size < 2 ^ k
  pub covered :
      (x : ℕ)
      → covers a.blocks x ≡ inside gap x || (inside (region start size) x || covers after.blocks x)

-- What is left of a block is given back, or there is nothing left.
record GivesBack (r : Outcome LinkedListAllocator) (taken : LinkedListAllocator) (rest : Block)
    : Type 0 where
  after : LinkedListAllocator
  result : r ≡ done after
  heap : IsHeap after
  covered : (x : ℕ) → covers after.blocks x ≡ inside rest x || covers taken.blocks x

give_back :
    (taken : LinkedListAllocator) (at size : ℕ)
    → IsHeap taken
    → (0 < size → IsBlock (region at size))
    → Apart (region at size) taken.blocks
    → GivesBack
        (if ltb 0 size then add_free_block taken at size else done taken)
        taken
        (region at size)
give_back taken at size h hb apart = elim (ℕ_discrete size 0) [
  | yes z ↦ record { after = taken; result = ground arith; heap = h; covered = λ x. ground arith }
  | no nz ↦
      let d = add_free_block-Added taken at size h.no_size (hb (omega arith)) h.sorted apart in
      record {
        after = d.after;
        result = ground (arith, d.result);
        heap = record {
          no_size = ap (λ (b : Block). b.size) d.same_head ∙ h.no_size;
          sorted = d.sorted;
        };
        covered = d.covered;
      }
]

cut_covers :
    (b : Block) (start size x : ℕ)
    → b.start_addr ≤ start
    → start + size ≤ stop b
    → inside b x
      ≡ inside (region b.start_addr (start - b.start_addr)) x
        || (inside (region start size) x
            || inside (region (start + size) (stop b - (start + size))) x)
cut_covers b start size x lo hi = ground arith

or_assoc : (a b c d : Bool) → (a || (b || c)) || d ≡ a || (b || (c || d))
or_assoc a b c d = ground arith

module _ (a : LinkedListAllocator) (l : Layout) (size k : ℕ) (f : Found) (h : IsHeap a)
    (s : Asks l size k) (t : Takes a.blocks size k f) where
  abbrev taken : LinkedListAllocator
  taken = record a { blocks = f.rest }

  abbrev end : ℕ
  end = f.alloc_start + size

  abbrev left_over : ℕ
  left_over = stop f.block - end

  start-mod : f.alloc_start % 8 ≡ 0
  start-mod = pow-mod_eight k f.alloc_start s.k_low t.place.aligned

  -- What is known of the addresses.
  facts :
      IsBlock f.block
      × (f.block.start_addr ≤ f.alloc_start)
      × (end ≤ stop f.block)
      × ((end ≡ stop f.block) ⊎ (end + 16 ≤ stop f.block))
      × (16 ≤ size)
      × (size % 8 ≡ 0)
  facts = (t.block, t.place.from, t.place.until, t.place.behind, s.holds_node, s.size_aligned)

  near : align_up f.block.start_addr (2 ^ k) < f.block.start_addr + 2 ^ k
  near = (align_up-least f.block.start_addr k (omega (arith, facts)) s.k_high).2

  gives :
      GivesBack
        (if ltb 0 left_over then add_free_block taken end left_over else done taken)
        taken
        (region end left_over)
  gives =
      give_back taken end left_over (record { no_size = h.no_size; sorted = t.sorted })
        (λ pos. omega (arith, start-mod, facts, pos))
        (t.apart (region end left_over) (omega (arith, facts)) (omega (arith, facts)))

  Apart-from : Apart (region f.alloc_start size) gives.after.blocks
  Apart-from =
      Apart-covers (region f.alloc_start size) gives.after.blocks gives.heap.sorted
        (omega (arith, facts))
        λ x e. ground (
          arith,
          gives.covered x,
          e,
          covers_of_Apart (region f.alloc_start size) f.rest x
              (t.apart (region f.alloc_start size) (omega (arith, facts)) (omega (arith, facts))),
        )

  checked : checked_add f.alloc_start size ≡ some end
  checked = ground (arith, facts)

  excess : sub_usize (end_addr f.block) end ≡ left_over
  excess = omega (arith, facts)

  whole : split_block a size f ≡ done (some f.alloc_start, gives.after)
  unfolding split_block
  whole = rw checked (rw excess (rw gives.result))

  split-Grants : Grants a l (split_block a size f) size k
  unfolding split_block
  split-Grants = record {
    start = f.alloc_start;
    gap = region f.block.start_addr (f.alloc_start - f.block.start_addr);
    after = gives.after;
    result = whole;
    aligned =
        mod-eq-zero_of_dvd l.align
          (dvd_trans l.align s.divides (dvd_of_mod-eq-zero (2 ^ k) t.place.aligned));
    block = omega (arith, start-mod, facts);
    heap = gives.heap;
    apart = Apart-from;
    gap_before = omega (arith, facts);
    gap_small = omega (arith, facts, t.rounded, near);
    covered = λ x.
        t.covered x
        ∙ rw (cut_covers f.block f.alloc_start size x t.place.from t.place.until, gives.covered x)
            (or_assoc (inside (region f.block.start_addr (f.alloc_start - f.block.start_addr)) x)
              (inside (region f.alloc_start size) x) (inside (region end left_over) x)
              (covers f.rest x));
  }

-- What `alloc` comes to: the request is granted, or no free block fits it, the null pointer comes
-- back and nothing has changed.
pub data Allocates (a : LinkedListAllocator) (l : Layout)
    (r : Outcome (Option ℕ × LinkedListAllocator)) (size k : ℕ) : Type 0 where
  granted : Grants a l r size k → Allocates a l r size k
  refused : r ≡ done (none, a) → NoneFits a.blocks size k → Allocates a l r size k

alloc_after :
    (a : LinkedListAllocator) (l : Layout) (size k : ℕ) (o : Option Found)
    → IsHeap a
    → Asks l size k
    → find_free_block a.blocks size (2 ^ k) ≡ o
    → Search a.blocks size k o
    → Allocates a l (alloc a l) size k
unfolding alloc
alloc_after a l size k none h s e t = refused (rw s.computed (ap (allocate_from a size) e)) t
alloc_after a l size k (some f) h s e t =
    granted (subst (λ r. Grants a l r size k) (sym split) (split-Grants a l size k f h s t))
  where
    split : alloc a l ≡ split_block a size f
    split = rw s.computed (ap (allocate_from a size) e)

pub alloc_asked :
    (a : LinkedListAllocator) (l : Layout) (size k : ℕ)
    → IsHeap a
    → Asks l size k
    → Allocates a l (alloc a l) size k
alloc_asked a l size k h s =
    alloc_after a l size k _ h s refl
      (find_free_block-Search a.blocks size k h.sorted (record { fits = s.fits; small = s.k_high }))

-- On a well-formed heap and for a layout whose size, with its alignment or 8, is at most 2 ^ 63,
-- `alloc` does not panic. For the size and alignment that `size_align` asks for,
-- it returns null and changes nothing, when no free block holds them, or an aligned address: all
-- bytes from there on, in the size asked for, were free, are apart from what is free afterwards, and
-- the rest stays free, but for a gap before the address that is shorter than the alignment.
pub alloc-Allocates :
    (a : LinkedListAllocator) (l : Layout)
    → IsHeap a
    → IsLayout l
    → (size k : ℕ) × Asks l size k × Allocates a l (alloc a l) size k
alloc-Allocates a l h v =
    let (size, k, s) = size_align-Asks l v in (size, k, s, alloc_asked a l size k h s)

pub dealloc_asked :
    (a : LinkedListAllocator) (start : ℕ) (l : Layout) {size k : ℕ}
    → Asks l size k
    → dealloc a start l ≡ add_free_block a start size
unfolding dealloc
dealloc_asked a start l s = rw s.computed
