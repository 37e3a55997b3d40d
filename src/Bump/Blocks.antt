-- ===== src/Bump/Blocks.antt =====
-- kernel/src/allocator/bump.rs: the blocks of several allocations.
use heine_os.Prelude.{ℕ, ◌+◌, ◌%◌, ◌^◌, ◌≤◌, ◌≡◌, subst, List, [], ◌∷◌, arith}
use heine_os.Allocator.{align_up}
use heine_os.Allocator.Align.{align_up-least}
use heine_os.Bump.{BumpAllocator, bump_alloc}

-- A request: a size, and the exponent of the alignment.
abbrev pub Request : Type 0
Request = ℕ × ℕ

-- The addresses for the requests, one after another, and the allocator behind them.
unfoldable pub alloc_all : List Request → BumpAllocator → List ℕ × BumpAllocator
alloc_all [] b = ([], b)
alloc_all ((size, k) ∷ rs) b =
    let (address, later) = bump_alloc size (2 ^ k) b in
    let (rest, last) = alloc_all rs later in (address ∷ rest, last)

-- What the requests take at most.
abbrev pub needs : List Request → ℕ
needs [] = 0
needs ((size, k) ∷ rs) = size + 2 ^ k + needs rs

abbrev pub AllSmall : List Request → Type 0
AllSmall [] = Unit
AllSmall ((size, k) ∷ rs) = (k ≤ 63) × AllSmall rs

-- Each block is aligned, starts where the block before it ends or behind, and lies below the end.
abbrev pub Chained : List Request → List ℕ → ℕ → ℕ → Type 0
Chained [] [] from end = from ≤ end
Chained [] (a ∷ places) from end = ⊥
Chained (r ∷ rs) [] from end = ⊥
Chained ((size, k) ∷ rs) (a ∷ places) from end =
    (a % 2 ^ k ≡ 0) × (from ≤ a) × Chained rs places (a + size) end

-- Requests that fit below half the address space get aligned blocks, each behind the one before it,
-- and `next` is the end of the last one. Where the heap ends makes no difference.
pub alloc_all-Chained :
    (rs : List Request) (b : BumpAllocator)
    → AllSmall rs
    → b.next + needs rs ≤ 2 ^ 63
    → Chained rs (alloc_all rs b).0 b.next (alloc_all rs b).1.next
unfolding alloc_all bump_alloc
alloc_all-Chained [] b s h = omega arith
alloc_all-Chained ((size, k) ∷ rs) b (l, s) h =
    let p = align_up-least b.next k (omega arith) l in
    let later = (bump_alloc size (2 ^ k) b).1 in
    let e : later.next ≡ align_up b.next (2 ^ k) + size = omega (arith, p.2) in
    (
      p.0,
      p.1,
      subst (λ (n : ℕ). Chained rs (alloc_all rs later).0 n (alloc_all rs later).1.next) e
          (alloc_all-Chained rs later s (omega (arith, e, p.2))),
    )
