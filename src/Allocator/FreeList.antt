-- ===== src/Allocator/FreeList.antt =====
-- The free list of kernel/src/allocator/list.rs: when it is well formed, and which addresses it
-- holds.
use heine_os.Prelude.{
  ℕ, ◌+◌, ◌%◌, ◌^◌, ◌≤◌, ◌<◌, ◌≡◌, refl, ◌⊎◌, inl, inr, Bool, true, false, ◌&&◌, ◌||◌, List, [],
  ◌∷◌, leb, ltb, dec_lt, arith,
}
use heine_os.Allocator.{Block}

abbrev pub stop : Block → ℕ
stop b = b.start_addr + b.size

-- Blocks lie in the lower half of the address space, hold a node, and are cut at node boundaries.
pub record IsBlock (b : Block) : Type 0 where
  pub holds_node : 16 ≤ b.size
  pub in_memory : stop b ≤ 2 ^ 63
  pub start_aligned : b.start_addr % 8 ≡ 0
  pub size_aligned : b.size % 8 ≡ 0

-- From an address on: in order, disjoint, and with a gap before each.
abbrev pub Above : ℕ → List Block → Type 0
Above from [] = Unit {0}
Above from (b ∷ bs) = IsBlock b × (from < b.start_addr) × Above (stop b) bs

abbrev pub IsSorted : List Block → Type 0
IsSorted [] = Unit {0}
IsSorted (b ∷ bs) = IsBlock b × Above (stop b) bs

abbrev pub Disjoint : Block → Block → Type 0
Disjoint a b = (stop a ≤ b.start_addr) ⊎ (stop b ≤ a.start_addr)

abbrev pub Apart : Block → List Block → Type 0
Apart a [] = Unit {0}
Apart a (b ∷ bs) = Disjoint a b × Apart a bs

-- Is an address inside a block, or inside a block of a list?
abbrev pub inside : Block → ℕ → Bool
inside b a = leb b.start_addr a && ltb a (stop b)

abbrev pub covers : List Block → ℕ → Bool
covers [] a = false
covers (b ∷ bs) a = inside b a || covers bs a

pub Above-IsSorted : (from : ℕ) (bs : List Block) → Above from bs → IsSorted bs
Above-IsSorted from [] h = tt
Above-IsSorted from (b ∷ bs) h = (h.0, h.2)

pub Above-mono : (lo hi : ℕ) (bs : List Block) → lo ≤ hi → Above hi bs → Above lo bs
Above-mono lo hi [] le h = tt
Above-mono lo hi (b ∷ bs) le h = (h.0, omega arith, h.2)

-- What lies below a list is apart from it, and the list covers none of it.
pub Above-Apart :
    (from : ℕ) (b : Block) (bs : List Block) → stop b ≤ from → Above from bs → Apart b bs
Above-Apart from b [] le h = tt
Above-Apart from b (c ∷ bs) le h = (inl (omega arith), Above-Apart (stop c) b bs (omega arith) h.2)

pub covers_below :
    (from : ℕ) (bs : List Block) (a : ℕ) → Above from bs → a ≤ from → covers bs a ≡ false
covers_below from [] a h le = refl
covers_below from (b ∷ bs) a h le = ground (arith, covers_below (stop b) bs a h.2 (omega arith))

pub covers_of_Apart :
    (b : Block) (bs : List Block) (x : ℕ) → Apart b bs → inside b x ≡ true → covers bs x ≡ false
covers_of_Apart b [] x h e = refl
covers_of_Apart b (c ∷ bs) x (inl d, h) e = ground (arith, covers_of_Apart b bs x h)
covers_of_Apart b (c ∷ bs) x (inr d, h) e = ground (arith, covers_of_Apart b bs x h)

pub Disjoint-covers :
    (b c : Block) (bs : List Block)
    → IsBlock c
    → 0 < b.size
    → ((x : ℕ) → inside b x ≡ true → covers (c ∷ bs) x ≡ false)
    → Disjoint b c
Disjoint-covers b c bs hc pos h = elim (dec_lt c.start_addr b.start_addr) [
  | yes lt ↦ ground (arith, h b.start_addr, hc.holds_node)
  | no ge ↦ ground (arith, h c.start_addr, hc.holds_node)
]

-- Blocks that share no address with a free one are apart from the free list.
pub Apart-covers :
    (b : Block) (bs : List Block)
    → IsSorted bs
    → 0 < b.size
    → ((x : ℕ) → inside b x ≡ true → covers bs x ≡ false)
    → Apart b bs
Apart-covers b [] hs pos h = tt
Apart-covers b (c ∷ bs) hs pos h = (
  Disjoint-covers b c bs hs.0 pos h,
  Apart-covers b bs (Above-IsSorted (stop c) bs hs.1) pos (λ x e. ground (arith, h x)),
)
