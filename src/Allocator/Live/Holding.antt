-- ===== src/Allocator/Live/Holding.antt =====
-- How the held blocks of kernel/src/allocator/list.rs stay apart when the free list changes.
use heine_os.Prelude.{
  ℕ, ◌≡◌, refl, ap, ◌∙◌, inl, inr, Bool, true, false, ◌||◌, List, [], ◌∷◌, Bool_false, true≢false,
  arith,
}
use heine_os.Allocator.{Block}
use heine_os.Allocator.FreeList.{
  IsBlock, IsSorted, Disjoint, Apart, inside, covers, covers_of_Apart, Apart-covers,
  Disjoint-covers,
}
use heine_os.Allocator.Live.{Held, region_of, regions, Picks, here, there, HeldApart}

Disjoint-sym : (a b : Block) → Disjoint a b → Disjoint b a
Disjoint-sym a b (inl h) = inr h
Disjoint-sym a b (inr h) = inl h

-- A smaller free list is apart from what the larger one was apart from.
Apart-shrink :
    (b : Block) (bs cs : List Block)
    → IsBlock b
    → IsSorted cs
    → ((x : ℕ) → covers cs x ≡ true → covers bs x ≡ true)
    → Apart b bs
    → Apart b cs
Apart-shrink b bs cs hb hs sub h =
    Apart-covers b cs hs (omega (arith, hb.holds_node))
      λ x e. Bool_false (covers cs x) (λ t. true≢false (sub x t) (covers_of_Apart b bs x h e))

pub HeldApart-shrink :
    (bs cs : List Block) (hs : List Held)
    → IsSorted cs
    → ((x : ℕ) → covers cs x ≡ true → covers bs x ≡ true)
    → HeldApart bs hs
    → HeldApart cs hs
HeldApart-shrink bs cs [] s sub h = tt
HeldApart-shrink bs cs (x ∷ hs) s sub h =
    (h.0, Apart-shrink (region_of x) bs cs h.0 s sub h.1, h.2, HeldApart-shrink bs cs hs s sub h.3)

-- What was free is apart from what is held.
pub free-Apart :
    (b : Block) (bs : List Block) (hs : List Held)
    → IsBlock b
    → ((x : ℕ) → inside b x ≡ true → covers bs x ≡ true)
    → HeldApart bs hs
    → Apart b (regions hs)
free-Apart b bs [] hb free h = tt
free-Apart b bs (x ∷ hs) hb free h = (
  Disjoint-covers b (region_of x) [] h.0 (omega (arith, hb.holds_node))
      (λ a e. outside a (covers_of_Apart (region_of x) bs a h.1) (free a e)),
  free-Apart b bs hs hb free h.3,
)
  where
    outside :
        (a : ℕ)
        → (inside (region_of x) a ≡ true → covers bs a ≡ false)
        → covers bs a ≡ true
        → covers (region_of x ∷ []) a ≡ false
    outside a not_free is_free = ground (arith, not_free)

pick-Apart :
    {x : Held} {xs ys : List Held} (b : Block)
    → Picks x xs ys
    → Apart b (regions xs)
    → Disjoint b (region_of x) × Apart b (regions ys)
pick-Apart b here h = h
pick-Apart b (there p) h = let r = pick-Apart b p h.1 in (r.0, (h.0, r.1))

-- What is known of a held block, and of the others.
pub picked :
    {x : Held} {xs ys : List Held} (bs : List Block)
    → Picks x xs ys
    → HeldApart bs xs
    → IsBlock (region_of x)
      × Apart (region_of x) bs
      × Apart (region_of x) (regions ys)
      × HeldApart bs ys
picked bs here h = h
picked bs (there {y = y} p) h =
    let r = picked bs p h.3 in
    let q = pick-Apart (region_of y) p h.2 in
    (r.0, r.1, (Disjoint-sym _ _ q.0, r.2), (h.0, h.1, q.1, r.3))

pub covers-picked :
    {x : Held} {xs ys : List Held} (a : ℕ)
    → Picks x xs ys
    → covers (regions xs) a ≡ inside (region_of x) a || covers (regions ys) a
covers-picked a here = refl
covers-picked {x} a (there {y = y} {ys = ys} p) =
    ap (λ (b : Bool). inside (region_of y) a || b) (covers-picked a p)
    ∙ swap (inside (region_of y) a) (inside (region_of x) a) (covers (regions ys) a)
  where
    swap : (a b c : Bool) → a || (b || c) ≡ b || (a || c)
    swap a b c = ground arith

Apart-grow :
    (b x : Block) (bs cs : List Block)
    → IsBlock b
    → IsSorted cs
    → ((a : ℕ) → covers cs a ≡ inside x a || covers bs a)
    → Apart b bs
    → Disjoint x b
    → Apart b cs
Apart-grow b x bs cs hb hs grows h d = Apart-covers b cs hs (omega (arith, hb.holds_node)) λ a e.
    grows a
    ∙ both _ _ (covers_of_Apart b (x ∷ []) a (Disjoint-sym x b d, tt) e)
        (covers_of_Apart b bs a h e)
  where
    both : (p q : Bool) → p || false ≡ false → q ≡ false → p || q ≡ false
    both p q e f = ground arith

-- The held blocks stay apart from the free list when it takes in a block that was apart from them.
pub HeldApart-grow :
    (x : Block) (bs cs : List Block) (hs : List Held)
    → IsSorted cs
    → ((a : ℕ) → covers cs a ≡ inside x a || covers bs a)
    → Apart x (regions hs)
    → HeldApart bs hs
    → HeldApart cs hs
HeldApart-grow x bs cs [] s grows d h = tt
HeldApart-grow x bs cs (y ∷ hs) s grows d h = (
  h.0,
  Apart-grow (region_of y) x bs cs h.0 s grows h.1 d.0,
  h.2,
  HeldApart-grow x bs cs hs s grows d.1 h.3,
)
