-- ===== src/Allocator/Find.antt =====
-- `check_block_for_alloc` and `find_free_block` of kernel/src/allocator/list.rs: first fit.
use heine_os.Prelude.{
  ℕ, ◌+◌, ◌%◌, ◌^◌, ◌≤◌, ◌<◌, ◌≡◌, refl, sym, ◌⊎◌, inr, ◌||◌, Option, none, some, List, [], ◌∷◌,
  arith, subst,
}
use heine_os.Allocator.{Block, Found, align_up, check_block_for_alloc, find_free_block}
use heine_os.Allocator.Align.{align_up-least}
use heine_os.Allocator.FreeList.{
  stop, IsBlock, Above, IsSorted, Apart, inside, covers, Above-mono, Above-IsSorted, Above-Apart,
}

-- A request: a size, and the exponent of an alignment.
pub record IsRequest (size k : ℕ) : Type 0 where
  pub fits : size ≤ 2 ^ 63
  pub small : k ≤ 63

-- Where in a block a request goes: aligned, inside, and with nothing or a whole node behind it.
pub record Fits (b : Block) (size k start : ℕ) : Type 0 where
  pub aligned : start % 2 ^ k ≡ 0
  pub from : b.start_addr ≤ start
  pub until : start + size ≤ stop b
  pub behind : (start + size ≡ stop b) ⊎ (start + size + 16 ≤ stop b)

check-Fits :
    (b : Block) (size k start : ℕ)
    → IsBlock b
    → IsRequest size k
    → check_block_for_alloc b size (2 ^ k) ≡ some start
    → (start ≡ align_up b.start_addr (2 ^ k)) × Fits b size k start
unfolding check_block_for_alloc
check-Fits b size k start hb q e =
    let l = align_up-least b.start_addr k (omega (arith, hb.in_memory)) q.small in ground (arith, l)

-- A block that holds the request where `align_up` puts it is not passed over.
check_complete :
    (b : Block) (size k : ℕ)
    → IsBlock b
    → Fits b size k (align_up b.start_addr (2 ^ k))
    → check_block_for_alloc b size (2 ^ k) ≡ some (align_up b.start_addr (2 ^ k))
unfolding check_block_for_alloc
check_complete b size k hb f = ground arith

-- No block of a list holds the request where `align_up` puts it.
abbrev pub NoneFits : List Block → ℕ → ℕ → Type 0
NoneFits [] size k = Unit {0}
NoneFits (b ∷ bs) size k = (¬ Fits b size k (align_up b.start_addr (2 ^ k))) × NoneFits bs size k

-- A block taken out of a free list for a request.
pub record Takes (bs : List Block) (size k : ℕ) (f : Found) : Type 0 where
  pub block : IsBlock f.block
  pub place : Fits f.block size k f.alloc_start
  pub rounded : f.alloc_start ≡ align_up f.block.start_addr (2 ^ k)
  pub sorted : IsSorted f.rest
  pub lower : (from : ℕ) → Above from bs → Above from f.rest × (from < f.block.start_addr)
  pub apart :
      (b : Block) → f.block.start_addr ≤ b.start_addr → stop b ≤ stop f.block → Apart b f.rest
  pub covered : (x : ℕ) → covers bs x ≡ inside f.block x || covers f.rest x

Takes-first :
    (b : Block) (bs : List Block) (size k start : ℕ)
    → IsSorted (b ∷ bs)
    → IsRequest size k
    → check_block_for_alloc b size (2 ^ k) ≡ some start
    → Takes (b ∷ bs) size k (record { block = b; alloc_start = start; rest = bs })
Takes-first b bs size k start h q e =
    let c = check-Fits b size k start h.0 q e in
    record {
      block = h.0;
      place = c.1;
      rounded = c.0;
      sorted = Above-IsSorted (stop b) bs h.1;
      lower = λ from a. (Above-mono from (stop b) bs (omega arith) a.2, a.1);
      apart = λ c from until. Above-Apart (stop b) c bs until h.1;
      covered = λ x. refl;
    }

Takes-further :
    (b : Block) (bs : List Block) (size k : ℕ) (f : Found)
    → IsSorted (b ∷ bs)
    → Takes bs size k f
    → Takes (b ∷ bs) size k (record f { rest = b ∷ f.rest })
Takes-further b bs size k f h t = record {
  block = t.block;
  place = t.place;
  rounded = t.rounded;
  sorted = (h.0, (t.lower (stop b) h.1).0);
  lower = λ from a. ((h.0, a.1, (t.lower (stop b) h.1).0), omega (arith, (t.lower (stop b) h.1).1));
  apart = λ c from until. (inr (omega (arith, (t.lower (stop b) h.1).1)), t.apart c from until);
  covered = λ x. ground (arith, t.covered x);
}

-- Either no block fits and the search fails, or it takes the first that fits out of the list.
abbrev pub Search : List Block → ℕ → ℕ → Option Found → Type 0
Search bs size k none = NoneFits bs size k
Search bs size k (some f) = Takes bs size k f

Search-further :
    (b : Block) (bs : List Block) (size k : ℕ) (r : Option Found)
    → IsSorted (b ∷ bs)
    → ¬ Fits b size k (align_up b.start_addr (2 ^ k))
    → Search bs size k r
    → Search
        (b ∷ bs)
        size
        k
        (elim r [ none ↦ none | some f ↦ some (record f { rest = b ∷ f.rest }) ])
Search-further b bs size k none h no_fit t = (no_fit, t)
Search-further b bs size k (some f) h no_fit t = Takes-further b bs size k f h t

module _ (b : Block) (bs : List Block) (size k : ℕ) where
  find_hit :
      (start : ℕ)
      → check_block_for_alloc b size (2 ^ k) ≡ some start
      → find_free_block (b ∷ bs) size (2 ^ k)
        ≡ some (record { block = b; alloc_start = start; rest = bs })
  unfolding find_free_block
  find_hit start e = ground (arith, e)

  find_miss :
      check_block_for_alloc b size (2 ^ k) ≡ none
      → find_free_block (b ∷ bs) size (2 ^ k) ≡ elim (find_free_block bs size (2 ^ k)) [
        | none ↦ none
        | some f ↦ some (record f { rest = b ∷ f.rest })
      ]
  unfolding find_free_block
  find_miss e = ground (arith, e)

  Search-from :
      (c : Option ℕ)
      → IsSorted (b ∷ bs)
      → IsRequest size k
      → check_block_for_alloc b size (2 ^ k) ≡ c
      → Search bs size k (find_free_block bs size (2 ^ k))
      → Search (b ∷ bs) size k (find_free_block (b ∷ bs) size (2 ^ k))
  Search-from none h q e ih =
      subst (Search (b ∷ bs) size k) (sym (find_miss e))
        (Search-further b bs size k _ h (λ f. cc (check_complete b size k h.0 f)) ih)
  Search-from (some start) h q e ih =
      subst (Search (b ∷ bs) size k) (sym (find_hit start e)) (Takes-first b bs size k start h q e)

pub find_free_block-Search :
    (bs : List Block) (size k : ℕ)
    → IsSorted bs
    → IsRequest size k
    → Search bs size k (find_free_block bs size (2 ^ k))
unfolding find_free_block
find_free_block-Search [] size k h q = tt
find_free_block-Search (b ∷ bs) size k h q =
    Search-from b bs size k _ h q refl
      (find_free_block-Search bs size k (Above-IsSorted (stop b) bs h.1) q)
