-- ===== src/Allocator/Insert/Walk.antt =====
-- The loop of `add_free_block` of kernel/src/allocator/list.rs: its branches, and what it leaves at a
-- block.
use heine_os.Prelude.{
  ℕ, ◌+◌, ◌≤◌, ◌<◌, ◌≡◌, refl, ◌∙◌, inl, inr, Bool, ◌||◌, List, [], ◌∷◌, Outcome, done, ℕ_discrete,
  arith,
}
use heine_os.Allocator.{Block, merge_blocks, attach, place}
use heine_os.Allocator.FreeList.{stop, IsBlock, Above, Apart, inside, covers, Above-mono}

-- What the walk leaves at `current`, whose list was `rest`.
pub record Placed (r : Outcome (Block × List Block)) (added current : Block) (rest : List Block)
    : Type 0 where
  pub node : Block
  pub chain : List Block
  pub result : r ≡ done (node, chain)
  pub same_start : node.start_addr ≡ current.start_addr
  pub block : IsBlock node
  pub sorted : Above (stop node) chain
  pub covered : (a : ℕ) → covers (node ∷ chain) a ≡ inside added a || covers (current ∷ rest) a

or_left_comm : (a b c : Bool) → a || (b || c) ≡ b || (a || c)
or_left_comm a b c = ground arith

abbrev pub grown : Block → Block → Block
grown a b = record a { size = a.size + b.size }

pub grown-IsBlock :
    {a b : Block} → IsBlock a → IsBlock b → stop a ≡ b.start_addr → IsBlock (grown a b)
grown-IsBlock ha hb e = omega arith

merge_lem :
    (a b : Block)
    → IsBlock a
    → IsBlock b
    → stop a ≡ b.start_addr
    → merge_blocks a b ≡ done (grown a b)
unfolding merge_blocks
merge_lem a b ha hb e = ground arith

pub inside-grown :
    (a b : Block) (x : ℕ) → stop a ≡ b.start_addr → inside (grown a b) x ≡ inside a x || inside b x
inside-grown a b x e = ground arith

attach-Placed :
    (added current : Block) (rest : List Block)
    → IsBlock added
    → IsBlock current
    → stop current ≤ added.start_addr
    → Above (stop added) rest
    → Placed (attach current added rest) added current rest
unfolding attach
attach-Placed added current rest ha hc le hr = elim (ℕ_discrete (stop current) added.start_addr) [
  | yes e ↦ record {
    node = grown current added;
    chain = rest;
    result = ground (arith, merge_lem current added hc ha e);
    same_start = refl;
    block = grown-IsBlock hc ha e;
    sorted = Above-mono (stop (grown current added)) (stop added) rest (omega arith) hr;
    covered = λ a. ground (arith, inside-grown current added a e);
  }
  | no ne ↦ record {
    node = current;
    chain = added ∷ rest;
    result = ground arith;
    same_start = refl;
    block = hc;
    sorted = (ha, omega arith, hr);
    covered = λ a. or_left_comm (inside current a) (inside added a) (covers rest a);
  }
]

swap_in : (a b c d : Bool) → (a || b) || (c || d) ≡ a || (c || (b || d))
swap_in a b c d = ground arith

module _ (added current next : Block) (rest : List Block) where
  -- The three branches of the loop that do not panic.
  pub place_further :
      (r : Block × List Block)
      → IsBlock added
      → IsBlock next
      → stop next ≤ added.start_addr
      → place added next rest ≡ done r
      → place added current (next ∷ rest) ≡ done (current, r.0 ∷ r.1)
  unfolding place
  place_further r ha hn after e = ground (arith, e)

  pub place_joined :
      IsBlock added
      → IsBlock next
      → stop added ≡ next.start_addr
      → place added current (next ∷ rest) ≡ attach current (grown added next) rest
  unfolding place
  place_joined ha hn e = ground (arith, merge_lem added next ha hn e)

  pub place_gap :
      IsBlock added
      → IsBlock next
      → stop added < next.start_addr
      → place added current (next ∷ rest) ≡ attach current added (next ∷ rest)
  unfolding place
  place_gap ha hn lt = ground arith

-- The walk from a block `current` that ends at or before the new one.
pub place-Placed :
    (added current : Block) (rest : List Block)
    → IsBlock added
    → IsBlock current
    → stop current ≤ added.start_addr
    → Above (stop current) rest
    → Apart added rest
    → Placed (place added current rest) added current rest
unfolding place
place-Placed added current [] ha hc le hr ap_ = attach-Placed added current [] ha hc le tt
place-Placed added current (next ∷ rest) ha hc le hr (inr after, apart) =
    let p = place-Placed added next rest ha hr.0 after hr.2 apart in
    record {
      node = current;
      chain = p.node ∷ p.chain;
      result = place_further added current next rest _ ha hr.0 after p.result;
      same_start = refl;
      block = hc;
      sorted = (p.block, omega (arith, p.same_start), p.sorted);
      covered = λ a.
          rw (p.covered a)
            (or_left_comm (inside current a) (inside added a) (covers (next ∷ rest) a));
    }
place-Placed added current (next ∷ rest) ha hc le hr (inl before, apart) =
    elim (ℕ_discrete (stop added) next.start_addr) [
      | yes e ↦
          let q =
            attach-Placed (grown added next) current rest (grown-IsBlock ha hr.0 e) hc le
              (Above-mono (stop (grown added next)) (stop next) rest (omega arith) hr.2) in
          record {
            node = q.node;
            chain = q.chain;
            result = place_joined added current next rest ha hr.0 e ∙ q.result;
            same_start = q.same_start;
            block = q.block;
            sorted = q.sorted;
            covered = λ a.
                q.covered a
                ∙ rw (inside-grown added next a e)
                    (swap_in (inside added a) (inside next a) (inside current a) (covers rest a));
          }
      | no ne ↦
          let q = attach-Placed added current (next ∷ rest) ha hc le (hr.0, omega arith, hr.2) in
          record {
            node = q.node;
            chain = q.chain;
            result = place_gap added current next rest ha hr.0 (omega arith) ∙ q.result;
            same_start = q.same_start;
            block = q.block;
            sorted = q.sorted;
            covered = q.covered;
          }
    ]
