-- ===== src/Paging/Walk.antt =====
-- kernel/src/paging/pages.rs: which words the recursion over the page tables changes.
-- Tables may be shared or refer to one another: the words are said by their addresses.
use Prim.Native.Nat.{bit_or}
use heine_os.Prelude.{
  ℕ, zero, suc, ◌+◌, ◌*◌, ◌/◌, ◌%◌, ◌^◌, ◌≤◌, ◌<◌, ◌≡◌, ◌≢◌, ◌⊎◌, inl, inr, refl, sym, subst, ◌∙◌,
  if◌then◌else◌, ◌==◌, ==_iff, split, true≢false, ℕ_discrete, arith,
}
use heine_os.Machine.{Memory, write}
use heine_os.Machine.Contexts.{read-write_self, read-write_ne}
use heine_os.Paging.{
  user_flags, is_table, next_page_map, open_entry, open_entries, setup_initial_page_map, Processor,
  read_cr3, setup_initial_paging,
}
use heine_os.Paging.Words.{
  opened_entry, written-opened_entry, IsTable, table_of, is_table_iff, next_page_map-table_of,
  write_protected,
}
use heine_os.Paging.Opening.{
  Opens, IsSteady, opens-Grows, opens-opens, opens_none, opens_as, grows_zero, grows-IsTable,
  grows_table_of,
}

-- The words that an entry leads to: itself, unless it is zero, and those that its table leads to,
-- where it refers to one.
abbrev pub FromEntry : (ℕ → Memory → ℕ → Type 0) → ℕ → ℕ → Memory → ℕ → Type 0
FromEntry below level entry m a =
    (m entry ≢ 0) × ((a ≡ entry) ⊎ (IsTable level (m entry) × below (table_of (m entry)) m a))

abbrev pub FromEntries : (ℕ → Memory → ℕ → Type 0) → ℕ → ℕ → ℕ → ℕ → Memory → ℕ → Type 0
FromEntries below level map left i m a =
    (j : ℕ) × (i ≤ j) × (j < i + left) × FromEntry below level (map + j * 8) m a

-- The entries that a table of a level leads to.
unfoldable pub Reaches : ℕ → ℕ → Memory → ℕ → Type 0
Reaches zero map m a = FromEntries (λ next n b. ⊥) 0 map 512 0 m a
Reaches (suc level) map m a = FromEntries (Reaches level) (suc level) map 512 0 m a

module _ (below : ℕ → Memory → ℕ → Type 0) (steady : (map : ℕ) → IsSteady (below map))
    (level : ℕ) where
  entry-IsSteady : (entry : ℕ) → IsSteady (FromEntry below level entry)
  entry-IsSteady entry m n g a = (
    (λ (z, w). (
      (grows_zero (g entry)).0 z,
      elim w [
        | inl e ↦ inl e
        | inr (t, b) ↦ inr (
          (grows-IsTable level (g entry)).1 t,
          subst (λ (k : ℕ). below k n a) (sym (grows_table_of (g entry))) ((steady _ m n g a).0 b),
        )
      ],
    )),
    (λ (z, w). (
      (grows_zero (g entry)).1 z,
      elim w [
        | inl e ↦ inl e
        | inr (t, b) ↦ inr (
          (grows-IsTable level (g entry)).0 t,
          subst (λ (k : ℕ). below k m a) (grows_table_of (g entry)) ((steady _ m n g a).1 b),
        )
      ],
    )),
  )

  entries-IsSteady : (map left i : ℕ) → IsSteady (FromEntries below level map left i)
  entries-IsSteady map left i m n g a = (
    (λ (j, lo, hi, h). (j, lo, hi, (entry-IsSteady _ m n g a).0 h)),
    (λ (j, lo, hi, h). (j, lo, hi, (entry-IsSteady _ m n g a).1 h)),
  )

  module _ (descend : ℕ → Memory → Memory)
      (opens : (map : ℕ) (m : Memory) → Opens m (descend map m) (below map m)) where
    written-Opens :
        (entry : ℕ) (m : Memory)
        → m entry ≢ 0
        → Opens m (write m entry (bit_or (m entry) (user_flags (m entry)))) (λ a. a ≡ entry)
    written-Opens entry m z =
        let v = bit_or (m entry) (user_flags (m entry)) in
        let n = write m entry v in
        let here : n entry ≡ opened_entry (m entry) =
          read-write_self m entry v ∙ written-opened_entry (m entry) in
        record {
          others = λ a. elim (ℕ_discrete entry a) [
            | yes e ↦ inr (
                subst (λ (b : ℕ). (m b ≢ 0) × (n b ≡ opened_entry (m b)) × (b ≡ entry)) e
                  (z, here, refl))
            | no d ↦ inl (read-write_ne m v d)
          ];
          all_of = λ a e. subst (λ (b : ℕ). n b ≡ opened_entry (m b)) (sym e) here;
        }

    open_entry-Opens :
        (entry : ℕ) (m : Memory)
        → Opens m (open_entry descend level entry m) (FromEntry below level entry m)
    unfolding open_entry
    open_entry-Opens entry m =
        let w = m entry in
        let n = write m entry (bit_or w (user_flags w)) in
        let R = FromEntry below level entry m in
        split
          (λ b.
            Opens m (if b then m else (if is_table level w then descend (next_page_map w) n else n))
              R)
          (w == 0) (λ e. opens_none m R (λ a (z, p). z ((==_iff w 0).0 e)))
          (λ e.
            let z : w ≢ 0 = λ o. true≢false ((==_iff w 0).1 o) e in
            let mine = written-Opens entry m z in
            let g = opens-Grows mine in
            split (λ b. Opens m (if b then descend (next_page_map w) n else n) R) (is_table level w)
              (λ t.
                let u = (is_table_iff level w).0 t in
                opens-opens mine
                  (subst (λ (k : ℕ). Opens n (descend (next_page_map w) n) (below k n))
                    (next_page_map-table_of w) (opens (next_page_map w) n))
                  (λ a. (
                    (λ p. (z, inl p)),
                    (λ p. (z, inr (u, (steady (table_of w) m n g a).1 p))),
                    (λ (_, p). elim p [
                      | inl q ↦ inl q
                      | inr (v, q) ↦ inr ((steady (table_of w) m n g a).0 q)
                    ]),
                  )))
              (λ t. opens_as mine (λ a. (
                (λ p. (z, inl p)),
                (λ (_, p). elim p [
                  | inl q ↦ q
                  | inr (u, q) ↦ absurd (true≢false ((is_table_iff level w).1 u) t)
                ]),
              ))))

    open_entries-Opens :
        (map left i : ℕ) (m : Memory)
        → Opens m (open_entries descend level map left i m) (FromEntries below level map left i m)
    unfolding open_entries
    open_entries-Opens map zero i m = opens_none m _ (λ a (j, lo, hi, h). absurd (omega arith))
    open_entries-Opens map (suc left) i m =
        let n = open_entry descend level (map + i * 8) m in
        let first = open_entry-Opens (map + i * 8) m in
        let rest = open_entries-Opens map left (i + 1) n in
        opens-opens first rest (λ a. (
          (λ h. (i, omega arith, omega arith, h)),
          (λ (j, lo, hi, h). (
            j,
            omega arith,
            omega arith,
            (entry-IsSteady (map + j * 8) m n (opens-Grows first) a).1 h,
          )),
          (λ (j, lo, hi, h). elim (ℕ_discrete j i) [
            | yes e ↦ inl (subst (λ (k : ℕ). FromEntry below level (map + k * 8) m a) e h)
            | no d ↦ inr (
              j,
              omega arith,
              omega arith,
              (entry-IsSteady (map + j * 8) m n (opens-Grows first) a).0 h,
            )
          ]),
        ))

nothing-IsSteady : (map : ℕ) → IsSteady (λ m a. ⊥)
nothing-IsSteady map m n g a = ((λ e. e), (λ e. e))

Reaches-IsSteady : (level map : ℕ) → IsSteady (Reaches level map)
unfolding Reaches
Reaches-IsSteady zero map = entries-IsSteady (λ next m a. ⊥) nothing-IsSteady 0 map 512 0
Reaches-IsSteady (suc level) map =
    entries-IsSteady (Reaches level) (Reaches-IsSteady level) (suc level) map 512 0

setup-Opens :
    (level map : ℕ) (m : Memory)
    → Opens m (setup_initial_page_map level map m) (Reaches level map m)
unfolding setup_initial_page_map Reaches
setup-Opens zero map m =
    open_entries-Opens (λ next m a. ⊥) nothing-IsSteady 0 (λ next later. later)
      (λ next later. opens_none later _ (λ a e. e)) map 512 0 m
setup-Opens (suc level) map m =
    open_entries-Opens (Reaches level) (Reaches-IsSteady level) (suc level)
      (setup_initial_page_map level) (setup-Opens level) map 512 0 m

-- The words that a memory has behind the call, and the control registers.
pub record IsOpened (p q : Processor) : Type 0 where
  pub entries : Opens p.memory q.memory (Reaches 4 (read_cr3 p) p.memory)
  pub cr0_is : q.cr0 ≡ p.cr0 / 2 ^ 17 * 2 ^ 17 + 2 ^ 16 + p.cr0 % 2 ^ 16
  pub cr3_is : q.cr3 ≡ p.cr3

-- Behind setup_initial_paging, every entry of a page table that can be reached from the table that
-- cr3 refers to, over the four levels, by non-zero entries that are no huge pages, has the user bit;
-- it is changed in no other bit; no other word of memory is changed; and of the control registers
-- only the write protection is, which is set.
pub setup_initial_paging-IsOpened :
    (p : Processor) → p.cr0 < 2 ^ 64 → IsOpened p (setup_initial_paging p)
unfolding setup_initial_paging read_cr3
setup_initial_paging-IsOpened p h = record {
  entries = setup-Opens 4 (read_cr3 p) p.memory;
  cr0_is = write_protected p.cr0 h;
  cr3_is = refl;
}
