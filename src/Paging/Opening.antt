-- ===== src/Paging/Opening.antt =====
-- Memories in which some entries of page tables have got the user bit, one step after another.
use heine_os.Prelude.{ℕ, ◌≡◌, ◌≢◌, ◌⊎◌, inl, inr, refl, sym, ap, subst, ◌∙◌}
use heine_os.Machine.{Memory}
use heine_os.Paging.Words.{
  opened_entry, opened_entry_positive, opened_entry-opened_entry, IsTable, table_of,
  IsTable-opened_entry, table_of-opened_entry,
}

-- The words of a set, and no others, got the user bit, and no other bit.
pub record Opens (m n : Memory) (P : ℕ → Type 0) : Type 0 where
  pub others : (a : ℕ) → (n a ≡ m a) ⊎ ((m a ≢ 0) × (n a ≡ opened_entry (m a)) × P a)
  pub all_of : (a : ℕ) → P a → n a ≡ opened_entry (m a)

-- Some entries got the user bit.
abbrev pub Grows : Memory → Memory → Type 0
Grows m n = (a : ℕ) → (n a ≡ m a) ⊎ ((m a ≢ 0) × (n a ≡ opened_entry (m a)))

-- A set that does not depend on the user bits.
abbrev pub IsSteady : (Memory → ℕ → Type 0) → Type 0
IsSteady P = (m n : Memory) → Grows m n → (a : ℕ) → (P m a → P n a) × (P n a → P m a)

pub opens-Grows : {m n : Memory} {P : ℕ → Type 0} → Opens m n P → Grows m n
opens-Grows h a = elim (h.others a) [ inl e ↦ inl e | inr (z, e, p) ↦ inr (z, e) ]

-- An entry that has the bit keeps it, and one that gets it later gets no other.
bit_stays :
    (w v u : ℕ) {Z : Type 0}
    → (u ≡ v) ⊎ (Z × (u ≡ opened_entry v))
    → v ≡ opened_entry w
    → u ≡ opened_entry w
bit_stays w v u (inl f) e = f ∙ e
bit_stays w v u (inr (z, f)) e = f ∙ ap opened_entry e ∙ opened_entry-opened_entry w

bit_comes :
    (w v u : ℕ) {Z : Type 0}
    → (v ≡ w) ⊎ (Z × (v ≡ opened_entry w))
    → u ≡ opened_entry v
    → u ≡ opened_entry w
bit_comes w v u (inl e) f = f ∙ ap opened_entry e
bit_comes w v u (inr (z, e)) f = f ∙ ap opened_entry e ∙ opened_entry-opened_entry w

-- Two steps, one behind the other.
pub opens-opens :
    {m n q : Memory} {P Q R : ℕ → Type 0}
    → Opens m n P
    → Opens n q Q
    → ((a : ℕ) → (P a → R a) × (Q a → R a) × (R a → P a ⊎ Q a))
    → Opens m q R
opens-opens {m} {n} {q} {P} {Q} {R} h k sets = record {
  others = λ a. elim (h.others a) [
    | inl e ↦ elim (k.others a) [
      | inl f ↦ inl (f ∙ e)
      | inr (z, f, p) ↦ inr ((λ o. z (e ∙ o)), f ∙ ap opened_entry e, (sets a).1 p)
    ]
    | inr (z, e, p) ↦ inr (z, bit_stays (m a) (n a) (q a) (opens-Grows k a) e, (sets a).0 p)
  ];
  all_of = λ a r. elim ((sets a).2 r) [
    | inl p ↦ bit_stays (m a) (n a) (q a) (opens-Grows k a) (h.all_of a p)
    | inr p ↦ bit_comes (m a) (n a) (q a) (opens-Grows h a) (k.all_of a p)
  ];
}

pub opens_none : (m : Memory) (P : ℕ → Type 0) → ((a : ℕ) → ¬ (P a)) → Opens m m P
opens_none m P h = record { others = λ a. inl refl; all_of = λ a p. absurd (h a p) }

pub opens_as :
    {m n : Memory} {P R : ℕ → Type 0}
    → Opens m n P
    → ((a : ℕ) → (P a → R a) × (R a → P a))
    → Opens m n R
opens_as h sets = record {
  others = λ a. elim (h.others a) [ inl e ↦ inl e | inr (z, e, p) ↦ inr (z, e, (sets a).0 p) ];
  all_of = λ a r. h.all_of a ((sets a).1 r);
}

-- A zero entry stays zero and no other becomes zero; and an entry refers to the same table.
pub grows_zero :
    {w v : ℕ} → (v ≡ w) ⊎ ((w ≢ 0) × (v ≡ opened_entry w)) → (w ≢ 0 → v ≢ 0) × (v ≢ 0 → w ≢ 0)
grows_zero (inl e) = ((λ n o. n (sym e ∙ o)), (λ n o. n (e ∙ o)))
grows_zero {w} (inr (z, e)) = ((λ n o. opened_entry_positive w (sym e ∙ o)), (λ n. z))

pub grows-IsTable :
    {w v : ℕ} (level : ℕ)
    → (v ≡ w) ⊎ ((w ≢ 0) × (v ≡ opened_entry w))
    → (IsTable level v → IsTable level w) × (IsTable level w → IsTable level v)
grows-IsTable level (inl e) = (subst (IsTable level) e, subst (IsTable level) (sym e))
grows-IsTable {w} level (inr (z, e)) =
    let (back, forth) = IsTable-opened_entry level w in
    ((λ t. back (subst (IsTable level) e t)), (λ t. subst (IsTable level) (sym e) (forth t)))

pub grows_table_of :
    {w v : ℕ} → (v ≡ w) ⊎ ((w ≢ 0) × (v ≡ opened_entry w)) → table_of v ≡ table_of w
grows_table_of (inl e) = ap table_of e
grows_table_of {w} (inr (z, e)) = ap table_of e ∙ table_of-opened_entry w
