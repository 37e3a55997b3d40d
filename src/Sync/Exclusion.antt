-- ===== src/Sync/Exclusion.antt =====
-- kernel/src/library/spinlock.rs: the lock keeps the threads apart.
use heine_os.Prelude.{
  ℕ, ◌≡◌, ◌≢◌, refl, sym, ap, subst, ◌∙◌, true, false, true≢false, List, ◌∷◌, if◌then◌else◌, ◌==◌,
  ==_iff, Bool_false, ℕ_discrete, ◌⊎◌, inl, inr, split,
}
use heine_os.Sync.{Spinlock, try_lock, unlock, update}
use heine_os.Sync.Spin.{
  Pc, outside, locking, guarded, has_read, System, attempt, Step, calls_lock, spins_once,
  tries_lock, reads, writes, drops, Reach, begin, next, replay,
}

-- The place of a thread after one of them moved: the new one, or as before.
module _ {A : Type 0} (table : ℕ → A) (i : ℕ) (a : A) where
  update_cases :
      (j : ℕ) → ((i ≡ j) × (update table i a j ≡ a)) ⊎ ((i ≢ j) × (update table i a j ≡ table j))
  update_cases j = elim (ℕ_discrete i j) [
    | yes e ↦ inl (e, ap (λ b. if b then a else table j) ((==_iff i j).1 e))
    | no e ↦
        inr
          (e, ap (λ b. if b then a else table j) (Bool_false (i == j) (λ f. e ((==_iff i j).0 f))))
  ]

  pub of_update :
      (P : A → Type 0) (j : ℕ) → P (update table i a j) → ((i ≡ j) × P a) ⊎ ((i ≢ j) × P (table j))
  of_update P j h = elim (update_cases j) [
    | inl (e, p) ↦ inl (e, subst P p h)
    | inr (e, p) ↦ inr (e, subst P p h)
  ]

  pub elsewhere : (P : A → Type 0) (j : ℕ) → i ≢ j → P (table j) → P (update table i a j)
  elsewhere P j n h = elim (update_cases j) [
    | inl (e, p) ↦ absurd (n e)
    | inr (e, p) ↦ subst P (sym p) h
  ]

  pub here : (P : A → Type 0) → P a → P (update table i a i)
  here P h = elim (update_cases i) [ inl (e, p) ↦ subst P (sym p) h | inr (e, p) ↦ absurd (e refl) ]

  pub to_update : (P : A → Type 0) (j : ℕ) → P a → (i ≢ j → P (table j)) → P (update table i a j)
  to_update P j h k = elim (update_cases j) [
    | inl (e, p) ↦ subst P (sym p) h
    | inr (e, p) ↦ subst P (sym p) (k e)
  ]

module _ {T : Type 0} where
  -- A place with a guard.
  abbrev pub Holds : Pc T → Type 0
  Holds outside = ⊥
  Holds locking = ⊥
  Holds guarded = Unit
  Holds (has_read v) = Unit

  -- What was read is still there.
  abbrev pub Fresh : T → Pc T → Type 0
  Fresh data_ outside = Unit
  Fresh data_ locking = Unit
  Fresh data_ guarded = Unit
  Fresh data_ (has_read v) = v ≡ data_

module _ {T : Type 0} (work : ℕ → T → T) (v : T) where
  -- One thread at most holds the lock, and only while the flag is set.
  pub record IsApart (s : System T) : Type 0 where
    pub single : (i j : ℕ) → Holds (s.pc i) → Holds (s.pc j) → i ≡ j
    pub flagged : (i : ℕ) → Holds (s.pc i) → s.shared.lock ≡ true
    pub fresh : (i : ℕ) → Fresh s.shared.data_ (s.pc i)
    pub replayed : s.shared.data_ ≡ replay work s.written v

  -- A thread moves: it takes the lock only if no other has it.
  moved :
      (s : System T) (i : ℕ) (shared : Spinlock T) (place : Pc T) (written : List ℕ)
      → (Holds place → (shared.lock ≡ true) × ((j : ℕ) → i ≢ j → ¬ Holds (s.pc j)))
      → ((j : ℕ) → i ≢ j → Holds (s.pc j) → shared.lock ≡ true)
      → Fresh shared.data_ place
      → ((j : ℕ) → i ≢ j → Fresh shared.data_ (s.pc j))
      → shared.data_ ≡ replay work written v
      → IsApart s
      → IsApart (record { shared = shared; pc = update s.pc i place; written = written })
  moved s i shared place written alone set here others r h = record {
    single =
        λ j k p q. same j k (of_update s.pc i place Holds j p) (of_update s.pc i place Holds k q);
    flagged = λ j p. elim (of_update s.pc i place Holds j p) [
      | inl (e, q) ↦ (alone q).0
      | inr (e, q) ↦ set j e q
    ];
    fresh = λ j. to_update s.pc i place (Fresh shared.data_) j here (others j);
    replayed = r;
  }
    where
      same :
          (j k : ℕ)
          → ((i ≡ j) × Holds place) ⊎ ((i ≢ j) × Holds (s.pc j))
          → ((i ≡ k) × Holds place) ⊎ ((i ≢ k) × Holds (s.pc k))
          → j ≡ k
      same j k (inl (e, p)) (inl (f, q)) = sym e ∙ f
      same j k (inl (e, p)) (inr (f, q)) = absurd ((alone p).1 k f q)
      same j k (inr (e, p)) (inl (f, q)) = absurd ((alone q).1 j e p)
      same j k (inr (e, p)) (inr (f, q)) = h.single j k p q

  idle-Fresh : (d : T) (p : Pc T) → ¬ Holds p → Fresh d p
  idle-Fresh d outside h = tt
  idle-Fresh d locking h = tt
  idle-Fresh d guarded h = tt
  idle-Fresh d (has_read w) h = absurd (h tt)

  module _ (s : System T) (i : ℕ) (h : IsApart s) where
    -- Who holds the lock holds it alone.
    others_out : Holds (s.pc i) → (j : ℕ) → i ≢ j → ¬ Holds (s.pc j)
    others_out p j e q = e (h.single i j p q)

    attempt-IsApart : (otherwise : Pc T) → ¬ Holds otherwise → IsApart (attempt work s i otherwise)
    unfolding try_lock
    attempt-IsApart otherwise out =
        split
          (λ b. IsApart (record {
            shared = taken;
            pc = update s.pc i (if (if b then false else true) then guarded else otherwise);
            written = s.written;
          }))
          s.shared.lock
          (λ e.
            moved s i taken otherwise s.written (λ p. absurd (out p)) (λ j n q. refl)
              (idle-Fresh s.shared.data_ otherwise out) (λ j n. h.fresh j) h.replayed h)
          (λ e.
            moved s i taken guarded s.written (λ p. (refl, λ j n q. true≢false (h.flagged j q) e))
              (λ j n q. refl) tt (λ j n. h.fresh j) h.replayed h)
      where
        taken : Spinlock T
        taken = record s.shared { lock = true }

  Step-IsApart : {s t : System T} → Step work s t → IsApart s → IsApart t
  unfolding unlock replay
  Step-IsApart {s} (calls_lock i e) h =
      moved s i s.shared locking s.written (λ p. absurd p) (λ j n. h.flagged j) tt
        (λ j n. h.fresh j) h.replayed h
  Step-IsApart {s} (spins_once i e) h = attempt-IsApart s i h locking (λ p. p)
  Step-IsApart {s} (tries_lock i e) h = attempt-IsApart s i h outside (λ p. p)
  Step-IsApart {s} (reads i e) h =
      let here : Holds (s.pc i) = subst Holds (sym e) tt in
      moved s i s.shared (has_read s.shared.data_) s.written
        (λ p. (h.flagged i here, others_out s i h here)) (λ j n. h.flagged j) refl
        (λ j n. h.fresh j) h.replayed h
  Step-IsApart {s} (writes i w e) h =
      let here : Holds (s.pc i) = subst Holds (sym e) tt in
      let read_is : w ≡ s.shared.data_ = subst (Fresh s.shared.data_) e (h.fresh i) in
      moved s i (record s.shared { data_ = work i w }) guarded (i ∷ s.written)
        (λ p. (h.flagged i here, others_out s i h here)) (λ j n. h.flagged j) tt
        (λ j n. idle-Fresh (work i w) (s.pc j) (others_out s i h here j n))
        (ap (work i) (read_is ∙ h.replayed)) h
  Step-IsApart {s} (drops i e) h =
      let here : Holds (s.pc i) = subst Holds (sym e) tt in
      moved s i (record s.shared { lock = false }) outside s.written (λ p. absurd p)
        (λ j n q. absurd (others_out s i h here j n q)) tt (λ j n. h.fresh j) h.replayed h

  Reach-IsApart : {s : System T} → Reach work v s → IsApart s
  unfolding replay
  Reach-IsApart begin = record {
    single = λ i j p q. absurd p;
    flagged = λ i p. absurd p;
    fresh = λ i. tt;
    replayed = refl;
  }
  Reach-IsApart (next r step) = Step-IsApart step (Reach-IsApart r)

  -- One guard at most, a set flag while there is one, and no lost write.
  abbrev pub Excludes : System T → Type 0
  Excludes s =
      ((i j : ℕ) → Holds (s.pc i) → Holds (s.pc j) → i ≡ j)
      × ((i : ℕ) → Holds (s.pc i) → s.shared.lock ≡ true)
      × (s.shared.data_ ≡ replay work s.written v)

  -- Whatever the order of their steps, no two threads have a guard at the same time, a guard means
  -- that the flag is set, and no write is lost: the data is what the threads that have written make
  -- of the first value, one after another.
  pub spinlock-Excludes : {s : System T} → Reach work v s → Excludes s
  spinlock-Excludes r = let h = Reach-IsApart r in (h.single, h.flagged, h.replayed)
