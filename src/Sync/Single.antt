-- ===== src/Sync/Single.antt =====
-- kernel/src/library/once.rs: threads that call `init` and `get`.
-- The value of the thread `i` is `make i`. The write of the value is a step of its own, since the
-- closure of `init` runs between the flag and the write.
use heine_os.Prelude.{
  ℕ, ◌≡◌, refl, sym, subst, ◌∙◌, ◌↔◌, Bool-cases, Bool, true, false, true≢false, Option, none, some,
  if◌then◌else◌, split, ◌⊎◌, inl, inr,
}
use heine_os.Sync.{Once, new_once, claim, write_value, get, value_ref, update}
use heine_os.Sync.Exclusion.{of_update, elsewhere, here}

-- Where a thread is: outside, in `init` before the write of the value, or in `init` behind it.
pub data Place : Type 0 where
  outside : Place
  writing : Place
  referring : Place

pub record System (T : Type 0) : Type 0 where
  pub once : Once T
  pub place : ℕ → Place

some≢none : {A : Type 0} {o : Option A} {a : A} → o ≡ some a → ¬ (o ≡ none)
some≢none e f = cc

garbage :
    {A : Type 0} (b : Bool) (o : Option A)
    → (if b then some o else none) ≡ some none
    → (b ≡ true) × (o ≡ none)
garbage true o e = (refl, cc)
garbage false o e = absurd (some≢none {o = none} {a = none} e refl)

module _ {T : Type 0} (make : ℕ → T) where
  abbrev pub start : System T
  start = record { once = new_once; place = λ _. outside }

  abbrev pub goes : System T → ℕ → Once T → Place → System T
  goes s i once place = record { once = once; place = update s.place i place }

  -- The first line of `init`.
  abbrev pub enter : System T → ℕ → System T
  enter s i =
      let (already, later) = claim s.once in goes s i later (if already then referring else writing)

  pub data Step (s : System T) : System T → Type 0 where
    enters : (i : ℕ) → s.place i ≡ outside → Step s (enter s i)
    writes :
        (i : ℕ) → s.place i ≡ writing → Step s (goes s i (write_value s.once (make i)) referring)
    returns : (i : ℕ) → s.place i ≡ referring → Step s (goes s i s.once outside)

  pub data Reach : System T → Type 0 where
    begin : Reach start
    next : {s t : System T} → Reach s → Step s t → Reach t

  abbrev pub IsWriting : Place → Type 0
  IsWriting outside = ⊥
  IsWriting writing = Unit
  IsWriting referring = ⊥

  -- The flag is set from the first call on, and then either one thread is about to write the value,
  -- or it is there.
  pub record IsOnce (s : System T) : Type 0 where
    pub single : (i j : ℕ) → IsWriting (s.place i) → IsWriting (s.place j) → i ≡ j
    pub empty_while :
        (i : ℕ) → IsWriting (s.place i) → (s.once.initialized ≡ true) × (s.once.value ≡ none)
    pub settled :
        s.once.initialized ≡ true
        → ((i : ℕ) × IsWriting (s.place i)) ⊎ ((w : T) × (s.once.value ≡ some w))
    pub untouched : s.once.initialized ≡ false → s.once.value ≡ none

  begin-IsOnce : IsOnce start
  begin-IsOnce = record {
    single = λ i j p q. absurd p;
    empty_while = λ i p. absurd p;
    settled = λ e. absurd (true≢false refl (sym e));
    untouched = λ e. refl;
  }

  module _ (s : System T) (h : IsOnce s) (i : ℕ) where
    -- Another thread than the one that moves stays where it is.
    other_writer :
        (q : Place)
        → ¬ IsWriting (s.place i)
        → (j : ℕ) × IsWriting (s.place j)
        → (j : ℕ) × IsWriting (update s.place i q j)
    other_writer q out (j, p) = (
      j,
      elsewhere s.place i q IsWriting j (λ e. out (subst (λ k. IsWriting (s.place k)) (sym e) p)) p,
    )

    -- A thread moves to where it writes nothing, and the memory is as before.
    idles : (q : Place) → ¬ IsWriting (s.place i) → ¬ IsWriting q → IsOnce (goes s i s.once q)
    idles q out idle = record {
      single = λ j k a b. h.single j k (was j a) (was k b);
      empty_while = λ j a. h.empty_while j (was j a);
      settled = λ e. elim (h.settled e) [ inl w ↦ inl (other_writer q out w) | inr v ↦ inr v ];
      untouched = h.untouched;
    }
      where
        was : (j : ℕ) → IsWriting (update s.place i q j) → IsWriting (s.place j)
        was j a = elim (of_update s.place i q IsWriting j a) [
          | inl (e, b) ↦ absurd (idle b)
          | inr (e, b) ↦ b
        ]

    -- The first thread of all enters.
    claims :
        s.once.initialized ≡ false
        → IsOnce (goes s i (record s.once { initialized = true }) writing)
    claims e = record {
      single = λ j k a b. sym (only j a) ∙ only k b;
      empty_while = λ j a. (refl, h.untouched e);
      settled = λ f. inl (i, here s.place i writing IsWriting tt);
      untouched = λ f. absurd (true≢false refl f);
    }
      where
        only : (j : ℕ) → IsWriting (update s.place i writing j) → i ≡ j
        only j a = elim (of_update s.place i writing IsWriting j a) [
          | inl (f, b) ↦ f
          | inr (f, b) ↦ absurd (true≢false (h.empty_while j b).0 e)
        ]

    stores :
        IsWriting (s.place i)
        → IsOnce (goes s i (record s.once { value = some (make i) }) referring)
    stores p = record {
      single = λ j k a b. absurd (nobody j a);
      empty_while = λ j a. absurd (nobody j a);
      settled = λ f. inr (make i, refl);
      untouched = λ f. absurd (true≢false (h.empty_while i p).0 f);
    }
      where
        nobody : (j : ℕ) → IsWriting (update s.place i referring j) → ⊥
        nobody j a = elim (of_update s.place i referring IsWriting j a) [
          | inl (e, b) ↦ b
          | inr (e, b) ↦ e (h.single i j p b)
        ]

    enter-IsOnce : s.place i ≡ outside → IsOnce (enter s i)
    unfolding claim
    enter-IsOnce p =
        split
          (λ b.
            b ≡ s.once.initialized
            → IsOnce (
                goes s i (record s.once { initialized = true }) (if b then referring else writing)))
          s.once.initialized
          (λ e f.
            subst (λ b. IsOnce (goes s i (record s.once { initialized = b }) referring)) (sym f)
              (idles referring (λ q. subst IsWriting p q) (λ q. q)))
          (λ e f. claims e) refl

  Step-IsOnce : {s t : System T} → Step s t → IsOnce s → IsOnce t
  unfolding write_value
  Step-IsOnce {s} (enters i e) h = enter-IsOnce s h i e
  Step-IsOnce {s} (writes i e) h = stores s h i (subst IsWriting (sym e) tt)
  Step-IsOnce {s} (returns i e) h = idles s h i outside (λ q. subst IsWriting e q) (λ q. q)

  Reach-IsOnce : {s : System T} → Reach s → IsOnce s
  Reach-IsOnce begin = begin-IsOnce
  Reach-IsOnce (next r step) = Step-IsOnce step (Reach-IsOnce r)

  Step-keeps :
      {s t : System T} (w : T) → Step s t → IsOnce s → s.once.value ≡ some w → t.once.value ≡ some w
  unfolding claim write_value
  Step-keeps {s} w (enters i e) h f = f
  Step-keeps {s} w (writes i e) h f =
      absurd (some≢none f (h.empty_while i (subst IsWriting (sym e) tt)).1)
  Step-keeps {s} w (returns i e) h f = f

  -- In the state `s`, one thread at most is about to write the value; a value that is written stays
  -- the same in the next state `t`, and is what `init` and `get` refer to; and `get` refers to memory
  -- that nobody has written exactly while a thread is about to write it.
  abbrev pub IsSingle : System T → System T → Type 0
  IsSingle s t =
      ((i j : ℕ) → IsWriting (s.place i) → IsWriting (s.place j) → i ≡ j)
      × ((w : T)
          → s.once.value ≡ some w
          → (t.once.value ≡ some w) × (value_ref s.once ≡ some w) × (get s.once ≡ some (some w)))
      × ((get s.once ≡ some none) ↔ ((i : ℕ) × IsWriting (s.place i)))

  -- Whatever the order of the steps: one thread at most computes the value; once it is written it
  -- stays the same, and `get` and `init` refer to it; and while a thread computes it, and only then,
  -- `get` gives a reference to memory that nobody has written.
  pub once_is_written_once : {s t : System T} → Reach s → Step s t → IsSingle s t
  unfolding get value_ref
  once_is_written_once {s} r step =
      let h = Reach-IsOnce r in
      (
        h.single,
        λ w e. (Step-keeps w step h e, e, seen h w e),
        (λ e. writer h e, λ w. let (f, n) = h.empty_while w.0 w.1 in rw (f, n) refl),
      )
    where
      seen :
          IsOnce s
          → (w : T) → s.once.value ≡ some w
          → (if s.once.initialized then some s.once.value else none) ≡ some (some w)
      seen h w e = elim (Bool-cases s.once.initialized) [
        | inl f ↦ rw (f, e) refl
        | inr f ↦ absurd (some≢none e (h.untouched f))
      ]

      writer :
          IsOnce s
          → (if s.once.initialized then some s.once.value else none) ≡ some none
          → (i : ℕ) × IsWriting (s.place i)
      writer h e =
          let (f, o) = garbage s.once.initialized s.once.value e in
          elim (h.settled f) [ inl w ↦ w | inr (w, g) ↦ absurd (some≢none g o) ]
