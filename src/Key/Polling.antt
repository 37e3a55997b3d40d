-- ===== src/Key/Polling.antt =====
-- kernel/src/device/key.rs and kernel/src/library/input.rs: what polling returns.
-- The keys that are pending are those in the queue and those still to come.
use heine_os.Prelude.{
  ℕ, zero, suc, ◌+◌, ◌<◌, ◌≤◌, ◌≡◌, refl, sym, ap, subst, ◌∙◌, true, ◌⊎◌, inl, inr, Option, none,
  some, List, [], ◌∷◌, ◌++◌, length, length-append, append_assoc, append-nil, if◌then◌else◌, split,
  Outcome, done, spins, arith,
}
use heine_os.Key.{KeyEvent}
use heine_os.Key.Waiting.{
  Bounded, IsLawful, Typing, push_key_event, push_all, attempts, poll_key_event, poll_key_press,
  poll_char,
}

abbrev pub flatten : List (List KeyEvent) → List KeyEvent
flatten [] = []
flatten (keys ∷ later) = keys ++ flatten later

-- The first pressed key, the first character of one, and what follows.
abbrev pub first_press : List KeyEvent → Option (KeyEvent × List KeyEvent)
first_press [] = none
first_press (k ∷ ks) = let later = first_press ks in if k.pressed then some (k, ks) else later

abbrev pub first_char : List KeyEvent → Option (ℕ × List KeyEvent)
first_char [] = none
first_char (k ∷ ks) =
    let later = first_char ks in
    if k.pressed then elim k.ascii [ some c ↦ some (c, ks) | none ↦ later ] else later

module _ (S : Bounded) (law : IsLawful S) where
  abbrev pub pending : Typing S → List KeyEvent
  pending t = law.items t.queue_now ++ flatten t.coming

  -- There is room for all that are pending.
  abbrev pub HasRoom : Typing S → Type 0
  HasRoom t = length (pending t) ≤ law.capacity t.queue_now

  record Pushed (keys : List KeyEvent) (q : S.Queue) (r : Outcome S.Queue) : Type 0 where
    later : S.Queue
    result : r ≡ done later
    items_are : law.items later ≡ law.items q ++ keys
    capacity_is : law.capacity later ≡ law.capacity q

  push_all-Pushed :
      (keys : List KeyEvent) (q : S.Queue)
      → length (law.items q) + length keys ≤ law.capacity q
      → Pushed keys q (push_all S keys q)
  unfolding push_all push_key_event
  push_all-Pushed [] q h = record {
    later = q;
    result = refl;
    items_are = sym (append-nil (law.items q));
    capacity_is = refl;
  }
  push_all-Pushed (key ∷ keys) q h =
      let (next, e, items_are, capacity_is) = law.enqueues key q (omega arith) in
      let rest =
        push_all-Pushed keys next (
          omega
            (arith, capacity_is, ap length items_are, length-append (law.items q) (key ∷ []))) in
      record {
        later = rest.later;
        result = rw (law.never_closed q, e) rest.result;
        items_are =
            rest.items_are
            ∙ ap (λ l. l ++ keys) items_are
            ∙ append_assoc (law.items q) (key ∷ []) keys;
        capacity_is = rest.capacity_is ∙ capacity_is;
      }

  -- A poll that ends with a value, and with these keys pending.
  pub record Ends {A : Type 0} (a : A) (rest : List KeyEvent) (r : Outcome (A × Typing S))
      : Type 0 where
    pub later : Typing S
    pub result : r ≡ done (a, later)
    pub pending_are : pending later ≡ rest
    pub room : HasRoom later

  List-cases :
      (xs : List KeyEvent) → (xs ≡ []) ⊎ ((k : KeyEvent) × (ks : List KeyEvent) × (xs ≡ k ∷ ks))
  List-cases [] = inl refl
  List-cases (k ∷ ks) = inr (k, ks, refl)

  -- A key that is taken out of the queue.
  taken :
      (q : S.Queue) (k : KeyEvent) (ks rest : List KeyEvent) (coming : List (List KeyEvent))
      (other : Outcome (KeyEvent × Typing S))
      → law.items q ≡ k ∷ ks
      → ks ++ flatten coming ≡ rest
      → length (k ∷ rest) ≤ law.capacity q
      → Ends k rest (elim (S.try_dequeue q) [
        | none ↦ other
        | some (key, later) ↦ done (key, record { queue_now = later; coming = coming })
      ])
  taken q k ks rest coming other e f h =
      let (later, d, items_are, capacity_is) = law.dequeues q k ks e in
      let there : law.items later ++ flatten coming ≡ rest =
        ap (λ l. l ++ flatten coming) items_are ∙ f in
      record {
        later = record { queue_now = later; coming = coming };
        result = rw d refl;
        pending_are = there;
        room = omega (arith, ap length there, capacity_is);
      }

  attempts-Ends :
      (coming : List (List KeyEvent)) (q : S.Queue) (k : KeyEvent) (rest : List KeyEvent)
      → law.items q ++ flatten coming ≡ k ∷ rest
      → length (k ∷ rest) ≤ law.capacity q
      → Ends k rest (attempts S coming q)
  unfolding attempts
  attempts-Ends [] q k rest e h =
      taken q k rest rest [] spins (sym (append-nil (law.items q)) ∙ e) (append-nil rest) h
  attempts-Ends (keys ∷ coming) q k rest e h =
      let p = push_all-Pushed keys q (
        omega (
          arith,
          ap length e,
          length-append (law.items q) (keys ++ flatten coming),
          length-append keys (flatten coming),
        )) in
      let all : law.items p.later ++ flatten coming ≡ k ∷ rest =
        ap (λ l. l ++ flatten coming) p.items_are
        ∙ append_assoc (law.items q) keys (flatten coming)
        ∙ e in
      let top : length (k ∷ rest) ≤ law.capacity p.later = omega (arith, p.capacity_is) in
      rw (p.result) (elim (List-cases (law.items p.later)) [
        | inl z ↦ rw (law.empty p.later z) (attempts-Ends coming p.later k rest all top)
        | inr (x, xs, z) ↦
            let both : x ∷ (xs ++ flatten coming) ≡ k ∷ rest =
              ap (λ l. l ++ flatten coming) (sym z) ∙ all in
            let here : x ≡ k = cc in
            let behind : xs ++ flatten coming ≡ rest = cc in
            taken p.later k xs rest coming (attempts S coming p.later) (z ∙ ap (λ y. y ∷ xs) here)
              behind top
      ])

  poll_key_event-Ends :
      (t : Typing S) (k : KeyEvent) (rest : List KeyEvent)
      → pending t ≡ k ∷ rest
      → HasRoom t
      → Ends k rest (poll_key_event S t)
  unfolding poll_key_event
  poll_key_event-Ends t k rest e room =
      rw (law.never_closed t.queue_now)
        (attempts-Ends t.coming t.queue_now k rest e (omega (arith, ap length e, room)))

  -- As many rounds as there are keys pending are enough for the first pressed one.
  poll_key_press-Ends :
      (rounds : ℕ) (t : Typing S) (ks : List KeyEvent) (k : KeyEvent) (rest : List KeyEvent)
      → pending t ≡ ks
      → HasRoom t
      → length ks ≤ rounds
      → first_press ks ≡ some (k, rest)
      → Ends k rest (poll_key_press S rounds t)
  unfolding poll_key_press
  poll_key_press-Ends rounds t [] k rest e room l f = cc
  poll_key_press-Ends zero t (x ∷ ks) k rest e room l f = absurd (omega arith)
  poll_key_press-Ends (suc rounds) t (x ∷ ks) k rest e room l f =
      let p = poll_key_event-Ends t x ks e room in
      rw (p.result) (
        split
          (λ b.
            (if b then some (x, ks) else first_press ks) ≡ some (k, rest)
            → Ends k rest (if b then done (x, p.later) else poll_key_press S rounds p.later))
          x.pressed
          (λ _ g.
            let same : x ≡ k = cc in
            let rest_is : ks ≡ rest = cc in
            record {
              later = p.later;
              result = ap (λ y. done (y, p.later)) same;
              pending_are = p.pending_are ∙ rest_is;
              room = p.room;
            })
          (λ _ g. poll_key_press-Ends rounds p.later ks k rest p.pending_are p.room (omega arith) g)
          f)

-- The first press, seen from the first character.
record NextPress (ks : List KeyEvent) (c : ℕ) (rest : List KeyEvent) : Type 0 where
  key : KeyEvent
  behind : List KeyEvent
  found : first_press ks ≡ some (key, behind)
  shorter : length behind < length ks
  goes_on :
      ((key.ascii ≡ some c) × (behind ≡ rest))
      ⊎ ((key.ascii ≡ none) × (first_char behind ≡ some (c, rest)))

abbrev chars_of : KeyEvent → List KeyEvent → Option ℕ → Option (ℕ × List KeyEvent)
chars_of k ks a = elim a [ some c ↦ some (c, ks) | none ↦ first_char ks ]

pressed-NextPress :
    (k : KeyEvent) (ks : List KeyEvent) (c : ℕ) (rest : List KeyEvent)
    → k.pressed ≡ true
    → (a : Option ℕ) → k.ascii ≡ a
    → chars_of k ks a ≡ some (c, rest)
    → NextPress (k ∷ ks) c rest
pressed-NextPress k ks c rest p none e f = record {
  key = k;
  behind = ks;
  found = ap (λ b. if b then some (k, ks) else first_press ks) p;
  shorter = omega arith;
  goes_on = inr (e, f);
}
pressed-NextPress k ks c rest p (some d) e f = record {
  key = k;
  behind = ks;
  found = ap (λ b. if b then some (k, ks) else first_press ks) p;
  shorter = omega arith;
  goes_on = let g : d ≡ c = cc in let h : ks ≡ rest = cc in inl (e ∙ ap some g, h);
}

first_char-NextPress :
    (ks : List KeyEvent) (c : ℕ) (rest : List KeyEvent)
    → first_char ks ≡ some (c, rest)
    → NextPress ks c rest
first_char-NextPress [] c rest f = cc
first_char-NextPress (k ∷ ks) c rest f =
    split
      (λ b.
        (k.pressed ≡ b)
        → (if b then chars_of k ks k.ascii else first_char ks) ≡ some (c, rest)
        → NextPress (k ∷ ks) c rest)
      k.pressed (λ _ p g. pressed-NextPress k ks c rest p k.ascii refl g)
      (λ _ p g.
        let later = first_char-NextPress ks c rest g in
        record {
          key = later.key;
          behind = later.behind;
          found = ap (λ b. if b then some (k, ks) else first_press ks) p ∙ later.found;
          shorter = omega (arith, later.shorter);
          goes_on = later.goes_on;
        })
      refl f

-- Where all keys that are pending have room in the queue and one of them is pressed and has a
-- character, poll_char ends, within as many rounds as there are keys pending, with the character of
-- the first such key, and the keys behind it are pending: no key is lost or taken too early.
pub poll_char-Ends :
    (S : Bounded) (law : IsLawful S) (rounds : ℕ) (t : Typing S) (c : ℕ) (rest : List KeyEvent)
    → HasRoom S law t
    → length (pending S law t) ≤ rounds
    → first_char (pending S law t) ≡ some (c, rest)
    → Ends S law c rest (poll_char S rounds t)
unfolding poll_char
poll_char-Ends S law zero t c rest room l f =
    absurd (omega (arith, (first_char-NextPress (pending S law t) c rest f).shorter))
poll_char-Ends S law (suc rounds) t c rest room l f =
    let n = first_char-NextPress (pending S law t) c rest f in
    let p =
      poll_key_press-Ends S law (suc rounds) t (pending S law t) n.key n.behind refl room l
        n.found in
    let next : Option ℕ → Outcome (ℕ × Typing S) =
      (λ o. elim o [ some d ↦ done (d, p.later) | none ↦ poll_char S rounds p.later ]) in
    rw (p.result) (elim n.goes_on [
      | inl (a, b) ↦
          subst (λ o. Ends S law c rest (next o)) (sym a)
            (record {
              later = p.later;
              result = refl;
              pending_are = p.pending_are ∙ b;
              room = p.room;
            })
      | inr (a, g) ↦
          subst (λ o. Ends S law c rest (next o)) (sym a)
            (poll_char-Ends S law rounds p.later c rest p.room
              (omega (arith, n.shorter, ap length p.pending_are, l))
              (ap first_char p.pending_are ∙ g))
    ])
