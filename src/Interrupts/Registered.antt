-- ===== src/Interrupts/Registered.antt =====
-- kernel/src/interrupt/dispatcher.rs: which handler an interrupt reaches.
use heine_os.Prelude.{
  ℕ, zero, suc, ◌<◌, ◌≡◌, refl, sym, ap, ◌∙◌, Bool, true, false, Option, none, some, List, [], ◌∷◌,
  length, get_elem?, set, replicate, length-set, length-replicate, get_elem?-set_self,
  get_elem?-set_ne, if◌then◌else◌, ◌==◌, ==_iff, Bool_false, ℕ_discrete, Outcome, done, ◌>>=◌,
  unwrap, arith,
}
use heine_os.Interrupts.{
  idt_size, no_vectors, init, register, replaced, report, reported, dispatched, dispatch_interrupt,
}

get_elem?-replicate : {A : Type 0} (n i : ℕ) (a : A) → i < n → get_elem? (replicate n a) i ≡ some a
get_elem?-replicate zero i a h = absurd (omega arith)
get_elem?-replicate (suc n) zero a h = refl
get_elem?-replicate (suc n) (suc i) a h = get_elem?-replicate n i a (omega arith)

if_out :
    {A B : Type 0} (f : A → B) (b : Bool) (x y : A)
    → f (if b then x else y) ≡ (if b then f x else f y)
if_out f true x y = refl
if_out f false x y = refl

module _ {Isr : Type 0} where
  -- The drivers register one after another.
  unfoldable pub register_all : List (ℕ × Isr) → List (Option Isr) → Outcome (List (Option Isr))
  register_all [] map = done map
  register_all ((vector, isr) ∷ rest) map = register map vector isr >>= register_all rest

  -- The handler that was registered last for a vector, or the one before all of them.
  unfoldable pub latest : List (ℕ × Isr) → ℕ → Option Isr → Option Isr
  latest [] vector before = before
  latest ((v, isr) ∷ rest) vector before =
      let later = latest rest vector (some isr) in
      let same = latest rest vector before in if v == vector then later else same

  abbrev pub AllInside : List (ℕ × Isr) → Type 0
  AllInside [] = Unit
  AllInside ((v, isr) ∷ rest) = (v < 256) × AllInside rest

  pub record Reaches (rs : List (ℕ × Isr)) (before : ℕ → Option Isr)
      (r : Outcome (List (Option Isr))) : Type 0 where
    pub map : List (Option Isr)
    pub result : r ≡ done map
    pub reaches :
        (vector : ℕ)
        → vector < 256
        → dispatch_interrupt map vector ≡ unwrap (latest rs vector (before vector))

  Reaches-from :
      (rs : List (ℕ × Isr)) (map : List (Option Isr)) (before : ℕ → Option Isr)
      → length map ≡ 256
      → ((vector : ℕ) → vector < 256 → get_elem? map vector ≡ some (before vector))
      → AllInside rs
      → Reaches rs before (register_all rs map)
  unfolding register_all latest dispatch_interrupt report register
  Reaches-from [] map before l h k = record {
    map = map;
    result = refl;
    reaches = λ vector b. ap (λ o. dispatched (reported o)) (h vector b) ∙ known (before vector);
  }
    where
      known : (o : Option Isr) → dispatched (done o) ≡ unwrap o
      known none = refl
      known (some isr) = refl
  Reaches-from ((v, isr) ∷ rest) map before l h (b, k) =
      let next : ℕ → Option Isr = λ i. if v == i then some isr else before i in
      let r =
        Reaches-from rest (set map v (some isr)) next (length-set map v (some isr) ∙ l)
          (λ vector c. elim (ℕ_discrete v vector) [
            | yes e ↦
                ap (get_elem? (set map v (some isr))) (sym e)
                ∙ get_elem?-set_self map v (some isr) (omega arith)
                ∙ ap (λ s. some (if s then some isr else before vector))
                    (sym ((==_iff v vector).1 e))
            | no e ↦
                get_elem?-set_ne map (some isr) e
                ∙ h vector c
                ∙ ap (λ s. some (if s then some isr else before vector))
                    (sym (Bool_false (v == vector) (λ f. e ((==_iff v vector).0 f))))
          ])
          k in
      record {
        map = r.map;
        result = ap (λ o. replaced map v isr o >>= register_all rest) (h v b) ∙ r.result;
        reaches = λ vector c.
            r.reaches vector c
            ∙ ap unwrap (if_out (latest rest vector) (v == vector) (some isr) (before vector));
      }

  -- Once the map is initialised and the drivers have registered their handlers, an interrupt reaches
  -- the handler that was registered last for its vector, and panics where there is none.
  pub init-Reaches :
      (rs : List (ℕ × Isr))
      → AllInside rs
      → Reaches rs (λ _. none) (init no_vectors >>= register_all rs)
  unfolding init
  init-Reaches rs k =
      Reaches-from rs (replicate idt_size none) (λ _. none)
        (length-replicate {A = Option Isr} idt_size none)
        (λ vector b. get_elem?-replicate idt_size vector none b) k
