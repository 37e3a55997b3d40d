-- ===== src/Queue/Fifo.antt =====
-- The linked queue of kernel/src/library/queue.rs as a list, oldest item first.
use heine_os.Prelude.{◌≡◌, refl, ap, ap₂, Option, none, some, List, [], ◌∷◌, ◌++◌}
use heine_os.Queue.{Link, LinkedQueue, null, node, new, enqueue, dequeue, append_at_last}

module _ {ℓ} {A : Type ℓ} where
  abbrev pub link_list : Link A → List A
  link_list null = []
  link_list (node x next) = x ∷ link_list next

  unfoldable pub to_list : LinkedQueue A → List A
  to_list q = link_list q.head

  pub to_list-new : to_list new ≡ []
  unfolding to_list new
  to_list-new = refl

  append_at_last_lem :
      (x : A) (next : Link A) (a : A)
      → link_list (append_at_last x next a) ≡ x ∷ (link_list next ++ a ∷ [])
  unfolding append_at_last
  append_at_last_lem x null a = refl
  append_at_last_lem x (node y next) a = ap (◌∷◌ x) (append_at_last_lem y next a)

  enqueue_at :
      (l : Link A) (a : A) → to_list (enqueue (record { head = l }) a) ≡ link_list l ++ a ∷ []
  unfolding to_list enqueue
  enqueue_at null a = refl
  enqueue_at (node x next) a = append_at_last_lem x next a

  -- A new item goes to the end, behind all others.
  pub to_list-enqueue : (q : LinkedQueue A) (a : A) → to_list (enqueue q a) ≡ to_list q ++ a ∷ []
  unfolding to_list
  to_list-enqueue q a = enqueue_at q.head a

  -- What `dequeue` may do to a queue that holds `xs`.
  abbrev pub Dequeues : List A → Option A × LinkedQueue A → Type ℓ
  Dequeues [] r = (r.0 ≡ none) × (to_list r.1 ≡ [])
  Dequeues (x ∷ xs) r = (r.0 ≡ some x) × (to_list r.1 ≡ xs)

  dequeue_at : (l : Link A) → Dequeues (link_list l) (dequeue (record { head = l }))
  unfolding to_list dequeue
  dequeue_at null = (refl, refl)
  dequeue_at (node x next) = (refl, refl)

  pub dequeue-Dequeues : (q : LinkedQueue A) → Dequeues (to_list q) (dequeue q)
  unfolding to_list
  dequeue-Dequeues q = dequeue_at q.head

module _ {ℓ} {A : Type ℓ} where
  Dequeues-none : (xs : List A) (rest : LinkedQueue A) → Dequeues xs (none, rest) → xs ≡ []
  Dequeues-none [] rest d = refl
  Dequeues-none (x ∷ xs) rest d = cc

  pub dequeue-none : (q rest : LinkedQueue A) → dequeue q ≡ (none, rest) → to_list q ≡ []
  dequeue-none q rest e = Dequeues-none (to_list q) rest (rw e at (dequeue-Dequeues q))

-- A client's calls in order, with what each returns.
pub data Op {ℓ} (A : Type ℓ) : Type ℓ where
  put : A → Op A
  get : Op A

module _ {ℓ} {A : Type ℓ} where
  unfoldable pub run : LinkedQueue A → List (Op A) → List (Option A)
  run q [] = []
  run q (put a ∷ ops) = none ∷ run (enqueue q a) ops
  run q (get ∷ ops) = let (a, rest) = dequeue q in a ∷ run rest ops

  -- The same calls on an ideal queue: a list, entered at its end and left at its front.
  unfoldable pub ideal : List A → List (Op A) → List (Option A)
  ideal xs [] = []
  ideal xs (put a ∷ ops) = none ∷ ideal (xs ++ a ∷ []) ops
  ideal [] (get ∷ ops) = none ∷ ideal [] ops
  ideal (x ∷ xs) (get ∷ ops) = some x ∷ ideal xs ops

  run_at :
      (ops : List (Op A)) (xs : List A) (q : LinkedQueue A)
      → to_list q ≡ xs
      → run q ops ≡ ideal xs ops
  unfolding run ideal
  run_at [] xs q e = refl
  run_at (put a ∷ ops) xs q e =
      ap (◌∷◌ none) (run_at ops (xs ++ a ∷ []) (enqueue q a) (rw (to_list-enqueue q a, e)))
  run_at (get ∷ ops) [] q e =
      let d : Dequeues [] (dequeue q) = rw e at (dequeue-Dequeues q) in
      ap₂ ◌∷◌ d.0 (run_at ops [] (dequeue q).1 d.1)
  run_at (get ∷ ops) (x ∷ xs) q e =
      let d : Dequeues (x ∷ xs) (dequeue q) = rw e at (dequeue-Dequeues q) in
      ap₂ ◌∷◌ d.0 (run_at ops xs (dequeue q).1 d.1)

  -- No sequence of calls of `enqueue` and `dequeue` on a linked queue returns anything else than the
  -- ideal queue of its items does.
  pub run_refines : (q : LinkedQueue A) (ops : List (Op A)) → run q ops ≡ ideal (to_list q) ops
  run_refines q ops = run_at ops (to_list q) q refl
