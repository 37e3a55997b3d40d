-- ===== src/Queue/Remove.antt =====
-- `remove` of kernel/src/library/queue.rs: the first item that fits, and no other.
use heine_os.Prelude.{
  ◌≡◌, refl, ap, Bool, true, false, List, [], ◌∷◌, ◌++◌, ◌⊎◌, inl, inr, if◌then◌else◌,
}
use heine_os.Queue.{Link, LinkedQueue, null, node, remove, remove_link}
use heine_os.Queue.Fifo.{link_list, to_list}

module _ {ℓ} {A : Type ℓ} (f : A → Bool) where
  abbrev pub NoneFits : List A → Type 0
  NoneFits [] = Unit {0}
  NoneFits (x ∷ xs) = (f x ≡ false) × NoneFits xs

  -- `ys` is `xs` without its first item that fits.
  pub record Without (xs ys : List A) : Type ℓ where
    pub before : List A
    pub item : A
    pub after : List A
    pub whole : xs ≡ before ++ item ∷ after
    pub left : ys ≡ before ++ after
    pub fits : f item ≡ true
    pub first : NoneFits before

  abbrev pub Removes : List A → Bool → List A → Type ℓ
  Removes xs found ys =
      ((found ≡ true) × Without xs ys) ⊎ ((found ≡ false) × (ys ≡ xs) × NoneFits xs)

  remove_further :
      (x : A) (xs ys : List A) (found : Bool)
      → f x ≡ false
      → Removes xs found ys
      → Removes (x ∷ xs) found (x ∷ ys)
  remove_further x xs ys found skip (inl (e, w)) = inl (
    e,
    record {
      before = x ∷ w.before;
      item = w.item;
      after = w.after;
      whole = ap (◌∷◌ x) w.whole;
      left = ap (◌∷◌ x) w.left;
      fits = w.fits;
      first = (skip, w.first);
    },
  )
  remove_further x xs ys found skip (inr (e, same, miss)) = inr (e, ap (◌∷◌ x) same, (skip, miss))

  remove_node :
      (x : A) (next : Link A) (b : Bool) (rest : Bool × Link A)
      → f x ≡ b
      → Removes (link_list next) rest.0 (link_list rest.1)
      → let r : Bool × Link A = if b then (true, next) else (rest.0, node x rest.1) in
        Removes (x ∷ link_list next) r.0 (link_list r.1)
  remove_node x next true rest hit ih = inl (
    refl,
    record {
      before = [];
      item = x;
      after = link_list next;
      whole = refl;
      left = refl;
      fits = hit;
      first = tt;
    },
  )
  remove_node x next false rest miss ih = remove_further x (link_list next) _ _ miss ih

  remove_at :
      (l : Link A) → Removes (link_list l) (remove_link f l).0 (link_list (remove_link f l).1)
  unfolding remove_link
  remove_at null = inr (refl, refl, tt)
  remove_at (node x next) = remove_node x next (f x) (remove_link f next) refl (remove_at next)

  -- `remove` returns true and takes out the first item that fits the predicate, or it returns
  -- false, no item fits and the queue is as it was.
  pub remove-Removes :
      (q : LinkedQueue A) → Removes (to_list q) (remove f q).0 (to_list (remove f q).1)
  unfolding remove to_list
  remove-Removes q = remove_at q.head
