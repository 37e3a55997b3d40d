-- ===== src/Queue.antt =====
-- kernel/src/library/queue.rs: the linked queue of the scheduler.
-- A `Link` is an `Option<Box<Node<T>>>`: the chain of nodes that it owns. A method that takes
-- `&mut self` returns the new queue; a loop that walks a `&mut` link returns the chain as the walk
-- leaves it.
pub mod Fifo
pub mod Remove
mod Tests
use heine_os.Prelude.{
  ℕ, Bool, true, false, Option, none, some, List, [], ◌∷◌, ◌++◌, if◌then◌else◌, ◌==◌,
}

-- `Option<Box<Node<T>>>`, with the fields of the node.
pub data Link {ℓ} (A : Type ℓ) : Type ℓ where
  null : Link A
  node : A → Link A → Link A

pub record LinkedQueue {ℓ} (A : Type ℓ) : Type ℓ where
  pub head : Link A

module _ {ℓ} {A : Type ℓ} where
  unfoldable pub new : LinkedQueue A
  new = record { head = null }

  -- The loop of `enqueue`, at a node: follow `next` to the last node and hang the new one there.
  append_at_last : A → Link A → A → Link A
  append_at_last x null a = node x (node a null)
  append_at_last x (node y next) a = node x (append_at_last y next a)

  enqueue_link : Link A → A → Link A
  unfolding append_at_last
  enqueue_link null a = node a null
  enqueue_link (node x next) a = append_at_last x next a

  unfoldable pub enqueue : LinkedQueue A → A → LinkedQueue A
  unfolding enqueue_link
  enqueue q a = record { head = enqueue_link q.head a }

  dequeue_link : Link A → Option A × LinkedQueue A
  dequeue_link null = (none, record { head = null })
  dequeue_link (node x next) = (some x, record { head = next })

  unfoldable pub dequeue : LinkedQueue A → Option A × LinkedQueue A
  unfolding dequeue_link
  dequeue q = dequeue_link q.head

  -- The loop of `remove`: `current` is the link that is looked at.
  remove_link : (A → Bool) → Link A → Bool × Link A
  remove_link f null = (false, null)
  remove_link f (node x next) =
      let rest = remove_link f next in if f x then (true, next) else (rest.0, node x rest.1)

  unfoldable pub remove : (A → Bool) → LinkedQueue A → Bool × LinkedQueue A
  unfolding remove_link
  remove f q = let (found, head) = remove_link f q.head in (found, record { head = head })

  -- `Display`: the items between brackets, with `sep` between two.
  display_link {κ} : {B : Type κ} → (A → List B) → List B → Link A → List B
  display_link show sep null = []
  display_link show sep (node x null) = show x
  display_link show sep (node x (node y next)) =
      show x ++ (sep ++ display_link show sep (node y next))

  pub display {κ} : {B : Type κ} → (A → List B) → List B → List B → List B → LinkedQueue A → List B
  unfolding display_link
  display show open_ sep close q = open_ ++ (display_link show sep q.head ++ close)
