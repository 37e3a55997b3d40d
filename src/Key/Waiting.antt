-- ===== src/Key/Waiting.antt =====
-- kernel/src/device/key.rs and kernel/src/library/input.rs: the queue of the keyboard.
-- The bounded queue of the crate nolock is the interface `Bounded`. While a thread polls, the
-- interrupt handler pushes keys: `coming` has, for each further attempt, those that come before it.
use heine_os.Prelude.{
  ℕ, zero, suc, ◌<◌, ◌≤◌, ◌≡◌, Bool, false, Option, none, some, List, [], ◌∷◌, ◌++◌, length,
  if◌then◌else◌, ◌==◌, Outcome, done, panics, spins, ◌>>=◌,
}
use heine_os.Key.{KeyEvent}

pub record Bounded : Type 1 where
  pub Queue : Type 0
  pub queue : ℕ → Queue
  pub is_closed : Queue → Bool
  pub try_enqueue : KeyEvent → Queue → Option Queue
  pub try_dequeue : Queue → Option (KeyEvent × Queue)

-- What the crate documents: a queue of at most so many items, first in first out; it is closed only
-- once one of its ends is gone, and a `KeyEventQueue` owns both.
pub record IsLawful (S : Bounded) : Type 0 where
  pub items : S.Queue → List KeyEvent
  pub capacity : S.Queue → ℕ
  pub never_closed : (q : S.Queue) → S.is_closed q ≡ false
  pub fresh : (n : ℕ) → (items (S.queue n) ≡ []) × (capacity (S.queue n) ≡ n)
  pub enqueues :
      (k : KeyEvent) (q : S.Queue)
      → length (items q) < capacity q
      → (later : S.Queue) × (S.try_enqueue k q ≡ some later)
        × (items later ≡ items q ++ (k ∷ []))
        × (capacity later ≡ capacity q)
  pub full : (k : KeyEvent) (q : S.Queue) → capacity q ≤ length (items q) → S.try_enqueue k q ≡ none
  pub empty : (q : S.Queue) → items q ≡ [] → S.try_dequeue q ≡ none
  pub dequeues :
      (q : S.Queue) (k : KeyEvent) (ks : List KeyEvent)
      → items q ≡ k ∷ ks
      → (later : S.Queue) × (S.try_dequeue q ≡ some (k, later))
        × (items later ≡ ks)
        × (capacity later ≡ capacity q)

module _ (S : Bounded) where
  -- `KeyEventQueue::new`.
  unfoldable pub new_queue : S.Queue
  new_queue = S.queue 128

  abbrev pub kept : S.Queue → Option S.Queue → S.Queue
  kept q none = q
  kept q (some later) = later

  -- A key for which there is no room is discarded.
  unfoldable pub push_key_event : KeyEvent → S.Queue → Outcome S.Queue
  push_key_event key q = if S.is_closed q then panics else done (kept q (S.try_enqueue key q))

  abbrev pub popped : S.Queue → Option (KeyEvent × S.Queue) → Option KeyEvent × S.Queue
  popped q none = (none, q)
  popped q (some (key, later)) = (some key, later)

  unfoldable pub pop_key_event : S.Queue → Outcome (Option KeyEvent × S.Queue)
  pop_key_event q = if S.is_closed q then panics else done (popped q (S.try_dequeue q))

  -- The queue, and the keys that are still to come.
  pub record Typing : Type 0 where
    pub queue_now : S.Queue
    pub coming : List (List KeyEvent)

  unfoldable pub push_all : List KeyEvent → S.Queue → Outcome S.Queue
  push_all [] q = done q
  push_all (key ∷ keys) q = push_key_event key q >>= push_all keys

  -- The loop of `poll_key_event`. Once nothing is to come it is taken never to end.
  unfoldable pub attempts : List (List KeyEvent) → S.Queue → Outcome (KeyEvent × Typing)
  attempts [] q = elim (S.try_dequeue q) [
    | none ↦ spins
    | some (key, later) ↦ done (key, record { queue_now = later; coming = [] })
  ]
  attempts (keys ∷ coming) q = push_all keys q >>= λ q. elim (S.try_dequeue q) [
    | none ↦ attempts coming q
    | some (key, later) ↦ done (key, record { queue_now = later; coming = coming })
  ]

  unfoldable pub poll_key_event : Typing → Outcome (KeyEvent × Typing)
  poll_key_event t = if S.is_closed t.queue_now then panics else attempts t.coming t.queue_now

  -- The loops around it, for so many rounds at most.
  unfoldable pub poll_key_press : ℕ → Typing → Outcome (KeyEvent × Typing)
  poll_key_press zero t = spins
  poll_key_press (suc rounds) t =
      let again : Typing → Outcome (KeyEvent × Typing) = poll_key_press rounds in
      poll_key_event t >>= λ (key, later). if key.pressed then done (key, later) else again later

  unfoldable pub poll_char : ℕ → Typing → Outcome (ℕ × Typing)
  poll_char zero t = spins
  poll_char (suc rounds) t =
      let again : Typing → Outcome (ℕ × Typing) = poll_char rounds in
      poll_key_press (suc rounds) t >>= λ (key, later). elim key.ascii [
        | some c ↦ done (c, later)
        | none ↦ again later
      ]

  unfoldable pub read_char : ℕ → Typing → Outcome (ℕ × Typing)
  read_char rounds t = poll_char rounds t

  unfoldable pub wait_for_return : ℕ → Typing → Outcome Typing
  wait_for_return zero t = spins
  wait_for_return (suc rounds) t =
      let again : Typing → Outcome Typing = wait_for_return rounds in
      read_char (suc rounds) t >>= λ (c, later). if c == 13 then done later else again later

  -- `sys_get_key_event` of kernel/src/syscall/functions/io.rs: the result, and what stands at the
  -- address that the caller gives.
  abbrev pub answered : KeyEvent → Option KeyEvent × S.Queue → ℕ × KeyEvent × S.Queue
  answered before (none, q) = (0, before, q)
  answered before (some key, q) = (1, key, q)

  unfoldable pub sys_get_key_event : KeyEvent → S.Queue → Outcome (ℕ × KeyEvent × S.Queue)
  sys_get_key_event event q = pop_key_event q >>= λ r. done (answered event r)
