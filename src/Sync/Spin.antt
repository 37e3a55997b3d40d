-- ===== src/Sync/Spin.antt =====
-- kernel/src/library/spinlock.rs: threads that change the data under the lock.
-- A thread reads the data through its guard and writes what it made of it, in two steps; thread `i`
-- makes `work i v` of `v`. The steps of different threads come in any order.
use heine_os.Prelude.{ℕ, List, [], ◌∷◌, if◌then◌else◌, ◌≡◌}
use heine_os.Sync.{Spinlock, new_spinlock, try_lock, unlock, deref, deref_mut, update}

-- Where a thread is: outside, in the loop of `lock`, with a guard, or with a guard and the data that
-- it has read.
pub data Pc (T : Type 0) : Type 0 where
  outside : Pc T
  locking : Pc T
  guarded : Pc T
  has_read : T → Pc T

pub record System (T : Type 0) : Type 0 where
  pub shared : Spinlock T
  pub pc : ℕ → Pc T
  -- The threads that have written, the latest first.
  pub written : List ℕ

module _ {T : Type 0} (work : ℕ → T → T) where
  abbrev pub start : T → System T
  start v = record { shared = new_spinlock v; pc = λ _. outside; written = [] }

  -- The state after thread `i` did something to the lock and went to a place.
  abbrev pub goes : System T → ℕ → Spinlock T → Pc T → System T
  goes s i shared place = record s { shared = shared; pc = update s.pc i place }

  -- A round of the loop of `lock`, or one call of `try_lock`: where the thread goes from there.
  abbrev pub attempt : System T → ℕ → Pc T → System T
  attempt s i otherwise =
      let (guard, later) = try_lock s.shared in
      goes s i later (if guard then guarded else otherwise)

  pub data Step (s : System T) : System T → Type 0 where
    calls_lock : (i : ℕ) → s.pc i ≡ outside → Step s (goes s i s.shared locking)
    spins_once : (i : ℕ) → s.pc i ≡ locking → Step s (attempt s i locking)
    tries_lock : (i : ℕ) → s.pc i ≡ outside → Step s (attempt s i outside)
    reads : (i : ℕ) → s.pc i ≡ guarded → Step s (goes s i s.shared (has_read (deref s.shared)))
    writes :
        (i : ℕ) (v : T)
        → s.pc i ≡ has_read v
        → Step s
            (record (goes s i (deref_mut s.shared (work i v)) guarded) { written = i ∷ s.written })
    drops : (i : ℕ) → s.pc i ≡ guarded → Step s (goes s i (unlock s.shared) outside)

  pub data Reach (v : T) : System T → Type 0 where
    begin : Reach v (start v)
    next : {s t : System T} → Reach v s → Step s t → Reach v t

  -- The work of these threads, one after another.
  unfoldable pub replay : List ℕ → T → T
  replay [] v = v
  replay (i ∷ is) v = work i (replay is v)
