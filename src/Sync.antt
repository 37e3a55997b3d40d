-- ===== src/Sync.antt =====
-- kernel/src/library/spinlock.rs and once.rs: what several threads, interrupted anywhere, do with a
-- lock or a value that is initialised once. Each step is one atomic access, or one read or write of
-- the data. Sync/Exclusion and Sync/Single follow the threads.
pub mod Spin
pub mod Exclusion
pub mod Single
mod Tests
use heine_os.Prelude.{ℕ, Bool, true, false, Option, none, some, if◌then◌else◌, ◌==◌}

-- The value that a thread has in a table of threads, and a table with one of them changed.
abbrev pub update {ℓ} : {A : Type ℓ} → (ℕ → A) → ℕ → A → ℕ → A
update table i a j = if i == j then a else table j

-- `Spinlock<T>`: the atomic flag and the data.
pub record Spinlock (T : Type 0) : Type 0 where
  pub lock : Bool
  pub data_ : T

module _ {T : Type 0} where
  -- `Spinlock::new`.
  abbrev pub new_spinlock : T → Spinlock T
  new_spinlock data_ = record { lock = false; data_ = data_ }

  -- `lock.swap(true)`: what the flag was.
  abbrev pub swap : Spinlock T → Bool × Spinlock T
  swap s = (s.lock, record s { lock = true })

  -- `try_lock`: whether there is a guard.
  unfoldable pub try_lock : Spinlock T → Bool × Spinlock T
  try_lock s = let (held, later) = swap s in (if held then false else true, later)

  unfoldable pub unlock : Spinlock T → Spinlock T
  unlock s = record s { lock = false }

  abbrev pub is_locked : Spinlock T → Bool
  is_locked s = s.lock

  -- `force_unlock` unlocks whoever holds the lock.
  unfoldable pub force_unlock : Spinlock T → Spinlock T
  force_unlock s = unlock s

  -- The guard's `deref`, and a write through `deref_mut`.
  abbrev pub deref : Spinlock T → T
  deref s = s.data_

  abbrev pub deref_mut : Spinlock T → T → Spinlock T
  deref_mut s data_ = record s { data_ = data_ }

-- `Once<T>`: the flag, and the value or uninitialised memory.
pub record Once (T : Type 0) : Type 0 where
  pub initialized : Bool
  pub value : Option T

module _ {T : Type 0} where
  abbrev pub new_once : Once T
  new_once = record { initialized = false; value = none }

  -- `initialized.swap(true)`: what the flag was.
  unfoldable pub claim : Once T → Bool × Once T
  claim o = (o.initialized, record o { initialized = true })

  -- `value.get().write(...)`.
  unfoldable pub write_value : Once T → T → Once T
  write_value o v = record o { value = some v }

  -- `get`: whether there is a reference, and what memory it then refers to.
  unfoldable pub get : Once T → Option (Option T)
  get o = if o.initialized then some o.value else none

  -- The last line of `init`: the memory that its reference refers to.
  unfoldable pub value_ref : Once T → Option T
  value_ref o = o.value
