-- ===== src/Syscall/Functions.antt =====
-- kernel/src/syscall/functions and user_api.rs: what the system calls do, on both sides.
-- `from_utf8` of the standard library, with the characters of its text, is a parameter.
use heine_os.Prelude.{
  ℕ, ◌≡◌, refl, ap, Bool, Option, none, some, List, if◌then◌else◌, ◌==◌, Outcome, done, panics,
  spins, ◌>>=◌,
}
use heine_os.Scheduler.{Scheduler, Result, yield_cpu, exit, get_active_tid}
use heine_os.Timer.{wait}
use heine_os.Key.{KeyEvent, new_key_event}
use heine_os.Key.Waiting.{Bounded, pop_key_event, answered, sys_get_key_event}
use heine_os.Terminal.{Terminal, write_str}

-- The thread's id, which is logged.
abbrev pub sys_hello_world : Scheduler → Outcome ℕ
sys_hello_world s = get_active_tid s

-- The flag is `is_allocator_locked()`.
abbrev pub sys_thread_yield : Bool → Scheduler → Result
sys_thread_yield is_allocator_locked s = yield_cpu is_allocator_locked s

abbrev pub sys_thread_wait : (ℕ → ℕ) → ℕ → ℕ → Outcome ℕ
sys_thread_wait clock rounds ms = wait clock rounds ms

abbrev pub sys_thread_exit : Scheduler → Result
sys_thread_exit s = exit s

abbrev pub sys_thread_get_id : Scheduler → Outcome ℕ
sys_thread_get_id s = get_active_tid s

module _ (S : Bounded) where
  abbrev pub event_of : ℕ × KeyEvent × S.Queue → Option KeyEvent × S.Queue
  event_of (available, event, q) = (if available == 0 then none else some event, q)

  -- `usr_get_key_event`, over the call that its system call reaches.
  unfoldable pub usr_get_key_event : S.Queue → Outcome (Option KeyEvent × S.Queue)
  usr_get_key_event q = sys_get_key_event S new_key_event q >>= λ r. done (event_of r)

-- A text that is not UTF-8 is not printed.
module _ (from_utf8 : List ℕ → Option (List ℕ)) (font : List ℕ) where
  unfoldable pub sys_print : List ℕ → Terminal → Outcome Terminal
  sys_print bytes t = elim (from_utf8 bytes) [ none ↦ done t | some msg ↦ write_str font msg t ]

available :
    (S : Bounded) (r : Option KeyEvent × S.Queue) → event_of S (answered S new_key_event r) ≡ r
available S (none, q) = refl
available S (some key, q) = refl

-- The user's call gives the key that the kernel takes out of its queue, or none.
pub usr_get_key_event_lem : (S : Bounded) (q : S.Queue) → usr_get_key_event S q ≡ pop_key_event S q
unfolding usr_get_key_event sys_get_key_event
usr_get_key_event_lem S q = passed (pop_key_event S q)
  where
    passed :
        (o : Outcome (Option KeyEvent × S.Queue))
        → (o >>= (λ r. done (answered S new_key_event r)) >>= λ r. done (event_of S r)) ≡ o
    passed (done r) = ap done (available S r)
    passed panics = refl
    passed spins = refl
