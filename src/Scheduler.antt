-- ===== src/Scheduler.antt =====
-- kernel/src/thread/scheduler.rs: the round-robin scheduler, with the spinlock round its state.
-- A method returns what it comes to and the scheduler that it leaves. One processor runs the kernel,
-- so `lock` on a lock that is held never returns. A switch ends in `unlock_scheduler`, which the
-- assembly of `thread_start` and `thread_switch` calls (kernel/src/thread/thread.rs).
pub mod Calls
pub mod Rotation
pub mod Ownership
pub mod Liveness
mod Tests
use heine_os.Prelude.{
  ℕ, Bool, true, false, Option, none, some, if◌then◌else◌, ◌==◌, Outcome, done, panics, spins,
  ◌>>=◌, ◌>>◌, unwrap,
}
use heine_os.Queue.{LinkedQueue, Link, null, node, new, enqueue, dequeue, remove}

-- What the scheduler uses of a `Thread`: who it is.
pub record Thread : Type 0 where
  pub id : ℕ
  pub is_kernel_thread : Bool

pub record SchedulerState : Type 0 where
  pub active_thread : Option Thread
  pub ready_queue : LinkedQueue Thread
  pub terminated_threads : LinkedQueue Thread
  pub initialized : Bool

-- `Spinlock<SchedulerState>`: the flag and the data that it guards.
pub record Scheduler : Type 0 where
  pub locked : Bool
  pub state : SchedulerState

-- How a call hands control on: to its caller, or to another thread.
pub data Control : Type 0 where
  returned : Control
  started : Thread → Control
  switched : Thread → Thread → Control

abbrev pub Result : Type 0
Result = Outcome (Control × Scheduler)

-- The lock taken: the guard's data, or no return.
abbrev lock : Scheduler → Outcome SchedulerState
lock s = if s.locked then spins else done s.state

-- The guard dropped, or `unlock_scheduler` called by the switch: the flag is cleared.
abbrev unlocked : SchedulerState → Scheduler
unlocked st = record { locked = false; state = st }

abbrev returns : SchedulerState → Result
returns st = done (returned, unlocked st)

-- `Scheduler::new`, with the idle thread that `new_kernel_thread(idle_thread)` makes.
unfoldable pub new_scheduler : Thread → Scheduler
new_scheduler idle = unlocked (record {
  active_thread = some idle;
  ready_queue = new;
  terminated_threads = new;
  initialized = false;
})

unfoldable pub get_active_tid : Scheduler → Outcome ℕ
get_active_tid s = do st ← lock s; active ← unwrap st.active_thread; done active.id

unfoldable pub schedule : Scheduler → Result
schedule s = do
  st ← lock s
  active ← unwrap st.active_thread
  done (started active, unlocked (record st { initialized = true }))

unfoldable pub ready : Scheduler → Thread → Result
ready s thread = do st ← lock s; returns (record st { ready_queue = enqueue st.ready_queue thread })

unfoldable pub exit : Scheduler → Result
exit s = do
  st ← lock s
  current ← unwrap st.active_thread
  let (front, rest) = dequeue st.ready_queue
  next ← unwrap front
  done (
    switched current next,
    unlocked (record st {
      active_thread = some next;
      ready_queue = rest;
      terminated_threads = enqueue st.terminated_threads current;
    }),
  )

-- The loop of `cleanup_terminated_threads`: each round dequeues a thread and drops it.
drop_all : Link Thread → LinkedQueue Thread
drop_all null = record { head = null }
drop_all (node thread next) = drop_all next

unfoldable pub cleanup_terminated_threads : Scheduler → Result
unfolding drop_all
cleanup_terminated_threads s =
    if s.locked
    then done (returned, s)
    else returns (record s.state { terminated_threads = drop_all s.state.terminated_threads.head })

-- The end of `yield_cpu`, once a thread was dequeued.
yield_to : SchedulerState → Option Thread → LinkedQueue Thread → Result
yield_to st none rest = returns (record st { ready_queue = rest })
yield_to st (some next) rest = do
  current ← unwrap st.active_thread
  done (
    switched current next,
    unlocked (record st { active_thread = some next; ready_queue = enqueue rest current }),
  )

-- The flag is `is_allocator_locked()`.
unfoldable pub yield_cpu : Bool → Scheduler → Result
unfolding yield_to
yield_cpu is_allocator_locked s =
    if s.locked
    then done (returned, s)
    else if s.state.initialized
    then if is_allocator_locked
      then returns s.state
      else (let (front, rest) = dequeue s.state.ready_queue in yield_to s.state front rest)
    else returns s.state

unfoldable pub kill : Scheduler → ℕ → Result
kill s to_kill_id = do
  st ← lock s
  let (found, rest) = remove (λ (thread : Thread). thread.id == to_kill_id) st.ready_queue
  returns (record st { ready_queue = rest })
