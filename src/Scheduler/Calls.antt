-- ===== src/Scheduler/Calls.antt =====
-- The calls that threads, interrupts and system calls make of kernel/src/thread/scheduler.rs.
use heine_os.Prelude.{ℕ, Bool}
use heine_os.Scheduler.{
  Thread, Scheduler, Result, schedule, yield_cpu, exit, ready, kill, cleanup_terminated_threads,
}

pub data Call : Type 0 where
  schedules : Call
  yields : (is_allocator_locked : Bool) → Call
  exits : Call
  readies : Thread → Call
  kills : ℕ → Call
  cleans : Call

unfoldable pub step : Scheduler → Call → Result
step s schedules = schedule s
step s (yields is_allocator_locked) = yield_cpu is_allocator_locked s
step s exits = exit s
step s (readies thread) = ready s thread
step s (kills id) = kill s id
step s cleans = cleanup_terminated_threads s
