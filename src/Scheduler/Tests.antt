-- ===== src/Scheduler/Tests.antt =====
-- Runs of kernel/src/thread/scheduler.rs: three threads, thread 0 the idle one.
use heine_os.Prelude.{ℕ, ◌≡◌, refl, true, false, some, [], ◌∷◌, done, panics, spins, arith}
use heine_os.Queue.{null, node, new, enqueue, dequeue, remove}
use heine_os.Queue.Fifo.{to_list}
use heine_os.Scheduler.{
  Thread, Scheduler, returned, started, switched, new_scheduler, schedule, ready, yield_to,
  yield_cpu, exit, kill, get_active_tid,
}
use heine_os.Scheduler.Rotation.{View, Shows, rotate, handed, Comes, yield_cpu-Comes}
use heine_os.Scheduler.Ownership.{Accounts, step-Accounts}
use heine_os.Scheduler.Calls.{schedules, yields, exits, readies, kills, step}
use heine_os.Scheduler.Liveness.{here, next, Lives, never_stuck}

abbrev thread : ℕ → Thread
thread n = record { id = n; is_kernel_thread = true }

abbrev running : Scheduler
running = record {
  locked = false;
  state = record {
    active_thread = some (thread 0);
    ready_queue = record { head = node (thread 1) (node (thread 2) null) };
    terminated_threads = record { head = null };
    initialized = true;
  };
}

abbrev shown : View
shown = record { active = thread 0; waiting = thread 1 ∷ thread 2 ∷ []; ended = [] }

running-Shows : Shows running shown
unfolding to_list
running-Shows = record {
  free = refl;
  started_ = refl;
  active_is = refl;
  waiting_are = refl;
  ended_are = refl;
}

first_turn : get_active_tid running ≡ done 0
unfolding get_active_tid
first_turn = refl

alone_cannot_exit : exit (new_scheduler (thread 0)) ≡ panics
unfolding exit new_scheduler dequeue new
alone_cannot_exit = refl

held_lock_spins : exit (record running { locked = true }) ≡ spins
unfolding exit
held_lock_spins = refl

yield_cpu-Comes_example :
    Comes (yield_cpu false running) (handed shown shown.waiting) (rotate shown)
yield_cpu-Comes_example = yield_cpu-Comes running-Shows

step-Accounts_example :
    Accounts running.state
      (kills 2)
      (record running.state { ready_queue = record { head = node (thread 1) null } })
unfolding step kill remove
step-Accounts_example = step-Accounts running (kills 2) {control = returned} refl

-- The idle thread 0 is started, makes thread 1 ready and yields to it; thread 1 then exits.
abbrev turned : Scheduler
turned = record {
  locked = false;
  state = record {
    active_thread = some (thread 1);
    ready_queue = record { head = node (thread 0) null };
    terminated_threads = record { head = null };
    initialized = true;
  };
}

never_stuck_example : Lives 0 (step turned exits)
unfolding step schedule ready yield_cpu yield_to new_scheduler enqueue dequeue new
never_stuck_example =
    never_stuck (thread 0) {s = turned} exits
      (next (yields false) (switched (thread 0) (thread 1))
        (next (readies (thread 1)) returned (next schedules (started (thread 0)) here tt refl) tt
          refl)
        tt refl)
      (λ t e. ground (arith, e))
