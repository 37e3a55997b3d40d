-- ===== src/Timer/Tests.antt =====
-- A timer over a screen too small for the spinner, and three threads.
use heine_os.Prelude.{
  ℕ, ◌+◌, ◌*◌, ◌≡◌, refl, true, false, some, [], ◌∷◌, replicate, length-replicate, done, suc, min,
  arith,
}
use heine_os.Queue.{null, node}
use heine_os.Queue.Fifo.{to_list}
use heine_os.Framebuffer.{Framebuffer}
use heine_os.Scheduler.{Thread, Scheduler}
use heine_os.Scheduler.Rotation.{View, Shows}
use heine_os.Timer.{Kernel, counter_for, set_interrupt_interval, wait}
use heine_os.Timer.Preemption.{ticks, preempted}
use heine_os.Timer.Programming.{Programmed, set_interrupt_interval-Programmed, Waits, wait-Waits}

abbrev thread : ℕ → Thread
thread n = record { id = n; is_kernel_thread = true }

abbrev running : Scheduler
running = record {
  locked = false;
  state = record {
    active_thread = some (thread 0);
    ready_queue = record { head = node (thread 1) (node (thread 2) null) };
    terminated_threads = record { head = null };
    initialized = true;
  };
}

abbrev shown : View
shown = record { active = thread 0; waiting = thread 1 ∷ thread 2 ∷ []; ended = [] }

running-Shows : Shows running shown
unfolding to_list
running-Shows = record {
  free = refl;
  started_ = refl;
  active_is = refl;
  waiting_are = refl;
  ended_are = refl;
}

abbrev kernel : Kernel
kernel = record {
  system_time = 7;
  screen_locked = false;
  screen = λ o. 0;
  vectors_locked = true;
  scheduler = running;
}

abbrev screen : Framebuffer
screen = record { width = 2; height = 2; pitch = 8; address = 0 }

preempted_example :
    (after : Kernel) × (ticks screen (replicate 2048 0) (10 * suc 1) kernel ≡ done after)
    × (after.scheduler.state.active_thread ≡ some (thread 2))
preempted_example =
    preempted screen (replicate 2048 0) kernel shown (thread 1 ∷ []) (thread 2) [] (omega arith)
      (length-replicate {A = ℕ} 2048 0) running-Shows refl (omega arith)

set_interrupt_interval-Programmed_example : Programmed 1 [] (set_interrupt_interval 1 [])
set_interrupt_interval-Programmed_example =
    set_interrupt_interval-Programmed 1 [] (omega arith) (omega arith)

each_millisecond : counter_for 1 ≡ 1193
unfolding counter_for
each_millisecond = refl

nothing_for_zero : set_interrupt_interval 0 [] ≡ done (tt, [])
unfolding set_interrupt_interval
nothing_for_zero = refl

wait-Waits_example : Waits (λ n. 5 + min (n * 3) 15) 10 (wait (λ n. 5 + min (n * 3) 15) 20 10)
wait-Waits_example =
    wait-Waits (λ n. 5 + min (n * 3) 15) 20 10 3 (λ i. omega arith) (λ i. omega arith) (omega arith)
      (omega arith)
