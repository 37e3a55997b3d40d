-- ===== src/Timer.antt =====
-- kernel/src/device/pit.rs, over Ports, Framebuffer and Scheduler: the timer and the system time.
pub mod Preemption
pub mod Programming
mod Tests
use Prim.Native.Nat.{bit_and}
use heine_os.Prelude.{
  ℕ, zero, suc, ◌+◌, ◌-◌, ◌*◌, ◌/◌, ◌%◌, ◌^◌, Bool, true, false, Option, List, [], ◌∷◌, get_or,
  if◌then◌else◌, ltb, ◌==◌, Outcome, done, spins, ◌>>=◌,
}
use heine_os.Ports.{Device, Io, pure, out, lift, ◌>>◌}
use heine_os.Pic.{allow}
use heine_os.Interrupts.{register}
use heine_os.Framebuffer.{Framebuffer, Memory, color, black, draw_char}
use heine_os.Scheduler.{Scheduler, Control, returned, yield_cpu}

abbrev pub control : ℕ
control = 67

abbrev pub data_port : ℕ
data_port = 64

abbrev pub timer_frequency : ℕ
timer_frequency = 1193182

abbrev pub nanoseconds_per_tick : ℕ
nanoseconds_per_tick = 1000000000 / timer_frequency

abbrev pub timer_interrupt_interval_ms : ℕ
timer_interrupt_interval_ms = 1

abbrev pub spinner_chars : List ℕ
spinner_chars = 124 ∷ 47 ∷ 45 ∷ 92 ∷ []

-- The number of ticks between two interrupts, as it is written to the timer.
unfoldable pub counter_for : ℕ → ℕ
counter_for interval_ms =
    let counter64 = interval_ms * 1000000 % 2 ^ 64 / nanoseconds_per_tick in
    if counter64 == 0 then 1 else (if ltb 65535 counter64 then 65535 else counter64)

unfoldable pub set_interrupt_interval : ℕ → Io (Unit {0})
set_interrupt_interval interval_ms =
    let counter = counter_for interval_ms in
    if interval_ms == 0
    then pure tt
    else out control 54 >> out data_port (bit_and counter 255) >> out data_port (counter / 2 ^ 8)

-- `plugin`, with the handler of the timer: its vector is 32.
module _ (dev : Device) {Isr : Type 0} where
  unfoldable pub plugin : Isr → List (Option Isr) → Io (List (Option Isr))
  plugin isr map =
      set_interrupt_interval timer_interrupt_interval_ms
      >> allow dev 0
      >> lift (register map 32 isr)

-- What the handler works on: the system time, the screen behind its lock, whether the lock of the
-- interrupt vectors is held, and the scheduler.
pub record Kernel : Type 0 where
  pub system_time : ℕ
  pub screen_locked : Bool
  pub screen : Memory
  pub vectors_locked : Bool
  pub scheduler : Scheduler

abbrev pub spinner_char : ℕ → ℕ
spinner_char time = get_or spinner_chars (time / 250 % 4) 0

module _ (fb : Framebuffer) (font : List ℕ) where
  unfoldable pub show_spinner : ℕ → Kernel → Outcome Kernel
  show_spinner time k =
      if time % 250 == 0
      then (if k.screen_locked
          then done k
          else draw_char fb font (spinner_char time) 768 16 (color 170 170 170) black k.screen
            >>= λ screen. done (record k { screen = screen }))
      else done k

  unfoldable pub switch_threads : Bool → ℕ → Kernel → Outcome (Control × Kernel)
  switch_threads is_allocator_locked time k =
      if time % 10 == 0
      then (yield_cpu is_allocator_locked k.scheduler >>= λ (way, scheduler).
          done (way, record k { vectors_locked = false; scheduler = scheduler }))
      else done (returned, k)

  -- `TimerISR::trigger`; the flag is `is_allocator_locked()`.
  unfoldable pub trigger : ℕ → Bool → Kernel → Outcome (Control × Kernel)
  trigger interval_ms is_allocator_locked k =
      let time = k.system_time in
      show_spinner time (record k { system_time = (time + interval_ms) % 2 ^ 64 })
      >>= switch_threads is_allocator_locked time

-- `wait`: `clock n` is the system time at its reading `n`, and between two readings the other threads
-- run. The result is the number of calls of `yield_cpu`, for so many rounds at most.
module _ (clock : ℕ → ℕ) where
  unfoldable pub wait_from : ℕ → ℕ → ℕ → ℕ → Outcome ℕ
  wait_from zero reading start_time ms = spins
  wait_from (suc rounds) reading start_time ms =
      let later = wait_from rounds (reading + 1) start_time ms in
      if ltb ((clock reading + 2 ^ 64 - start_time) % 2 ^ 64) ms then later else done (reading - 1)

  unfoldable pub wait : ℕ → ℕ → Outcome ℕ
  wait rounds ms = wait_from rounds 1 (clock 0) ms
