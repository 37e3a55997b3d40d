-- ===== src/Thread/Tests.antt =====
-- A switch from a thread with its stack at 10000 to one with its context at 30000, and back.
use heine_os.Prelude.{
  ℕ, zero, suc, replicate, ◌+◌, ◌-◌, ◌*◌, ◌<◌, ◌≡◌, ◌≢◌, ◌∙◌, refl, sym, false, if◌then◌else◌, ◌==◌,
  arith,
}
use heine_os.Machine.{Memory, write, Cpu, Reg, number, run}
use heine_os.Machine.Contexts.{Stacked, context, read-write_ne}
use heine_os.Thread.{
  Thread, get_top_of_stack, thread_switch, prepare_kernel_stack, start, switch_to_usermode,
}
use heine_os.Thread.Switching.{
  Quiet, IsApart, Switched, Restored, thread_switch-Switched, switch_round_trip,
}
use heine_os.Thread.Starting.{Starts, prepared_thread-Starts}
use heine_os.Thread.Usermode.{InUsermode, switch_to_usermode-InUsermode}

-- A function that is called: its return address lies below the stack pointer, and it clears the flag
-- of the lock, at 50000.
abbrev clears : Cpu → Cpu
clears s = record s { memory = write (write s.memory (s.rsp - 8) 99) 50000 0 }

abbrev Aside : ℕ → ℕ → Type 0
Aside rsp a = (rsp - 8 ≢ a) × (50000 ≢ a)

clears-Quiet : Quiet 40000 7 clears Aside
clears-Quiet s = (
  refl,
  λ a (n, m). read-write_ne (write s.memory (s.rsp - 8) 99) 0 m ∙ read-write_ne s.memory 99 n,
)

-- `rdi` and `rsi` at a call of `thread_switch`; the other registers hold 9.
abbrev called_with : ℕ → ℕ → Reg → ℕ
called_with slot next r = if number r == 7 then slot else if number r == 6 then next else 9

abbrev first : Cpu
first = record { regs = called_with 20000 30000; rsp = 10000; memory = λ _. 3 }

first-IsApart : IsApart 40000 7 clears Aside first
first-IsApart = record {
  room = omega arith;
  saved_kept = λ i l. (λ e. omega arith, λ e. omega arith);
  next_kept = λ i l. (λ e. omega arith, λ e. omega arith);
  slot_kept = (λ e. omega arith, λ e. omega arith);
  rsp0_kept = (λ e. omega arith, λ e. omega arith);
  slot_aside = λ i l e. omega arith;
  rsp0_aside = λ i l e. omega arith;
  slot_rsp0 = λ e. omega arith;
  next_slot = λ i l e. omega arith;
  next_rsp0 = λ i l e. omega arith;
  next_aside = λ i j l k e. omega arith;
}

filled : (n a : ℕ) (m : Memory) → ((b : ℕ) → m b ≡ 3) → Stacked m a (replicate n 3)
filled zero a m h = tt
filled (suc n) a m h = (h a, filled n (a + 8) m h)

threes : (m : Memory) (a : ℕ) → ((b : ℕ) → m b ≡ 3) → Stacked m a (context (λ _. 3) 3)
threes m a h = filled 17 a m h

second : Cpu
second = record {
  regs = called_with 20008 9872;
  rsp = 60000;
  memory = (run 40000 7 clears thread_switch first).memory;
}

second-IsApart : IsApart 40000 7 clears Aside second
unfolding second
second-IsApart = record {
  room = omega arith;
  saved_kept = λ i l. (λ e. omega arith, λ e. omega arith);
  next_kept = λ i l. (λ e. omega arith, λ e. omega arith);
  slot_kept = (λ e. omega arith, λ e. omega arith);
  rsp0_kept = (λ e. omega arith, λ e. omega arith);
  slot_aside = λ i l e. omega arith;
  rsp0_aside = λ i l e. omega arith;
  slot_rsp0 = λ e. omega arith;
  next_slot = λ i l e. omega arith;
  next_rsp0 = λ i l e. omega arith;
  next_aside = λ i j l k e. omega arith;
}

pointer : second.regs Reg.rsi ≡ (run 40000 7 clears thread_switch first).memory 20000
unfolding second
pointer =
    sym
      (thread_switch-Switched 40000 7 clears Aside clears-Quiet first first-IsApart (λ _. 3) 3
        (threes (λ _. 3) 30000 (λ b. refl))).slot_is

same :
    (i : ℕ)
    → i < 17
    → second.memory (10000 - 128 + i * 8)
      ≡ (run 40000 7 clears thread_switch first).memory (10000 - 128 + i * 8)
unfolding second
same i l = refl

switch_round_trip_example :
    Restored 40000 7 clears Aside first (run 40000 7 clears thread_switch second)
switch_round_trip_example =
    switch_round_trip 40000 7 clears Aside clears-Quiet first second (λ _. 3) 3 first-IsApart
      (threes (λ _. 3) 30000 (λ b. refl)) second-IsApart pointer same

thread_switch-Switched_example :
    Switched 40000 7 clears Aside first (λ _. 3) 3 (run 40000 7 clears thread_switch first)
thread_switch-Switched_example =
    thread_switch-Switched 40000 7 clears Aside clears-Quiet first first-IsApart (λ _. 3) 3
      (threes (λ _. 3) 30000 (λ b. refl))

abbrev fresh : Thread
fresh = record {
  id = 1;
  is_kernel_thread = false;
  kernel_stack = record { base = 1000; words = 200 };
  user_stack = record { base = 4000; words = 100 };
  stack_ptr = 1000 + 199 * 8;
  entry = 77;
}

abbrev prepared : Thread × Memory
prepared = prepare_kernel_stack 55 66 fresh (λ _. 0)

idle_cpu : Cpu
idle_cpu = record { regs = λ _. 9; rsp = 500; memory = prepared.1 }

idle_memory : (a : ℕ) → idle_cpu.memory a ≡ prepared.1 a
unfolding idle_cpu
idle_memory a = refl

idle-Aside : (i : ℕ) → i < 17 → Aside (fresh.stack_ptr - 128) (prepared.0.stack_ptr + i * 8)
unfolding prepare_kernel_stack
idle-Aside i l = (λ e. omega arith, λ e. omega arith)

prepared_thread-Starts_example :
    Starts 55 66 fresh
      (λ _. 0)
      (omega arith)
      40000
      7
      clears
      Aside
      (start 40000 7 clears prepared.0 idle_cpu)
prepared_thread-Starts_example =
    prepared_thread-Starts 55 66 fresh (λ _. 0) (omega arith) 40000 7 clears Aside refl clears-Quiet
      idle_cpu idle-Aside (λ i l. idle_memory _)

switch_to_usermode-InUsermode_example :
    InUsermode 88 66 fresh (switch_to_usermode 40000 7 clears 88 66 fresh first)
unfolding switch_to_usermode get_top_of_stack
switch_to_usermode-InUsermode_example =
    switch_to_usermode-InUsermode 40000 7 clears 88 66 fresh first (omega arith) (omega arith)
      (omega arith)
