-- ===== src/Syscall/Tests.antt =====
-- A system call whose function returns its argument plus one.
use heine_os.Prelude.{ℕ, ◌+◌, ◌≡◌, refl, if◌then◌else◌, ◌==◌, panics, done, Outcome, arith}
use heine_os.Machine.{Cpu, number, rax, rdi, set_reg, run}
use heine_os.Syscall.{
  SystemFunction, sys_thread_wait, thread_wait, num_syscalls, int_80, syscall0, syscall1, syscall2,
  print, dispatch_syscall,
}
use heine_os.Syscall.Served.{Served, KeepsStack, int_80-Served, int_80_other_number}

abbrev counts_on : SystemFunction → Cpu → Cpu
counts_on f s = record s { regs = set_reg s.regs rax (s.regs rdi + 1) }

-- The caller, with the number 2 and an argument in place.
abbrev caller : Cpu
caller = record {
  regs = λ r. if number r == 0 then 2 else (if number r == 7 then 10 else 1);
  rsp = 5000;
  memory = λ a. 0;
}

caller-KeepsStack : KeepsStack 1600 caller counts_on sys_thread_wait
caller-KeepsStack = record { rsp_kept = refl; words_kept = λ i l. refl }

int_80-Served_example : Served 1600 caller counts_on sys_thread_wait (int_80 counts_on 1600 caller)
int_80-Served_example =
    int_80-Served counts_on 1600 caller thread_wait sys_thread_wait (omega arith) refl refl
      caller-KeepsStack

abbrev strange : Cpu
strange = record caller { regs = λ r. 255 }

int_80_other_number_example : int_80 counts_on 1600 strange ≡ panics
int_80_other_number_example = int_80_other_number counts_on 1600 strange (omega arith)

abbrev returned_value : Outcome Cpu → ℕ
returned_value (done s) = s.regs rax
returned_value panics = 0
returned_value Outcome.spins = 0

value_of_wait : returned_value (syscall1 counts_on 1600 thread_wait 10 caller) ≡ 11
unfolding syscall1 int_80 dispatch_syscall run
value_of_wait = refl

value_of_print : returned_value (syscall2 counts_on 1600 print 20 3 caller) ≡ 21
unfolding syscall2 int_80 dispatch_syscall run
value_of_print = refl

count_is_no_call : syscall0 counts_on 1600 num_syscalls caller ≡ panics
unfolding syscall0 int_80 dispatch_syscall run
count_is_no_call = refl
