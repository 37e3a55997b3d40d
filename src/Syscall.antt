-- ===== src/Syscall.antt =====
-- kernel/src/syscall/dispatcher.rs and user_api.rs, over Machine: system calls by interrupt 0x80.
-- The compiled functions of the table are the parameter `call`. The processor pushes the frame of an
-- interrupt at `top`, the aligned end of the kernel stack; `rip` of the caller is the address behind
-- its `int` instruction.
pub mod Served
pub mod Functions
mod Tests
use heine_os.Prelude.{
  ℕ, ◌-◌, Option, none, some, List, [], ◌∷◌, get_elem?, if◌then◌else◌, leb, Outcome, done, panics,
}
use heine_os.Machine.{
  Cpu, Instruction, push, pop, iretq, r8, r9, r10, r11, r12, r13, r14, r15, rax, rbx, rcx, rdx, rsi,
  rdi, rbp, rflags, rip, cs, ss, set_reg, pushed, run,
}

pub data SyscallFunction : Type 0 where
  hello_world : SyscallFunction
  thread_yield : SyscallFunction
  thread_wait : SyscallFunction
  thread_exit : SyscallFunction
  thread_get_id : SyscallFunction
  get_system_time : SyscallFunction
  print : SyscallFunction
  get_key_event : SyscallFunction
  num_syscalls : SyscallFunction

abbrev pub syscall_number : SyscallFunction → ℕ
syscall_number hello_world = 0
syscall_number thread_yield = 1
syscall_number thread_wait = 2
syscall_number thread_exit = 3
syscall_number thread_get_id = 4
syscall_number get_system_time = 5
syscall_number print = 6
syscall_number get_key_event = 7
syscall_number num_syscalls = 8

-- The functions of kernel/src/syscall/functions.
pub data SystemFunction : Type 0 where
  sys_hello_world : SystemFunction
  sys_thread_yield : SystemFunction
  sys_thread_wait : SystemFunction
  sys_thread_exit : SystemFunction
  sys_thread_get_id : SystemFunction
  sys_get_system_time : SystemFunction
  sys_print : SystemFunction
  sys_get_key_event : SystemFunction

abbrev pub syscall_table : List SystemFunction
syscall_table =
    sys_hello_world ∷ sys_thread_yield ∷ sys_thread_wait ∷ sys_thread_exit ∷ sys_thread_get_id
    ∷ sys_get_system_time ∷ sys_print ∷ sys_get_key_event ∷ []

-- The instructions of `dispatch_syscall` before and behind the call.
abbrev pub saves : List Instruction
saves =
    push r8
    ∷ push r9
    ∷ push r10
    ∷ push r11
    ∷ push r12
    ∷ push r13
    ∷ push r14
    ∷ push r15
    ∷ push rbx
    ∷ push rcx
    ∷ push rdx
    ∷ push rsi
    ∷ push rdi
    ∷ push rbp
    ∷ []

abbrev pub restores : List Instruction
restores =
    pop rbp
    ∷ pop rdi
    ∷ pop rsi
    ∷ pop rdx
    ∷ pop rcx
    ∷ pop rbx
    ∷ pop r15
    ∷ pop r14
    ∷ pop r13
    ∷ pop r12
    ∷ pop r11
    ∷ pop r10
    ∷ pop r9
    ∷ pop r8
    ∷ iretq
    ∷ []

-- These instructions call nothing.
abbrev pub execute : List Instruction → Cpu → Cpu
execute = run 0 0 (λ s. s)

-- What the processor does for `int 0x80`.
abbrev pub interrupted : ℕ → Cpu → Cpu
interrupted top s = pushed (s.regs rip) (
    pushed (s.regs cs)
      (pushed (s.regs rflags) (pushed s.rsp (pushed (s.regs ss) (record s { rsp = top })))))

module _ (call : SystemFunction → Cpu → Cpu) where
  -- `call [SYSCALL_TABLE + rax * 8]` and what follows.
  abbrev pub serve : Option SystemFunction → Cpu → Outcome Cpu
  serve none s = panics
  serve (some f) s = done (execute restores (call f s))

  -- A number that is too large goes to `syscall_abort`, which panics.
  unfoldable pub dispatch_syscall : Cpu → Outcome Cpu
  dispatch_syscall s =
      let saved = execute saves s in
      if leb (syscall_number num_syscalls) (saved.regs rax)
      then panics
      else serve (get_elem? syscall_table (saved.regs rax)) saved

  module _ (top : ℕ) where
    unfoldable pub int_80 : Cpu → Outcome Cpu
    int_80 s = dispatch_syscall (interrupted top s)

    -- The caller reads the result in `rax`.
    unfoldable pub syscall0 : SyscallFunction → Cpu → Outcome Cpu
    syscall0 f s = int_80 (record s { regs = set_reg s.regs rax (syscall_number f) })

    unfoldable pub syscall1 : SyscallFunction → ℕ → Cpu → Outcome Cpu
    syscall1 f arg1 s =
        int_80 (record s { regs = set_reg (set_reg s.regs rax (syscall_number f)) rdi arg1 })

    unfoldable pub syscall2 : SyscallFunction → ℕ → ℕ → Cpu → Outcome Cpu
    syscall2 f arg1 arg2 s = int_80 (record s {
      regs = set_reg (set_reg (set_reg s.regs rax (syscall_number f)) rdi arg1) rsi arg2;
    })
