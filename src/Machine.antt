-- ===== src/Machine.antt =====
-- The assembly of kernel/src/thread/thread.rs, kernel/src/coroutine/coroutine.rs and `tss_set_rsp0`
-- of kernel/src/boot.asm: instructions on registers and a memory of 64-bit words.
-- A word has the address of its first byte; the words that the code uses do not overlap. The
-- compiled function `unlock_scheduler` is the parameter `unlock`, from its call to its return; what a `call` leaves at the top of
-- the stack is `back`, and `tss` is the address of the task state segment.
pub mod Contexts
use heine_os.Prelude.{ℕ, ◌+◌, ◌-◌, ◌%◌, ◌^◌, Bool, List, [], ◌∷◌, if◌then◌else◌, ◌==◌}

pub data Reg : Type 0 where
  r8 : Reg
  r9 : Reg
  r10 : Reg
  r11 : Reg
  r12 : Reg
  r13 : Reg
  r14 : Reg
  r15 : Reg
  rax : Reg
  rbx : Reg
  rcx : Reg
  rdx : Reg
  rsi : Reg
  rdi : Reg
  rbp : Reg
  rflags : Reg
  rip : Reg
  cs : Reg
  ss : Reg

abbrev pub number : Reg → ℕ
number r8 = 8
number r9 = 9
number r10 = 10
number r11 = 11
number r12 = 12
number r13 = 13
number r14 = 14
number r15 = 15
number rax = 0
number rbx = 3
number rcx = 1
number rdx = 2
number rsi = 6
number rdi = 7
number rbp = 5
number rflags = 16
number rip = 17
number cs = 18
number ss = 19

abbrev pub Memory : Type 0
Memory = ℕ → ℕ

abbrev pub write : Memory → ℕ → ℕ → Memory
write m a v b = if a == b then v else m b

pub record Cpu : Type 0 where
  pub regs : Reg → ℕ
  pub rsp : ℕ
  pub memory : Memory

abbrev pub set_reg : (Reg → ℕ) → Reg → ℕ → Reg → ℕ
set_reg regs r v q = if number r == number q then v else regs q

pub data Instruction : Type 0 where
  push : Reg → Instruction
  pop : Reg → Instruction
  -- `mov dst, src`, `mov rsp, src` and `mov [dst], rsp`.
  mov : Reg → Reg → Instruction
  mov_rsp : Reg → Instruction
  save_rsp : Reg → Instruction
  call_tss_set_rsp0 : Instruction
  call_unlock_scheduler : Instruction
  ret : Instruction
  iretq : Instruction

abbrev pub pushed : ℕ → Cpu → Cpu
pushed v s = record s { rsp = s.rsp - 8; memory = write s.memory (s.rsp - 8) v }

abbrev pub popped : Reg → Cpu → Cpu
popped r s = record s { regs = set_reg s.regs r (s.memory s.rsp); rsp = s.rsp + 8 }

module _ (tss back : ℕ) (unlock : Cpu → Cpu) where
  -- `tss_set_rsp0`: `mov rax, tss`, `mov qword [rax+4], rdi`, `ret`.
  abbrev pub tss_set_rsp0 : Cpu → Cpu
  tss_set_rsp0 s = record {
    regs = set_reg s.regs rax tss;
    rsp = s.rsp + 8;
    memory = write s.memory (tss + 4) (s.regs rdi);
  }

  abbrev pub step : Instruction → Cpu → Cpu
  step (push r) s = pushed (s.regs r) s
  step (pop r) s = popped r s
  step (mov r q) s = record s { regs = set_reg s.regs r (s.regs q) }
  step (mov_rsp r) s = record s { rsp = s.regs r }
  step (save_rsp r) s = record s { memory = write s.memory (s.regs r) s.rsp }
  step call_tss_set_rsp0 s = tss_set_rsp0 (pushed back s)
  step call_unlock_scheduler s = unlock s
  step ret s = popped rip s
  step iretq s = record s {
    regs =
        set_reg
          (set_reg (set_reg (set_reg s.regs rip (s.memory s.rsp)) cs (s.memory (s.rsp + 8))) rflags
            (s.memory (s.rsp + 16)))
          ss (s.memory (s.rsp + 32));
    rsp = s.memory (s.rsp + 24);
  }

  unfoldable pub run : List Instruction → Cpu → Cpu
  run [] s = s
  run (i ∷ is) s = run is (step i s)
