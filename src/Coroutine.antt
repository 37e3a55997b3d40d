-- ===== src/Coroutine.antt =====
-- kernel/src/coroutine/coroutine.rs: coroutines that switch to one another.
-- A coroutine's stack is where it starts and how many words it has; the addresses that the allocator
-- gives, and that of the function `kickoff`, are parameters.
pub mod Chain
mod Tests
use heine_os.Prelude.{ℕ, ◌+◌, ◌-◌, ◌*◌, ◌/◌, ◌%◌, ◌^◌, List, [], ◌∷◌}
use heine_os.Machine.{
  Memory, Cpu, Instruction, push, pop, mov_rsp, save_rsp, ret, r8, r9, r10, r11, r12, r13, r14, r15,
  rax, rbx, rcx, rdx, rsi, rdi, rbp, rflags, run, set_reg,
}
use heine_os.Thread.{
  Stack, stack_size, word_address, set_words_down, zeroed, Call, enables_interrupts, runs_entry,
}

unfoldable pub coroutine_start : List Instruction
coroutine_start =
    mov_rsp rdi
    ∷ pop rflags
    ∷ pop rbp
    ∷ pop rdi
    ∷ pop rsi
    ∷ pop rdx
    ∷ pop rcx
    ∷ pop rbx
    ∷ pop rax
    ∷ pop r15
    ∷ pop r14
    ∷ pop r13
    ∷ pop r12
    ∷ pop r11
    ∷ pop r10
    ∷ pop r9
    ∷ pop r8
    ∷ ret
    ∷ []

unfoldable pub coroutine_switch : List Instruction
coroutine_switch =
    push r8
    ∷ push r9
    ∷ push r10
    ∷ push r11
    ∷ push r12
    ∷ push r13
    ∷ push r14
    ∷ push r15
    ∷ push rax
    ∷ push rbx
    ∷ push rcx
    ∷ push rdx
    ∷ push rsi
    ∷ push rdi
    ∷ push rbp
    ∷ push rflags
    ∷ save_rsp rdi
    ∷ mov_rsp rsi
    ∷ pop rflags
    ∷ pop rbp
    ∷ pop rdi
    ∷ pop rsi
    ∷ pop rdx
    ∷ pop rcx
    ∷ pop rbx
    ∷ pop rax
    ∷ pop r15
    ∷ pop r14
    ∷ pop r13
    ∷ pop r12
    ∷ pop r11
    ∷ pop r10
    ∷ pop r9
    ∷ pop r8
    ∷ ret
    ∷ []

-- `next` is the address of the next coroutine.
pub record Coroutine : Type 0 where
  pub id : ℕ
  pub stack : Stack
  pub stack_ptr : ℕ
  pub entry : ℕ
  pub next : ℕ

abbrev pub set_next : ℕ → Coroutine → Coroutine
set_next next c = record c { next = next }

module _ (kickoff self : ℕ) where
  unfoldable pub prepare_stack : Coroutine → Memory → Coroutine × Memory
  prepare_stack c m = (
    record c { stack_ptr = c.stack_ptr - 8 * 16 },
    set_words_down c.stack 1
        (kickoff ∷ 0 ∷ 0 ∷ 0 ∷ 0 ∷ 0 ∷ 0 ∷ 0 ∷ 0 ∷ 0 ∷ 0 ∷ 0 ∷ 0 ∷ 0 ∷ self ∷ 0 ∷ 2 ∷ []) m,
  )

  -- `Coroutine::new`, with the counter of its `next_id` and the start of the new stack.
  unfoldable pub new_coroutine : ℕ → ℕ → ℕ → Memory → Coroutine × ℕ × Memory
  new_coroutine entry counter base m =
      let stack : Stack = record { base = base; words = stack_size / 8 } in
      let new : Coroutine = record {
        id = counter;
        stack = stack;
        stack_ptr = word_address stack (stack_size / 8 - 1);
        entry = entry;
        next = 0;
      } in
      let (c, n) = prepare_stack new (zeroed stack (stack_size / 8) m) in
      (c, (counter + 1) % 2 ^ 64, n)

module _ (tss back : ℕ) (unlock : Cpu → Cpu) where
  -- `start` and `switch`, with their calls' arguments in the registers. `slot` is the address of
  -- the field `stack_ptr` of the current coroutine.
  unfoldable pub start_coroutine : Coroutine → Cpu → Cpu
  start_coroutine c s =
      run tss back unlock coroutine_start (record s { regs = set_reg s.regs rdi c.stack_ptr })

  unfoldable pub switch_coroutine : ℕ → Coroutine → Cpu → Cpu
  switch_coroutine slot next s =
      run tss back unlock coroutine_switch
        (record s { regs = set_reg (set_reg s.regs rdi slot) rsi next.stack_ptr })

-- What `kickoff` does before it panics.
unfoldable pub kickoff_calls : Coroutine → List Call
kickoff_calls c = enables_interrupts ∷ runs_entry c.entry ∷ []
