-- ===== src/Thread.antt =====
-- kernel/src/thread/thread.rs: threads, their stacks, and the switch from one to another.
-- The addresses that the allocator gives for a stack and for the thread are parameters, as are those
-- of the two kickoff functions. A `Vec` of a stack is where it starts and how many words it has.
pub mod Switching
pub mod Starting
pub mod Usermode
mod Tests
use Prim.Native.Nat.{bit_and, bit_or}
use heine_os.Prelude.{
  ℕ, zero, suc, ◌+◌, ◌-◌, ◌*◌, ◌/◌, ◌%◌, ◌^◌, Bool, true, false, List, [], ◌∷◌, ◌++◌, if◌then◌else◌,
}
use heine_os.Machine.{
  Memory, write, Cpu, Reg, Instruction, push, pop, mov, mov_rsp, save_rsp, call_tss_set_rsp0,
  call_unlock_scheduler, ret, iretq, r8, r9, r10, r11, r12, r13, r14, r15, rax, rbx, rcx, rdx, rsi,
  rdi, rbp, rflags, run, set_reg,
}

unfoldable pub next_id : ℕ → ℕ × ℕ
next_id counter = (counter, (counter + 1) % 2 ^ 64)

unfoldable pub thread_start : List Instruction
thread_start =
    mov_rsp rdi
    ∷ call_unlock_scheduler
    ∷ pop rflags
    ∷ pop rbp
    ∷ pop rdi
    ∷ pop rsi
    ∷ pop rdx
    ∷ pop rcx
    ∷ pop rbx
    ∷ pop rax
    ∷ pop r15
    ∷ pop r14
    ∷ pop r13
    ∷ pop r12
    ∷ pop r11
    ∷ pop r10
    ∷ pop r9
    ∷ pop r8
    ∷ ret
    ∷ []

unfoldable pub thread_switch : List Instruction
thread_switch =
    push r8
    ∷ push r9
    ∷ push r10
    ∷ push r11
    ∷ push r12
    ∷ push r13
    ∷ push r14
    ∷ push r15
    ∷ push rax
    ∷ push rbx
    ∷ push rcx
    ∷ push rdx
    ∷ push rsi
    ∷ push rdi
    ∷ push rbp
    ∷ push rflags
    ∷ save_rsp rdi
    ∷ mov rdi rdx
    ∷ call_tss_set_rsp0
    ∷ mov_rsp rsi
    ∷ call_unlock_scheduler
    ∷ pop rflags
    ∷ pop rbp
    ∷ pop rdi
    ∷ pop rsi
    ∷ pop rdx
    ∷ pop rcx
    ∷ pop rbx
    ∷ pop rax
    ∷ pop r15
    ∷ pop r14
    ∷ pop r13
    ∷ pop r12
    ∷ pop r11
    ∷ pop r10
    ∷ pop r9
    ∷ pop r8
    ∷ ret
    ∷ []

unfoldable pub thread_user_start : List Instruction
thread_user_start = mov_rsp rdi ∷ pop rdi ∷ iretq ∷ []

pub record Stack : Type 0 where
  pub base : ℕ
  pub words : ℕ

pub record Thread : Type 0 where
  pub id : ℕ
  pub is_kernel_thread : Bool
  pub kernel_stack : Stack
  pub user_stack : Stack
  pub stack_ptr : ℕ
  pub entry : ℕ

abbrev pub stack_size : ℕ
stack_size = 512 * 1024

-- The address of a word of a stack, and a write to it.
abbrev pub word_address : Stack → ℕ → ℕ
word_address stack i = stack.base + i * 8

abbrev pub set_word : Stack → ℕ → ℕ → Memory → Memory
set_word stack i v m = write m (word_address stack i) v

unfoldable pub get_top_of_stack : Stack → ℕ
get_top_of_stack stack = word_address stack (stack.words - 1) + 8

-- `stack[length - k] = v` for the values of the list, from some `k` on.
abbrev pub set_words_down : Stack → ℕ → List ℕ → Memory → Memory
set_words_down stack k [] m = m
set_words_down stack k (v ∷ vs) m =
    set_words_down stack (k + 1) vs (set_word stack (stack.words - k) v m)

-- The zeros of a new stack.
abbrev pub zeroed : Stack → ℕ → Memory → Memory
zeroed stack zero m = m
zeroed stack (suc n) m = set_word stack n 0 (zeroed stack n m)

module _ (kickoff_kernel_thread self : ℕ) where
  unfoldable pub prepare_kernel_stack : Thread → Memory → Thread × Memory
  prepare_kernel_stack t m = (
    record t { stack_ptr = t.stack_ptr - 8 * 16 },
    set_words_down t.kernel_stack 1
        (kickoff_kernel_thread ∷ 0 ∷ 0 ∷ 0 ∷ 0 ∷ 0 ∷ 0 ∷ 0 ∷ 0 ∷ 0 ∷ 0 ∷ 0 ∷ 0 ∷ 0 ∷ self ∷ 0 ∷ 2
          ∷ [])
        m,
  )

  -- `new_kernel_thread`, with the counter of `next_id` and the start of the new stack.
  unfoldable pub new_kernel_thread : ℕ → ℕ → ℕ → Memory → Thread × ℕ × Memory
  new_kernel_thread entry counter base m =
      let (id, later) = next_id counter in
      let stack : Stack = record { base = base; words = stack_size / 8 } in
      let new : Thread = record {
        id = id;
        is_kernel_thread = true;
        kernel_stack = stack;
        user_stack = record { base = 0; words = 0 };
        stack_ptr = word_address stack (stack_size / 8 - 1);
        entry = entry;
      } in
      let (t, n) = prepare_kernel_stack new (zeroed stack (stack_size / 8) m) in (t, later, n)

  -- `new_user_thread`, with the starts of both stacks.
  unfoldable pub new_user_thread : ℕ → ℕ → ℕ → ℕ → Memory → Thread × ℕ × Memory
  new_user_thread entry counter base user_base m =
      let (t, later, n) = new_kernel_thread entry counter base m in
      let stack : Stack = record { base = user_base; words = stack_size / 8 } in
      (
        record t { is_kernel_thread = false; user_stack = stack },
        later,
        zeroed stack (stack_size / 8) n,
      )

-- `switch_to_usermode`, up to the jump; `self` is the thread's address.
unfoldable pub usermode_frame : ℕ → ℕ → Thread → Memory → ℕ × Memory
usermode_frame kickoff_user_thread self t m =
    let stack = t.kernel_stack in
    let offset = stack.words - 1024 / 8 in
    let top = bit_and (get_top_of_stack t.user_stack) (2 ^ 64 - 16) in
    let frame : Memory = set_word stack (offset - 5) self (
      set_word stack (offset - 4) kickoff_user_thread (
        set_word stack (offset - 3) (bit_or (3 * 2 ^ 3) 3) (
          set_word stack (offset - 2) (bit_or (bit_or 0 (2 ^ 9)) (2 ^ 1)) (
            set_word stack (offset - 1) (top - 8)
              (set_word stack offset (bit_or (4 * 2 ^ 3) 3) m))))) in
    (word_address stack (offset - 5), frame)

module _ (tss back : ℕ) (unlock : Cpu → Cpu) where
  -- `start` and `switch`, with their calls' arguments in the registers. `slot` is the address of
  -- the field `stack_ptr` of the current thread.
  unfoldable pub start : Thread → Cpu → Cpu
  start t s = run tss back unlock thread_start (record s { regs = set_reg s.regs rdi t.stack_ptr })

  unfoldable pub switch : ℕ → Thread → Cpu → Cpu
  switch slot next s = run tss back unlock thread_switch (record s {
    regs =
        set_reg (set_reg (set_reg s.regs rdi slot) rsi next.stack_ptr) rdx
          (get_top_of_stack next.kernel_stack);
  })

  unfoldable pub switch_to_usermode : ℕ → ℕ → Thread → Cpu → Cpu
  switch_to_usermode kickoff_user_thread self t s =
      let (stack_ptr, frame) = usermode_frame kickoff_user_thread self t s.memory in
      run tss back unlock thread_user_start
        (record s { memory = frame; regs = set_reg s.regs rdi stack_ptr })

-- What the kickoff functions do, one call after another.
pub data Call : Type 0 where
  sets_rsp0 : ℕ → Call
  enables_interrupts : Call
  runs_entry : ℕ → Call
  goes_to_usermode : Call
  exits : Call
  exits_by_system_call : Call

unfoldable pub kickoff_kernel_thread : Thread → List Call
kickoff_kernel_thread t =
    sets_rsp0 (get_top_of_stack t.kernel_stack)
      ∷ (if t.is_kernel_thread
          then enables_interrupts ∷ runs_entry t.entry ∷ []
          else goes_to_usermode ∷ [])
    ++ exits ∷ []

unfoldable pub kickoff_user_thread : Thread → List Call
kickoff_user_thread t = runs_entry t.entry ∷ exits_by_system_call ∷ []
