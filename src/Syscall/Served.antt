-- ===== src/Syscall/Served.antt =====
-- kernel/src/syscall/dispatcher.rs: a system call reaches its function and comes back.
use heine_os.Prelude.{
  ℕ, ◌+◌, ◌-◌, ◌*◌, ◌%◌, ◌≤◌, ◌<◌, ◌≡◌, ◌≢◌, refl, sym, ap, subst, ◌∙◌, Option, none, some, List,
  [], ◌∷◌, get_elem?, true, if◌then◌else◌, leb, Outcome, done, panics, arith,
}
use heine_os.Machine.{
  Reg, number, Cpu, r8, r9, r10, r11, r12, r13, r14, r15, rax, rbx, rcx, rdx, rsi, rdi, rbp, rflags,
  rip, cs, ss, run, pushed,
}
use heine_os.Machine.Contexts.{
  Stacked, Stacked-agrees, Stacked-pushed, Stacked-pushes, pushes, pushes-rsp, onto,
}
use heine_os.Syscall.{
  SyscallFunction, syscall_number, hello_world, thread_yield, thread_wait, thread_exit,
  thread_get_id, get_system_time, print, get_key_event, num_syscalls, SystemFunction,
  sys_hello_world, sys_thread_yield, sys_thread_wait, sys_thread_exit, sys_thread_get_id,
  sys_get_system_time, sys_print, sys_get_key_event, syscall_table, restores, execute, interrupted,
  dispatch_syscall, int_80, serve,
}

-- The function that is meant by each entry of the enum; the last entry only counts the others.
abbrev pub meant : SyscallFunction → Option SystemFunction
meant hello_world = some sys_hello_world
meant thread_yield = some sys_thread_yield
meant thread_wait = some sys_thread_wait
meant thread_exit = some sys_thread_exit
meant thread_get_id = some sys_thread_get_id
meant get_system_time = some sys_get_system_time
meant print = some sys_print
meant get_key_event = some sys_get_key_event
meant num_syscalls = none

-- The test of the number and the look into the table.
table_has :
    (f : SyscallFunction) (g : SystemFunction) (go : Option SystemFunction → Outcome Cpu)
    → meant f ≡ some g
    → (if leb 8 (syscall_number f) then panics else go (get_elem? syscall_table (syscall_number f)))
      ≡ go (some g)
table_has hello_world g go e = ap go e
table_has thread_yield g go e = ap go e
table_has thread_wait g go e = ap go e
table_has thread_exit g go e = ap go e
table_has thread_get_id g go e = ap go e
table_has get_system_time g go e = ap go e
table_has print g go e = ap go e
table_has get_key_event g go e = ap go e
table_has num_syscalls g go e = cc

le→leb : (a b : ℕ) → a ≤ b → leb a b ≡ true
le→leb a b h = ground arith

abbrev saved_list : List Reg
saved_list = r8 ∷ r9 ∷ r10 ∷ r11 ∷ r12 ∷ r13 ∷ r14 ∷ r15 ∷ rbx ∷ rcx ∷ rdx ∷ rsi ∷ rdi ∷ rbp ∷ []

module _ (top : ℕ) (s : Cpu) where
  -- The state in which the function is called.
  abbrev pub entered : Cpu
  entered = pushes saved_list (interrupted top s)

  abbrev frame : List ℕ
  frame = s.regs rip ∷ s.regs cs ∷ s.regs rflags ∷ s.rsp ∷ s.regs ss ∷ []

  entered_rsp : 152 ≤ top → entered.rsp ≡ top - 152
  entered_rsp h = omega (arith, pushes-rsp saved_list (interrupted top s))

  frame-Stacked : 152 ≤ top → Stacked (interrupted top s).memory (interrupted top s).rsp frame
  frame-Stacked h =
      let s0 : Cpu = record s { rsp = top } in
      let s1 = pushed (s.regs ss) s0 in
      let s2 = pushed s.rsp s1 in
      let s3 = pushed (s.regs rflags) s2 in
      let s4 = pushed (s.regs cs) s3 in
      Stacked-pushed s4 (s.regs rip) (s.regs cs ∷ s.regs rflags ∷ s.rsp ∷ s.regs ss ∷ [])
        (omega arith)
        (Stacked-pushed s3 (s.regs cs) (s.regs rflags ∷ s.rsp ∷ s.regs ss ∷ []) (omega arith) (
          Stacked-pushed s2 (s.regs rflags) (s.rsp ∷ s.regs ss ∷ []) (omega arith) (
            Stacked-pushed s1 s.rsp (s.regs ss ∷ []) (omega arith)
              (Stacked-pushed s0 (s.regs ss) [] (omega arith) tt))))

  entered-Stacked : 152 ≤ top → Stacked entered.memory entered.rsp (onto s.regs saved_list frame)
  entered-Stacked h =
      subst (λ (a : ℕ). Stacked entered.memory a (onto s.regs saved_list frame))
        (sym (pushes-rsp saved_list (interrupted top s)))
        (Stacked-pushes saved_list (interrupted top s) frame (omega arith) (frame-Stacked h))

  -- What the pops and `iretq` bring back.
  restored_regs :
      (t : Cpu)
      → Stacked t.memory t.rsp (onto s.regs saved_list frame)
      → (q : Reg) → number q ≢ number rax
      → (execute restores t).regs q ≡ s.regs q
  unfolding run
  restored_regs t w r8 n = w.1.1.1.1.1.1.1.1.1.1.1.1.1.0
  restored_regs t w r9 n = w.1.1.1.1.1.1.1.1.1.1.1.1.0
  restored_regs t w r10 n = w.1.1.1.1.1.1.1.1.1.1.1.0
  restored_regs t w r11 n = w.1.1.1.1.1.1.1.1.1.1.0
  restored_regs t w r12 n = w.1.1.1.1.1.1.1.1.1.0
  restored_regs t w r13 n = w.1.1.1.1.1.1.1.1.0
  restored_regs t w r14 n = w.1.1.1.1.1.1.1.0
  restored_regs t w r15 n = w.1.1.1.1.1.1.0
  restored_regs t w rax n = absurd (n refl)
  restored_regs t w rbx n = w.1.1.1.1.1.0
  restored_regs t w rcx n = w.1.1.1.1.0
  restored_regs t w rdx n = w.1.1.1.0
  restored_regs t w rsi n = w.1.1.0
  restored_regs t w rdi n = w.1.0
  restored_regs t w rbp n = w.0
  restored_regs t w rflags n = ap t.memory (omega arith) ∙ w.1.1.1.1.1.1.1.1.1.1.1.1.1.1.1.1.0
  restored_regs t w rip n = w.1.1.1.1.1.1.1.1.1.1.1.1.1.1.0
  restored_regs t w cs n = w.1.1.1.1.1.1.1.1.1.1.1.1.1.1.1.0
  restored_regs t w ss n = ap t.memory (omega arith) ∙ w.1.1.1.1.1.1.1.1.1.1.1.1.1.1.1.1.1.1.0

  restored_rsp :
      (t : Cpu)
      → Stacked t.memory t.rsp (onto s.regs saved_list frame)
      → (execute restores t).rsp ≡ s.rsp
  unfolding run
  restored_rsp t w = ap t.memory (omega arith) ∙ w.1.1.1.1.1.1.1.1.1.1.1.1.1.1.1.1.1.0

  module _ (call : SystemFunction → Cpu → Cpu) where
    -- A compiled function keeps the stack pointer and the words above it.
    pub record KeepsStack (f : SystemFunction) : Type 0 where
      pub rsp_kept : (call f entered).rsp ≡ entered.rsp
      pub words_kept :
          (i : ℕ)
          → i < 19
          → (call f entered).memory (entered.rsp + i * 8) ≡ entered.memory (entered.rsp + i * 8)

    -- The call came back: the function has run, on the caller's registers, and the caller goes on
    -- with its result in `rax`, all other registers and its stack pointer as they were.
    pub record Served (f : SystemFunction) (r : Outcome Cpu) : Type 0 where
      pub after : Cpu
      pub result : r ≡ done after
      pub value : after.regs rax ≡ (call f entered).regs rax
      pub registers : (q : Reg) → number q ≢ number rax → after.regs q ≡ s.regs q
      pub stack_is : after.rsp ≡ s.rsp

    served :
        (f : SystemFunction) → 152 ≤ top → KeepsStack f → Served f (serve call (some f) entered)
    unfolding run
    served f h kept =
        let t = call f entered in
        let w : Stacked t.memory t.rsp (onto s.regs saved_list frame) =
          subst (λ (a : ℕ). Stacked t.memory a (onto s.regs saved_list frame)) (sym kept.rsp_kept)
            (Stacked-agrees entered.memory t.memory entered.rsp (onto s.regs saved_list frame)
              kept.words_kept (entered-Stacked h)) in
        let after : Cpu = execute restores t in
        record {
          after = after;
          result = refl;
          value = refl;
          registers = restored_regs t w;
          stack_is = restored_rsp t w;
        }

-- int 0x80 with the number of a system call in rax, on a kernel stack with room for 19 words, calls
-- the function that is meant by that number, in a state that has the caller's registers, and comes
-- back with its result in rax and with all other registers, the flags and the stack pointer as they
-- were, if the function keeps the stack pointer and the words above it.
pub int_80-Served :
    (call : SystemFunction → Cpu → Cpu) (top : ℕ) (s : Cpu) (f : SyscallFunction)
    (g : SystemFunction)
    → 152 ≤ top
    → meant f ≡ some g
    → s.regs rax ≡ syscall_number f
    → KeepsStack top s call g
    → Served top s call g (int_80 call top s)
unfolding int_80 dispatch_syscall run
int_80-Served call top s f g h e number_is kept =
    subst (Served top s call g) (sym accepted) (served top s call g h kept)
  where
    accepted : int_80 call top s ≡ serve call (some g) (entered top s)
    accepted =
        ap
          (λ (n : ℕ).
            if leb 8 n then panics else serve call (get_elem? syscall_table n) (entered top s))
          number_is
        ∙ table_has f g (λ o. serve call o (entered top s)) e

-- With any other number in rax the kernel panics: none but those of the table is accepted.
pub int_80_other_number :
    (call : SystemFunction → Cpu → Cpu) (top : ℕ) (s : Cpu)
    → 8 ≤ s.regs rax
    → int_80 call top s ≡ panics
unfolding int_80 dispatch_syscall run
int_80_other_number call top s h =
    ap
      (λ b. if b then panics else serve call (get_elem? syscall_table (s.regs rax)) (entered top s))
      (le→leb 8 (s.regs rax) h)

-- At the call the stack pointer is 8 above a multiple of 16, where the convention of the compiled
-- functions wants a multiple of 16.
pub entered_misaligned :
    (top : ℕ) (s : Cpu) → 152 ≤ top → top % 16 ≡ 0 → (entered top s).rsp % 16 ≡ 8
entered_misaligned top s h a = omega (arith, entered_rsp top s h)
