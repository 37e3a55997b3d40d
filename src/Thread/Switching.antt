-- ===== src/Thread/Switching.antt =====
-- kernel/src/thread/thread.rs: what a switch saves and what it goes on with.
-- The hypotheses of `IsApart` are those on the memory: the stack of the current thread has room, and
-- neither the context of the next thread nor the words that the switch writes lie on one another.
-- `Quiet` says of the compiled `unlock_scheduler` that it keeps the stack pointer and the words of
-- `Kept`, which depend on the stack pointer at its call: below it lie its return address and its frame.
use heine_os.Prelude.{ℕ, ◌+◌, ◌-◌, ◌*◌, ◌≤◌, ◌<◌, ◌≡◌, ◌≢◌, refl, sym, subst, ◌∙◌, [], ◌∷◌, arith}
use heine_os.Machine.{Memory, write, Cpu, Reg, rax, set_reg, rdi, rsi, rdx, run}
use heine_os.Machine.Contexts.{
  Stacked, read-write_self, read-write_ne, Stacked-agrees, pushes, Stacked-pushes, pushes-rsp,
  pushes-memory, Loaded, saved_registers, loaded_registers, context,
}
use heine_os.Thread.{thread_switch}

module _ (tss back : ℕ) (unlock : Cpu → Cpu) (Kept : ℕ → ℕ → Type 0) where
  abbrev pub Quiet : Type 0
  Quiet =
      (s : Cpu)
      → ((unlock s).rsp ≡ s.rsp) × ((a : ℕ) → Kept s.rsp a → (unlock s).memory a ≡ s.memory a)

  pub record IsApart (s : Cpu) : Type 0 where
    pub room : 136 ≤ s.rsp
    pub saved_kept : (i : ℕ) → i < 17 → Kept (s.regs rsi) (s.rsp - 128 + i * 8)
    pub next_kept : (i : ℕ) → i < 17 → Kept (s.regs rsi) (s.regs rsi + i * 8)
    pub slot_kept : Kept (s.regs rsi) (s.regs rdi)
    pub rsp0_kept : Kept (s.regs rsi) (tss + 4)
    -- The slot of the stack pointer and the field of the task state segment lie apart from the
    -- contexts, the stack, and each other.
    pub slot_aside : (i : ℕ) → i < 18 → s.regs rdi ≢ s.rsp - 136 + i * 8
    pub rsp0_aside : (i : ℕ) → i < 18 → tss + 4 ≢ s.rsp - 136 + i * 8
    pub slot_rsp0 : tss + 4 ≢ s.regs rdi
    pub next_slot : (i : ℕ) → i < 17 → s.regs rdi ≢ s.regs rsi + i * 8
    pub next_rsp0 : (i : ℕ) → i < 17 → tss + 4 ≢ s.regs rsi + i * 8
    pub next_aside : (i j : ℕ) → i < 17 → j < 17 → s.rsp - 136 + j * 8 ≢ s.regs rsi + i * 8

  -- The next thread's registers are in place and its stack is as before its context was saved; the
  -- context of the current thread is on its stack, and the slot says where; and the task state
  -- segment has the end of the next kernel stack.
  pub record Switched (s : Cpu) (regs : Reg → ℕ) (address : ℕ) (t : Cpu) : Type 0 where
    pub loaded : Loaded t.regs loaded_registers (context regs address)
    pub stack_is : t.rsp ≡ s.regs rsi + 136
    pub slot_is : t.memory (s.regs rdi) ≡ s.rsp - 128
    pub saves : Stacked t.memory (s.rsp - 128) (context s.regs (s.memory s.rsp))
    pub rsp0_is : t.memory (tss + 4) ≡ s.regs rdx

  module _ (quiet : Quiet) (s : Cpu) (h : IsApart s) where
    abbrev full : Cpu
    full = pushes saved_registers s

    full_rsp : full.rsp ≡ s.rsp - 128
    full_rsp = pushes-rsp saved_registers s

    -- The memory with the stack pointer, with the return address of `tss_set_rsp0`, and before
    -- `unlock_scheduler`.
    abbrev slotted : Memory
    slotted = write full.memory (s.regs rdi) full.rsp

    abbrev calling : Memory
    calling = write slotted (full.rsp - 8) back

    abbrev before : Memory
    before = write calling (tss + 4) (s.regs rdx)

    -- A word that the switch does not write.
    untouched : (a : ℕ) → s.regs rdi ≢ a → full.rsp - 8 ≢ a → tss + 4 ≢ a → before a ≡ full.memory a
    untouched a n m k =
        read-write_ne calling (s.regs rdx) k
        ∙ read-write_ne slotted back m
        ∙ read-write_ne full.memory full.rsp n

    saved_before : Stacked before (s.rsp - 128) (context s.regs (s.memory s.rsp))
    saved_before =
        Stacked-agrees full.memory before (s.rsp - 128) (context s.regs (s.memory s.rsp))
          (λ i l.
            untouched (s.rsp - 128 + i * 8)
              (λ e. h.slot_aside (i + 1) (omega arith) (omega (arith, h.room)))
              (λ e. absurd (omega (arith, full_rsp, h.room)))
              (λ e. h.rsp0_aside (i + 1) (omega arith) (omega (arith, h.room))))
          (Stacked-pushes saved_registers s (s.memory s.rsp ∷ []) (omega (arith, h.room))
            (refl, tt))

    next_before : (i : ℕ) → i < 17 → before (s.regs rsi + i * 8) ≡ s.memory (s.regs rsi + i * 8)
    next_before i l =
        untouched (s.regs rsi + i * 8) (h.next_slot i l)
          (λ e. h.next_aside i 0 l (omega arith) (omega (arith, full_rsp, h.room)))
          (h.next_rsp0 i l)
        ∙ pushes-memory saved_registers s (s.regs rsi + i * 8) (omega (arith, h.room))
            (λ j k e. h.next_aside i (16 - j) l (omega arith) (omega (arith, h.room)))

    slot_before : before (s.regs rdi) ≡ s.rsp - 128
    slot_before =
        read-write_ne calling (s.regs rdx) h.slot_rsp0
        ∙ read-write_ne slotted back below_slot
        ∙ read-write_self full.memory (s.regs rdi) full.rsp
        ∙ full_rsp
      where
        below_slot : full.rsp - 8 ≢ s.regs rdi
        below_slot e = h.slot_aside 0 (omega arith) (omega (arith, full_rsp, e))

    -- The state in which `unlock_scheduler` is called, and what it returns to.
    module _ (regs : Reg → ℕ) (address : ℕ)
        (next : Stacked s.memory (s.regs rsi) (context regs address)) where
      pub thread_switch-Switched : Switched s regs address (run tss back unlock thread_switch s)
      unfolding run thread_switch
      thread_switch-Switched =
          let called : Cpu = record {
            regs = set_reg (set_reg s.regs rdi (s.regs rdx)) rax tss;
            rsp = s.regs rsi;
            memory = before;
          } in
          let later = unlock called in
          let kept : (a : ℕ) → Kept (s.regs rsi) a → later.memory a ≡ before a = (quiet called).1 in
          let there : Stacked later.memory later.rsp (context regs address) =
            subst (λ (a : ℕ). Stacked later.memory a (context regs address)) (sym (quiet called).0)
              (Stacked-agrees s.memory later.memory (s.regs rsi) (context regs address)
                (λ i l. kept _ (h.next_kept i l) ∙ next_before i l) next) in
          record {
            loaded = there;
            stack_is = omega (arith, (quiet called).0);
            slot_is = kept _ h.slot_kept ∙ slot_before;
            saves =
                Stacked-agrees before later.memory (s.rsp - 128) (context s.regs (s.memory s.rsp))
                  (λ i l. kept _ (h.saved_kept i l)) saved_before;
            rsp0_is = kept _ h.rsp0_kept ∙ read-write_self calling (tss + 4) (s.regs rdx);
          }

  -- After the switch `t` from some later state to the context that the switch `s` saved, all
  -- registers that `s` saved are as they were, and the thread goes on behind its call of
  -- `thread_switch`.
  pub record Restored (s t : Cpu) : Type 0 where
    pub registers : Loaded t.regs loaded_registers (context s.regs (s.memory s.rsp))
    pub stack_is : t.rsp ≡ s.rsp + 8

  -- A thread that is switched away from, and back to by the stack pointer that was saved, while
  -- nobody writes to its saved context, finds all registers and the flags as they were, and returns
  -- to its caller with the stack pointer of an ordinary return, if the contexts lie apart and
  -- `unlock_scheduler` keeps them.
  pub switch_round_trip :
      Quiet
      → (s t : Cpu) (regs : Reg → ℕ) (address : ℕ) → IsApart s
      → Stacked s.memory (s.regs rsi) (context regs address)
      → IsApart t
      → t.regs rsi ≡ (run tss back unlock thread_switch s).memory (s.regs rdi)
      → ((i : ℕ)
          → i < 17
          → t.memory (s.rsp - 128 + i * 8)
            ≡ (run tss back unlock thread_switch s).memory (s.rsp - 128 + i * 8))
      → Restored s (run tss back unlock thread_switch t)
  switch_round_trip quiet s t regs address hs next ht pointer same =
      let a = thread_switch-Switched quiet s hs regs address next in
      let there : t.regs rsi ≡ s.rsp - 128 = pointer ∙ a.slot_is in
      let b = thread_switch-Switched quiet t ht s.regs (s.memory s.rsp) (
        subst (λ (n : ℕ). Stacked t.memory n (context s.regs (s.memory s.rsp))) (sym there)
          (Stacked-agrees (run tss back unlock thread_switch s).memory t.memory (s.rsp - 128)
            (context s.regs (s.memory s.rsp)) same a.saves)) in
      record { registers = b.loaded; stack_is = omega (arith, b.stack_is, there, hs.room) }
