-- ===== src/Coroutine/Chain.antt =====
-- kernel/src/coroutine/coroutine.rs: what a switch saves and what it goes on with.
-- The hypotheses of `IsApart` are those on the memory: the stack of the current coroutine has room,
-- and the slot of its stack pointer, its context and that of the next one lie apart.
use heine_os.Prelude.{ℕ, ◌+◌, ◌-◌, ◌*◌, ◌≤◌, ◌<◌, ◌≡◌, ◌≢◌, refl, sym, subst, ◌∙◌, [], ◌∷◌, arith}
use heine_os.Machine.{Memory, write, Cpu, Reg, rdi, rsi, run}
use heine_os.Machine.Contexts.{
  Stacked, read-write_self, Stacked-agrees, read-write_ne, pushes, Stacked-pushes, pushes-rsp,
  pushes-memory, Loaded, saved_registers, loaded_registers, context,
}
use heine_os.Coroutine.{coroutine_switch}

pub record IsApart (s : Cpu) : Type 0 where
  pub room : 128 ≤ s.rsp
  pub slot_aside : (i : ℕ) → i < 17 → s.regs rdi ≢ s.rsp - 128 + i * 8
  pub next_slot : (i : ℕ) → i < 17 → s.regs rdi ≢ s.regs rsi + i * 8
  pub next_aside : (i j : ℕ) → i < 17 → j < 16 → s.rsp - 128 + j * 8 ≢ s.regs rsi + i * 8

-- The next coroutine's registers are in place and its stack is as before its context was saved; the
-- context of the current one is on its stack, and the slot says where.
pub record Switched (s : Cpu) (regs : Reg → ℕ) (address : ℕ) (t : Cpu) : Type 0 where
  pub loaded : Loaded t.regs loaded_registers (context regs address)
  pub stack_is : t.rsp ≡ s.regs rsi + 136
  pub slot_is : t.memory (s.regs rdi) ≡ s.rsp - 128
  pub saves : Stacked t.memory (s.rsp - 128) (context s.regs (s.memory s.rsp))

module _ (tss back : ℕ) (unlock : Cpu → Cpu) where
  module _ (s : Cpu) (h : IsApart s) where
    abbrev full : Cpu
    full = pushes saved_registers s

    full_rsp : full.rsp ≡ s.rsp - 128
    full_rsp = pushes-rsp saved_registers s

    abbrev slotted : Memory
    slotted = write full.memory (s.regs rdi) full.rsp

    pub coroutine_switch-Switched :
        (regs : Reg → ℕ) (address : ℕ)
        → Stacked s.memory (s.regs rsi) (context regs address)
        → Switched s regs address (run tss back unlock coroutine_switch s)
    unfolding run coroutine_switch
    coroutine_switch-Switched regs address next = record {
      loaded =
          Stacked-agrees s.memory slotted (s.regs rsi) (context regs address)
            (λ i l.
              read-write_ne full.memory full.rsp (h.next_slot i l)
              ∙ pushes-memory saved_registers s (s.regs rsi + i * 8) (omega (arith, h.room))
                  (λ j k e. h.next_aside i (15 - j) l (omega arith) (omega (arith, h.room))))
            next;
      stack_is = omega arith;
      slot_is = read-write_self full.memory (s.regs rdi) full.rsp ∙ full_rsp;
      saves =
          Stacked-agrees full.memory slotted (s.rsp - 128) (context s.regs (s.memory s.rsp))
            (λ i l. read-write_ne full.memory full.rsp (h.slot_aside i l))
            (Stacked-pushes saved_registers s (s.memory s.rsp ∷ []) (omega (arith, h.room))
              (refl, tt));
    }

  pub record Restored (s t : Cpu) : Type 0 where
    pub registers : Loaded t.regs loaded_registers (context s.regs (s.memory s.rsp))
    pub stack_is : t.rsp ≡ s.rsp + 8

  -- A coroutine that switches to the next one, and is switched back to by the stack pointer that was
  -- saved, while nobody writes to its saved context, finds all registers and the flags as they were,
  -- and returns to its caller with the stack pointer of an ordinary return.
  pub coroutine_round_trip :
      (s t : Cpu) (regs : Reg → ℕ) (address : ℕ)
      → IsApart s
      → Stacked s.memory (s.regs rsi) (context regs address)
      → IsApart t
      → t.regs rsi ≡ (run tss back unlock coroutine_switch s).memory (s.regs rdi)
      → ((i : ℕ)
          → i < 17
          → t.memory (s.rsp - 128 + i * 8)
            ≡ (run tss back unlock coroutine_switch s).memory (s.rsp - 128 + i * 8))
      → Restored s (run tss back unlock coroutine_switch t)
  coroutine_round_trip s t regs address hs next ht pointer same =
      let a = coroutine_switch-Switched s hs regs address next in
      let there : t.regs rsi ≡ s.rsp - 128 = pointer ∙ a.slot_is in
      let b = coroutine_switch-Switched t ht s.regs (s.memory s.rsp) (
        subst (λ (n : ℕ). Stacked t.memory n (context s.regs (s.memory s.rsp))) (sym there)
          (Stacked-agrees (run tss back unlock coroutine_switch s).memory t.memory (s.rsp - 128)
            (context s.regs (s.memory s.rsp)) same a.saves)) in
      record { registers = b.loaded; stack_is = omega (arith, b.stack_is, there, hs.room) }
