-- ===== src/Machine/Contexts.antt =====
-- Words on a stack, from its pointer on.
use heine_os.Prelude.{
  ℕ, ◌+◌, ◌-◌, ◌*◌, ◌≤◌, ◌<◌, ◌≡◌, ◌≢◌, refl, ap, subst, ◌∙◌, List, [], ◌∷◌, if◌then◌else◌, ◌==◌,
  ==_iff, Bool_false, length, arith,
}
use heine_os.Machine.{
  Memory, write, Reg, r8, r9, r10, r11, r12, r13, r14, r15, rax, rbx, rcx, rdx, rsi, rdi, rbp,
  rflags, rip, Cpu, pushed,
}

abbrev pub Stacked : Memory → ℕ → List ℕ → Type 0
Stacked m a [] = Unit
Stacked m a (w ∷ ws) = (m a ≡ w) × Stacked m (a + 8) ws

pub read-write_self : (m : Memory) (a v : ℕ) → write m a v a ≡ v
read-write_self m a v = ap (λ b. if b then v else m a) ((==_iff a a).1 refl)

pub read-write_ne : (m : Memory) {a b : ℕ} (v : ℕ) → a ≢ b → write m a v b ≡ m b
read-write_ne m {a} {b} v n =
    ap (λ c. if c then v else m b) (Bool_false (a == b) (λ e. n ((==_iff a b).0 e)))

-- Memories that agree on the words hold the same words.
pub Stacked-agrees :
    (m n : Memory) (a : ℕ) (ws : List ℕ)
    → ((i : ℕ) → i < length ws → n (a + i * 8) ≡ m (a + i * 8))
    → Stacked m a ws
    → Stacked n a ws
Stacked-agrees m n a [] h s = tt
Stacked-agrees m n a (w ∷ ws) h (e, s) = (
  subst (λ (k : ℕ). n k ≡ m k) (omega arith) (h 0 (omega arith)) ∙ e,
  Stacked-agrees m n (a + 8) ws
      (λ i l. subst (λ (k : ℕ). n k ≡ m k) (omega arith) (h (i + 1) (omega arith))) s,
)

-- A write elsewhere.
pub Stacked-write :
    (m : Memory) (a b v : ℕ) (ws : List ℕ)
    → ((i : ℕ) → i < length ws → b ≢ a + i * 8)
    → Stacked m a ws
    → Stacked (write m b v) a ws
Stacked-write m a b v ws h = Stacked-agrees m (write m b v) a ws (λ i l. read-write_ne m v (h i l))

-- A word below the words.
pub Stacked-below :
    (m : Memory) (a v : ℕ) (ws : List ℕ) → Stacked m (a + 8) ws → Stacked (write m a v) a (v ∷ ws)
Stacked-below m a v ws w =
    (read-write_self m a v, Stacked-write m (a + 8) a v ws (λ i l e. absurd (omega arith)) w)

pub Stacked-pushed :
    (s : Cpu) (v : ℕ) (ws : List ℕ)
    → 8 ≤ s.rsp
    → Stacked s.memory s.rsp ws
    → Stacked (pushed v s).memory (pushed v s).rsp (v ∷ ws)
Stacked-pushed s v ws h w =
    Stacked-below s.memory (s.rsp - 8) v ws
      (subst (λ (a : ℕ). Stacked s.memory a ws) (omega arith) w)

-- Pushes of registers, in this order, and what is then on the stack.
abbrev pub pushes : List Reg → Cpu → Cpu
pushes [] s = s
pushes (r ∷ rs) s = pushes rs (pushed (s.regs r) s)

abbrev pub onto : (Reg → ℕ) → List Reg → List ℕ → List ℕ
onto regs [] ws = ws
onto regs (r ∷ rs) ws = onto regs rs (regs r ∷ ws)

pub Stacked-pushes :
    (rs : List Reg) (s : Cpu) (ws : List ℕ)
    → length rs * 8 ≤ s.rsp
    → Stacked s.memory s.rsp ws
    → Stacked (pushes rs s).memory (s.rsp - length rs * 8) (onto s.regs rs ws)
Stacked-pushes [] s ws h w = subst (λ (a : ℕ). Stacked s.memory a ws) (omega arith) w
Stacked-pushes (r ∷ rs) s ws h w =
    subst (λ (a : ℕ). Stacked (pushes (r ∷ rs) s).memory a (onto s.regs (r ∷ rs) ws)) (omega arith)
      (Stacked-pushes rs (pushed (s.regs r) s) (s.regs r ∷ ws) (omega arith)
        (Stacked-pushed s (s.regs r) ws (omega arith) w))

pub pushes-rsp : (rs : List Reg) (s : Cpu) → (pushes rs s).rsp ≡ s.rsp - length rs * 8
pushes-rsp [] s = omega arith
pushes-rsp (r ∷ rs) s = omega (arith, pushes-rsp rs (pushed (s.regs r) s))

pub pushes-memory :
    (rs : List Reg) (s : Cpu) (b : ℕ)
    → length rs * 8 ≤ s.rsp
    → ((i : ℕ) → i < length rs → s.rsp - (i + 1) * 8 ≢ b)
    → (pushes rs s).memory b ≡ s.memory b
pushes-memory [] s b h n = refl
pushes-memory (r ∷ rs) s b h n =
    pushes-memory rs (pushed (s.regs r) s) b (omega arith)
      (λ i l e. n (i + 1) (omega arith) (omega arith))
    ∙ read-write_ne s.memory (s.regs r) (λ e. n 0 (omega arith) (omega arith))

-- What registers hold.
abbrev pub Loaded : (Reg → ℕ) → List Reg → List ℕ → Type 0
Loaded regs [] ws = Unit
Loaded regs (r ∷ rs) [] = ⊥
Loaded regs (r ∷ rs) (w ∷ ws) = (regs r ≡ w) × Loaded regs rs ws

-- The registers that a switch saves, in the order of the pushes, and a context as it lies on the
-- stack: the registers and the return address.
abbrev pub saved_registers : List Reg
saved_registers =
    r8 ∷ r9 ∷ r10 ∷ r11 ∷ r12 ∷ r13 ∷ r14 ∷ r15 ∷ rax ∷ rbx ∷ rcx ∷ rdx ∷ rsi ∷ rdi ∷ rbp ∷ rflags
    ∷ []

abbrev pub loaded_registers : List Reg
loaded_registers =
    rflags ∷ rbp ∷ rdi ∷ rsi ∷ rdx ∷ rcx ∷ rbx ∷ rax ∷ r15 ∷ r14 ∷ r13 ∷ r12 ∷ r11 ∷ r10 ∷ r9 ∷ r8
    ∷ rip ∷ []

abbrev pub context : (Reg → ℕ) → ℕ → List ℕ
context regs address = onto regs saved_registers (address ∷ [])
