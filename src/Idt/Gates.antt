-- ===== src/Idt/Gates.antt =====
-- kernel/src/interrupt/idt.rs: which function each vector reaches.
use heine_os.Prelude.{
  ℕ, zero, suc, Bool, false, ◌||◌, ◌+◌, ◌*◌, ◌/◌, ◌%◌, ◌^◌, ◌<◌, ◌≡◌, refl, ap, ◌∙◌, some, List, [],
  ◌∷◌, length, get_elem?, subst, if◌then◌else◌, ◌==◌, split, arith,
}
use heine_os.Idt.{
  IdtEntry, new_entry, with_error_code, without_error_code, new_trap_gate, syscall_gate,
  pushes_error_code, interrupt_handler,
}
use heine_os.Idt.Table.{entries_of, new_idt}

-- The address that an entry sends the processor to, and the fields of its options.
abbrev pub target : IdtEntry → ℕ
target e = e.offset_low + e.offset_mid * 2 ^ 16 + e.offset_high * 2 ^ 32

abbrev pub privilege : IdtEntry → ℕ
privilege e = e.options / 2 ^ 13 % 2 ^ 2

abbrev pub gate_type : IdtEntry → ℕ
gate_type e = e.options / 2 ^ 8 % 2 ^ 4

abbrev pub present : IdtEntry → ℕ
present e = e.options / 2 ^ 15

-- An entry of the kernel's code segment that is present, for an address.
pub record IsGate (address dpl typ : ℕ) (e : IdtEntry) : Type 0 where
  pub target_is : target e ≡ address
  pub privilege_is : privilege e ≡ dpl
  pub type_is : gate_type e ≡ typ
  pub is_present : present e ≡ 1
  pub segment : e.selector ≡ 8

packed :
    (n : ℕ)
    → n < 2 ^ 64
    → n % 2 ^ 16 + n / 2 ^ 16 % 2 ^ 16 * 2 ^ 16 + n / 2 ^ 32 % 2 ^ 32 * 2 ^ 32 ≡ n
packed n h = omega arith

-- The entries that belong to the vectors from `first` on.
abbrev counted : (ℕ → IdtEntry) → IdtEntry → ℕ → ℕ → List IdtEntry
counted handler gate zero first = []
counted handler gate (suc n) first =
    (if first == 128 then gate else handler first) ∷ counted handler gate n (suc first)

entries_are_counted :
    (handler : ℕ → IdtEntry) (d : ℕ) → entries_of handler d ≡ counted handler (syscall_gate d) 256 0
unfolding entries_of
entries_are_counted handler d = refl

get_elem?-counted :
    (handler : ℕ → IdtEntry) (gate : IdtEntry) (n first i : ℕ)
    → i < n
    → get_elem? (counted handler gate n first) i
      ≡ some (if first + i == 128 then gate else handler (first + i))
get_elem?-counted handler gate zero first i h = absurd (omega arith)
get_elem?-counted handler gate (suc n) first zero h =
    ap (λ (k : ℕ). some (if k == 128 then gate else handler k)) (omega arith)
get_elem?-counted handler gate (suc n) first (suc i) h =
    get_elem?-counted handler gate n (suc first) i (omega arith)
    ∙ ap (λ (k : ℕ). some (if k == 128 then gate else handler k)) (omega arith)

-- The exceptions for which the processor pushes an error code: #DF, #TS, #NP, #SS, #GP, #PF, #AC,
-- #CP, #VC and #SX.
abbrev pub with_code_vectors : List ℕ
with_code_vectors = 8 ∷ 10 ∷ 11 ∷ 12 ∷ 13 ∷ 14 ∷ 17 ∷ 21 ∷ 29 ∷ 30 ∷ []

abbrev pub is_among : ℕ → List ℕ → Bool
is_among i [] = false
is_among i (n ∷ ns) = (i == n) || is_among i ns

module _ (wrapper_with_code wrapper : ℕ → ℕ) (dispatch_syscall : ℕ) where
  -- The function for a vector, its privilege and its type: interrupt gates for the kernel only, and a
  -- trap gate that user mode may use at 0x80.
  abbrev pub address_for : ℕ → ℕ
  address_for i =
      if i == 128
      then dispatch_syscall
      else (if is_among i with_code_vectors then wrapper_with_code i else wrapper i)

  abbrev pub privilege_for : ℕ → ℕ
  privilege_for i = if i == 128 then 3 else 0

  abbrev pub type_for : ℕ → ℕ
  type_for i = if i == 128 then 15 else 14

  entry_for : ℕ → IdtEntry
  entry_for i =
      if i == 128
      then syscall_gate dispatch_syscall
      else interrupt_handler wrapper_with_code wrapper i

  codes_agree : (i : ℕ) → pushes_error_code i ≡ is_among i with_code_vectors
  codes_agree i = ground arith

  handler-IsGate :
      (i : ℕ)
      → wrapper_with_code i < 2 ^ 64
      → wrapper i < 2 ^ 64
      → IsGate
          (if pushes_error_code i then wrapper_with_code i else wrapper i)
          0
          14
          (interrupt_handler wrapper_with_code wrapper i)
  unfolding interrupt_handler with_error_code without_error_code new_entry
  handler-IsGate i a b =
      split
        (λ c.
          IsGate (if c then wrapper_with_code i else wrapper i) 0 14
            (if c then with_error_code (wrapper_with_code i) else without_error_code (wrapper i)))
        (pushes_error_code i)
        (λ e. record {
          target_is = packed (wrapper_with_code i) a;
          privilege_is = refl;
          type_is = refl;
          is_present = refl;
          segment = refl;
        })
        (λ e. record {
          target_is = packed (wrapper i) b;
          privilege_is = refl;
          type_is = refl;
          is_present = refl;
          segment = refl;
        })

  -- The table has 256 entries, and each vector has a gate of its own: the gate of vector 0x80 is the
  -- trap gate for system calls from user mode, every other one is an interrupt gate for the kernel,
  -- and leads to the function that takes an error code exactly for the exceptions of
  -- `with_code_vectors`.
  pub new_idt-IsGate :
      (i : ℕ)
      → i < 256
      → wrapper_with_code i < 2 ^ 64
      → wrapper i < 2 ^ 64
      → dispatch_syscall < 2 ^ 64
      → (length (new_idt wrapper_with_code wrapper dispatch_syscall) ≡ 256)
        × ((e : IdtEntry) × (get_elem? (new_idt wrapper_with_code wrapper dispatch_syscall) i
              ≡ some e)
            × IsGate (address_for i) (privilege_for i) (type_for i) e)
  unfolding new_idt entries_of entry_for syscall_gate new_trap_gate new_entry
  new_idt-IsGate i l a b c = (
    refl,
    (
      entry_for i,
      ap (λ es. get_elem? es i)
            (entries_are_counted (interrupt_handler wrapper_with_code wrapper) dispatch_syscall)
          ∙ get_elem?-counted (interrupt_handler wrapper_with_code wrapper)
              (syscall_gate dispatch_syscall) 256 0 i l
          ∙ ap
              (λ (k : ℕ). some (
                if k == 128
                then syscall_gate dispatch_syscall
                else interrupt_handler wrapper_with_code wrapper k))
              (omega arith),
      split
          (λ d.
            IsGate
              (if d
                then dispatch_syscall
                else (if is_among i with_code_vectors then wrapper_with_code i else wrapper i))
              (if d then 3 else 0) (if d then 15 else 14)
              (if d
                then syscall_gate dispatch_syscall
                else interrupt_handler wrapper_with_code wrapper i))
          (i == 128)
          (λ e. record {
            target_is = packed dispatch_syscall c;
            privilege_is = refl;
            type_is = refl;
            is_present = refl;
            segment = refl;
          })
          (λ e.
            subst
              (λ c.
                IsGate (if c then wrapper_with_code i else wrapper i) 0 14
                  (interrupt_handler wrapper_with_code wrapper i))
              (codes_agree i) (handler-IsGate i a b)),
    ),
  )
