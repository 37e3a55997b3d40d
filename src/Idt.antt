-- ===== src/Idt.antt =====
-- kernel/src/interrupt/idt.rs: the table of interrupt gates.
-- The addresses of the functions that the macro `interrupt_handler!` makes for a vector, with and
-- without an error code, and of `dispatch_syscall`, are parameters.
pub mod Table
pub mod Gates
mod Tests
use heine_os.Prelude.{
  ℕ, ◌+◌, ◌-◌, ◌*◌, ◌/◌, ◌%◌, ◌^◌, ◌<◌, Bool, true, false, ◌||◌, List, [], ◌∷◌, length, set,
  if◌then◌else◌, ltb, ◌==◌, Outcome, done, panics,
}

pub record InterruptStackFrame : Type 0 where
  pub instruction_pointer : ℕ
  pub code_segment : ℕ
  pub flags : ℕ
  pub stack_pointer : ℕ
  pub stack_segment : ℕ

pub record IdtEntry : Type 0 where
  pub offset_low : ℕ
  pub selector : ℕ
  pub options : ℕ
  pub offset_mid : ℕ
  pub offset_high : ℕ
  pub reserved : ℕ

abbrev pub idt_size : ℕ
idt_size = 256

unfoldable pub new_entry : ℕ → ℕ → IdtEntry
new_entry offset options = record {
  offset_low = offset % 2 ^ 16;
  offset_mid = offset / 2 ^ 16 % 2 ^ 16;
  offset_high = offset / 2 ^ 32 % 2 ^ 32;
  selector = 8;
  options = options;
  reserved = 0;
}

unfoldable pub without_error_code : ℕ → IdtEntry
without_error_code handler = new_entry handler 36352

unfoldable pub with_error_code : ℕ → IdtEntry
with_error_code handler = new_entry handler 36352

unfoldable pub new_trap_gate : ℕ → IdtEntry
new_trap_gate offset = new_entry offset 61184

unfoldable pub syscall_gate : ℕ → IdtEntry
syscall_gate handler = new_trap_gate handler

-- The vectors for which the processor pushes an error code, as the macro matches them.
abbrev pub pushes_error_code : ℕ → Bool
pushes_error_code n =
    (n == 8)
    || (n == 10)
    || (n == 11)
    || (n == 12)
    || (n == 13)
    || (n == 14)
    || (n == 17)
    || (n == 21)
    || (n == 29)
    || (n == 30)

module _ (wrapper_with_code wrapper : ℕ → ℕ) where
  unfoldable pub interrupt_handler : ℕ → IdtEntry
  interrupt_handler n =
      if pushes_error_code n
      then with_error_code (wrapper_with_code n)
      else without_error_code (wrapper n)

-- An index out of the table panics.
unfoldable pub set_entry : ℕ → IdtEntry → List IdtEntry → Outcome (List IdtEntry)
set_entry index entry idt = if ltb index (length idt) then done (set idt index entry) else panics

-- What `load` gives to `lidt`: 16 bytes for each entry, and the address of the table.
pub record IdtDescriptor : Type 0 where
  pub limit : ℕ
  pub address : ℕ

unfoldable pub new_descriptor : List IdtEntry → ℕ → IdtDescriptor
new_descriptor idt address = record { limit = (length idt * 16 - 1) % 2 ^ 16; address = address }
