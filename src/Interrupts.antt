-- ===== src/Interrupts.antt =====
-- kernel/src/interrupt/dispatcher.rs: the map from interrupt vectors to their handlers. A handler is
-- a parameter; a call that triggers one returns it. A vector is its number.
pub mod Registered
mod Tests
use heine_os.Prelude.{
  ℕ, Option, none, some, List, [], ◌∷◌, get_elem?, set, replicate, Outcome, done, panics, spins,
}

abbrev pub idt_size : ℕ
idt_size = 256

module _ {Isr : Type 0} where
  -- `IntVectors::new`.
  abbrev pub no_vectors : List (Option Isr)
  no_vectors = []

  unfoldable pub init : List (Option Isr) → Outcome (List (Option Isr))
  init [] = done (replicate idt_size none)
  init (isr ∷ map) = panics

  abbrev pub replaced :
      List (Option Isr) → ℕ → Isr → Option (Option Isr) → Outcome (List (Option Isr))
  replaced map vector isr none = panics
  replaced map vector isr (some before) = done (set map vector (some isr))

  -- `register` and `register_dynamic`.
  unfoldable pub register : List (Option Isr) → ℕ → Isr → Outcome (List (Option Isr))
  register map vector isr = replaced map vector isr (get_elem? map vector)

  -- `report`: the handler that it triggered, or false.
  abbrev pub reported : Option (Option Isr) → Outcome (Option Isr)
  reported none = panics
  reported (some isr) = done isr

  unfoldable pub report : List (Option Isr) → ℕ → Outcome (Option Isr)
  report map vector = reported (get_elem? map vector)

  abbrev pub dispatched : Outcome (Option Isr) → Outcome Isr
  dispatched (done (some isr)) = done isr
  dispatched (done none) = panics
  dispatched panics = panics
  dispatched spins = spins

  unfoldable pub dispatch_interrupt : List (Option Isr) → ℕ → Outcome Isr
  dispatch_interrupt map vector = dispatched (report map vector)
