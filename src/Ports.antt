-- ===== src/Ports.antt =====
-- kernel/src/device/cpu.rs: the I/O ports.
-- A driver's call is a function of what happened on the ports so far, the latest access first. What
-- the devices answer is the parameter `Device`: a number for each port, given the accesses so far.
pub mod Polling
use heine_os.Prelude.{
  ℕ, zero, suc, ◌%◌, ◌^◌, Bool, List, [], ◌∷◌, if◌then◌else◌, Outcome, done, panics, spins,
}

pub data Access : Type 0 where
  did_read : ℕ → ℕ → Access
  did_write : ℕ → ℕ → Access

abbrev pub Trace : Type 0
Trace = List Access

abbrev pub Device : Type 0
Device = Trace → ℕ → ℕ

abbrev pub Io {ℓ} : Type ℓ → Type ℓ
Io A = Trace → Outcome (A × Trace)

-- What a call goes on with.
abbrev pub carry {ℓ κ} :
    {A : Type ℓ} {B : Type κ} → Outcome (A × Trace) → (A → Io B) → Outcome (B × Trace)
carry (done (a, t)) f = f a t
carry panics f = panics
carry spins f = spins

infixl 5 ◌>>=◌ ◌>>◌
abbrev pub ◌>>=◌ {ℓ κ} : {A : Type ℓ} {B : Type κ} → Io A → (A → Io B) → Io B
(m >>= f) t = carry (m t) f

abbrev pub ◌>>◌ {ℓ} : {B : Type ℓ} → Io (Unit {0}) → Io B → Io B
m >> k = m >>= λ _. k

abbrev pub pure {ℓ} : {A : Type ℓ} → A → Io A
pure a t = done (a, t)

abbrev pub panic {ℓ} : {A : Type ℓ} → Io A
panic t = panics

abbrev pub keep : {A : Type 0} → Trace → Outcome A → Outcome (A × Trace)
keep t (done a) = done (a, t)
keep t panics = panics
keep t spins = spins

-- A call that touches no port.
abbrev pub lift : {A : Type 0} → Outcome A → Io A
lift m t = keep t m

module _ (dev : Device) where
  -- `IoPort::inb`.
  abbrev pub inb : ℕ → Io ℕ
  inb port t = let value = dev t port % 2 ^ 8 in done (value, did_read port value ∷ t)

  abbrev pub inw : ℕ → Io ℕ
  inw port t = let value = dev t port % 2 ^ 16 in done (value, did_read port value ∷ t)

  abbrev pub indw : ℕ → Io ℕ
  indw port t = let value = dev t port % 2 ^ 32 in done (value, did_read port value ∷ t)
  -- `IoPort::outb`, `outw` and `outdw`; `data` fits.

abbrev pub out : ℕ → ℕ → Io (Unit {0})
out port data_ t = done (tt, did_write port data_ ∷ t)
