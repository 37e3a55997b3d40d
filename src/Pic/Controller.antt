-- ===== src/Pic/Controller.antt =====
-- The interrupt controllers that kernel/src/device/pic.rs is for, as the data sheet of the 8259 has
-- them: the command 17 starts an initialisation, in which the next three bytes for the data port are
-- no masks; the first of them is the vector of the controller's first line.
use heine_os.Prelude.{
  ℕ, ◌+◌, ◌-◌, ◌<◌, ◌≡◌, ◌≢◌, Option, none, some, [], ◌∷◌, ◌&&◌, ◌==◌, if◌then◌else◌, ◌⊎◌,
}
use heine_os.Ports.{did_read, did_write, Trace, Device}
use heine_os.Pic.{port_of, line_of}

abbrev pub IsData : ℕ → Type 0
IsData port = (port ≡ 33) ⊎ (port ≡ 161)

abbrev pub command_of : ℕ → ℕ
command_of port = port - 1

-- How many bytes of an initialisation are still to come.
abbrev pub pending : ℕ → Trace → ℕ
pending port [] = 0
pending port (did_read other value ∷ t) = pending port t
pending port (did_write other value ∷ t) =
    let before = pending port t in
    if (other == command_of port) && (value == 17)
    then 3
    else if other == port
    then before - 1
    else before

-- The vector of the first line.
abbrev pub offset_of : ℕ → Trace → Option ℕ
offset_of port [] = none
offset_of port (did_read other value ∷ t) = offset_of port t
offset_of port (did_write other value ∷ t) =
    let before = offset_of port t in
    let first = (other == port) && (pending port t == 3) in if first then some value else before

abbrev above : ℕ → Option ℕ → Option ℕ
above n none = none
above n (some v) = some (v + n)

-- The vector at which an interrupt of a line reaches the processor.
abbrev pub vector_of : Trace → ℕ → Option ℕ
vector_of t irq = above (line_of irq) (offset_of (port_of irq) t)

-- A mask that is written behind the initialisation can be read back; accesses to other ports, and
-- reads, change no mask.
pub record Keeps (dev : Device) : Type 0 where
  pub written :
      (t : Trace) (port value : ℕ)
      → IsData port
      → pending port t ≡ 0
      → value < 256
      → dev (did_write port value ∷ t) port ≡ value
  pub beside :
      (t : Trace) (port other value : ℕ)
      → IsData port
      → port ≢ other
      → command_of port ≢ other
      → dev (did_write other value ∷ t) port ≡ dev t port
  pub reading :
      (t : Trace) (port other value : ℕ)
      → IsData port
      → dev (did_read other value ∷ t) port ≡ dev t port
