-- ===== src/Pic.antt =====
-- kernel/src/device/pic.rs: the interrupt controllers. An `Irq` is its number; the data port of the
-- first controller has the masks of the lines 0 to 7, that of the second those of 8 to 15.
pub mod Controller
pub mod Masks
use Prim.Native.Nat.{bit_and, bit_or}
use heine_os.Prelude.{ℕ, ◌-◌, ◌%◌, ◌^◌, Bool, if◌then◌else◌, ltb, ◌==◌}
use heine_os.Ports.{Access, Trace, Device, Io, carry, ◌>>=◌, ◌>>◌, pure, inb, out}

abbrev pub command1 : ℕ
command1 = 32

abbrev pub command2 : ℕ
command2 = 160

abbrev pub data1 : ℕ
data1 = 33

abbrev pub data2 : ℕ
data2 = 161

-- `cpu::io_wait`.
abbrev pub io_wait : Io (Unit {0})
io_wait = out 128 0

-- A byte for a port, and a pause.
abbrev pub slowly : ℕ → ℕ → Io (Unit {0})
slowly port data_ = out port data_ >> io_wait

unfoldable pub init : Io (Unit {0})
init = do
  slowly command1 17
  slowly command2 17
  slowly data1 32
  slowly data2 40
  slowly data1 4
  slowly data2 2
  slowly data1 3
  slowly data2 3
  slowly data1 251
  slowly data2 255

-- The port of a line, and its bit.
abbrev pub port_of : ℕ → ℕ
port_of irq = if ltb irq 8 then data1 else data2

abbrev pub line_of : ℕ → ℕ
line_of irq = if ltb irq 8 then irq else irq - 8

module _ (dev : Device) where
  unfoldable pub allow : ℕ → Io (Unit {0})
  allow irq = do
    current ← inb dev (port_of irq)
    out (port_of irq) (bit_and current (255 - 2 ^ line_of irq))

  unfoldable pub forbid : ℕ → Io (Unit {0})
  forbid irq = do
    current ← inb dev (port_of irq)
    out (port_of irq) (bit_or current (2 ^ line_of irq))

  unfoldable pub status : ℕ → Io Bool
  status irq = do current ← inb dev (port_of irq); pure (bit_and current (2 ^ line_of irq) == 0)
