-- ===== src/Serial.antt =====
-- kernel/src/device/serial.rs, over Ports: output on a serial port.
-- A byte is a number; the wait for the port is for so many reads at most.
pub mod Output
mod Tests
use Prim.Native.Nat.{bit_and}
use heine_os.Prelude.{ℕ, ◌+◌, Bool, not, List, [], ◌∷◌, if◌then◌else◌, ◌==◌}
use heine_os.Ports.{Device, Io, ◌>>=◌, ◌>>◌, pure, out}
use heine_os.Ports.Polling.{poll}

pub data ComBaseAddress : Type 0 where
  com1 : ComBaseAddress
  com2 : ComBaseAddress
  com3 : ComBaseAddress
  com4 : ComBaseAddress

abbrev pub base_address : ComBaseAddress → ℕ
base_address com1 = 1016
base_address com2 = 760
base_address com3 = 1000
base_address com4 = 744

abbrev pub ready_to_write : ℕ
ready_to_write = 32

pub record ComPort : Type 0 where
  pub data_port : ℕ
  pub interrupt_control_port : ℕ
  pub line_control_port : ℕ
  pub line_status_port : ℕ

unfoldable pub new_com_port : ComBaseAddress → ComPort
new_com_port base = record {
  data_port = base_address base;
  interrupt_control_port = base_address base + 1;
  line_control_port = base_address base + 3;
  line_status_port = base_address base + 5;
}

unfoldable pub init_com_port : ComPort → Io (Unit {0})
init_com_port line =
    out line.interrupt_control_port 0
    >> out line.line_control_port 128
    >> out line.data_port 1
    >> out line.interrupt_control_port 0
    >> out line.line_control_port 3

-- The test of the loop.
abbrev pub accepts_data : ℕ → Bool
accepts_data status = not (bit_and status ready_to_write == 0)

module _ (dev : Device) (patience : ℕ) (line : ComPort) where
  -- `write_byte` behind the test for a newline.
  unfoldable pub write_raw : ℕ → Io (Unit {0})
  write_raw byte = poll dev line.line_status_port patience accepts_data >> out line.data_port byte

  -- A newline is written behind a carriage return.
  unfoldable pub write_byte : ℕ → Io (Unit {0})
  write_byte byte = if byte == 10 then (write_raw 13 >> write_raw byte) else write_raw byte

  unfoldable pub write_text : List ℕ → Io (Unit {0})
  write_text [] = pure tt
  write_text (byte ∷ bytes) = write_byte byte >> write_text bytes
