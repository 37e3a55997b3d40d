-- ===== src/Pci.antt =====
-- kernel/src/device/pci.rs: the configuration space behind its address port and its data port.
-- A call stands for what it does once it has the lock of the registers; Pci/Scan has the search for
-- devices. Offsets and values fit their types.
pub mod Codes
pub mod Scan
pub mod Address
pub mod Values
pub mod Registers
pub mod Listing
pub mod Search
mod Tests
pub use Codes.*
use Prim.Native.Nat.{bit_and, bit_or}
use heine_os.Prelude.{ℕ, ◌+◌, ◌-◌, ◌*◌, ◌/◌, ◌%◌, ◌^◌, Bool, true, false, if◌then◌else◌, ltb}
use heine_os.Ports.{Device, Io, ◌>>=◌, ◌>>◌, pure, panic, indw, out}

abbrev pub max_devices_per_bus : ℕ
max_devices_per_bus = 32

abbrev pub max_functions_per_device : ℕ
max_functions_per_device = 8

abbrev pub invalid_vendor_id : ℕ
invalid_vendor_id = 65535

abbrev pub config_address_port : ℕ
config_address_port = 3320

abbrev pub config_data_port : ℕ
config_data_port = 3324

-- `<<` and `!` on `u32`.
abbrev pub shl32 : ℕ → ℕ → ℕ
shl32 x n = x * 2 ^ n % 2 ^ 32

abbrev pub not32 : ℕ → ℕ
not32 x = 2 ^ 32 - 1 - x

unfoldable pub calc_config_address : ℕ → ℕ → ℕ → ℕ → ℕ
calc_config_address bus device function offset =
    bit_or
      (bit_or (bit_or (bit_or (shl32 1 31) (shl32 bus 16)) (shl32 device 11)) (shl32 function 8))
      (bit_and offset 252)

-- `(offset & 0x02) * 8` and `(offset & 0x03) * 8`: where a half or a byte of a register starts.
abbrev pub half_shift : ℕ → ℕ
half_shift offset = bit_and offset 2 * 8

abbrev pub byte_shift : ℕ → ℕ
byte_shift offset = bit_and offset 3 * 8

-- What `write16` and `write8` make of a register.
unfoldable pub with_half : ℕ → ℕ → ℕ → ℕ
with_half offset value data_ =
    bit_or (bit_and data_ (not32 (shl32 65535 (half_shift offset))))
      (shl32 value (half_shift offset))

unfoldable pub with_byte : ℕ → ℕ → ℕ → ℕ
with_byte offset value data_ =
    bit_or (bit_and data_ (not32 (shl32 255 (byte_shift offset)))) (shl32 value (byte_shift offset))

module _ (dev : Device) where
  unfoldable pub read32 : ℕ → ℕ → ℕ → ℕ → Io ℕ
  read32 bus device function offset =
      out config_address_port (calc_config_address bus device function offset)
      >> indw dev config_data_port

  unfoldable pub write32 : ℕ → ℕ → ℕ → ℕ → ℕ → Io (Unit {0})
  write32 bus device function offset value =
      out config_address_port (calc_config_address bus device function offset)
      >> out config_data_port value

  unfoldable pub read16 : ℕ → ℕ → ℕ → ℕ → Io ℕ
  read16 bus device function offset = read32 bus device function offset >>= λ data_.
      pure (bit_and (data_ / 2 ^ half_shift offset) 65535)

  unfoldable pub write16 : ℕ → ℕ → ℕ → ℕ → ℕ → Io (Unit {0})
  write16 bus device function offset value = read32 bus device function offset >>= λ data_.
      write32 bus device function offset (with_half offset value data_)

  unfoldable pub read8 : ℕ → ℕ → ℕ → ℕ → Io ℕ
  read8 bus device function offset = read32 bus device function offset >>= λ data_.
      pure (bit_and (data_ / 2 ^ byte_shift offset) 255)

  unfoldable pub write8 : ℕ → ℕ → ℕ → ℕ → ℕ → Io (Unit {0})
  write8 bus device function offset value = read32 bus device function offset >>= λ data_.
      write32 bus device function offset (with_byte offset value data_)

pub record PciDevice : Type 0 where
  pub bus : ℕ
  pub device : ℕ
  pub function : ℕ

-- The readers and writers of a device.
module _ (dev : Device) (d : PciDevice) where
  abbrev pub device_read8 : Register → Io ℕ
  device_read8 r = read8 dev d.bus d.device d.function (register_offset r)

  abbrev pub device_read16 : Register → Io ℕ
  device_read16 r = read16 dev d.bus d.device d.function (register_offset r)

  abbrev pub device_read32 : ℕ → Io ℕ
  device_read32 offset = read32 dev d.bus d.device d.function offset

  abbrev pub device_write16 : Register → ℕ → Io (Unit {0})
  device_write16 r value = write16 dev d.bus d.device d.function (register_offset r) value

  abbrev pub device_write32 : ℕ → ℕ → Io (Unit {0})
  device_write32 offset value = write32 dev d.bus d.device d.function offset value

  abbrev pub read_vendor_id : Io ℕ
  read_vendor_id = device_read16 vendor_id

  abbrev pub read_device_id : Io ℕ
  read_device_id = device_read16 device_id

  abbrev pub read_class : Io ℕ
  read_class = device_read8 class

  abbrev pub read_subclass : Io ℕ
  read_subclass = device_read8 subclass

  abbrev pub read_revision : Io ℕ
  read_revision = device_read8 revision

  abbrev pub read_programming_interface : Io ℕ
  read_programming_interface = device_read8 programming_interface

  abbrev pub read_subsystem_vendor_id : Io ℕ
  read_subsystem_vendor_id = device_read16 subsystem_vendor_id

  abbrev pub read_subsystem_id : Io ℕ
  read_subsystem_id = device_read16 subsystem_id

  abbrev pub read_interrupt_line : Io ℕ
  read_interrupt_line = device_read8 interrupt_line

  unfoldable pub read_command : Io ℕ
  read_command = device_read16 command

  unfoldable pub write_command : ℕ → Io (Unit {0})
  write_command value = device_write16 command value

  -- `assert!(index < 6)` panics.
  unfoldable pub read_bar : ℕ → Io ℕ
  read_bar index =
      if ltb index 6 then device_read32 (register_offset base_address0 + index * 4) else panic

  unfoldable pub write_bar : ℕ → ℕ → Io (Unit {0})
  write_bar index value =
      if ltb index 6
      then device_write32 (register_offset base_address0 + index * 4) value
      else panic
