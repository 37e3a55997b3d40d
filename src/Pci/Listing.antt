-- ===== src/Pci/Listing.antt =====
-- kernel/src/device/pci.rs: the devices that a configuration space holds.
-- `space` gives each register by its address.
use Prim.Native.Nat.{bit_and}
use heine_os.Prelude.{
  ℕ, zero, suc, ◌%◌, ◌/◌, ◌<◌, ◌≡◌, Bool, true, ◌&&◌, [], ◌∷◌, ◌++◌, if◌then◌else◌, ◌==◌,
}
use heine_os.Pci.{
  calc_config_address, Register, register_offset, vendor_id, header_type, class, subclass,
  secondary_bus,
}
use heine_os.Pci.Scan.{Devices}
use heine_os.Pci.Values.{byte, half}

-- What the body of a loop finds, round by round.
abbrev pub gather : ℕ → ℕ → (ℕ → Devices) → Devices
gather zero first found = []
gather (suc n) first found = found first ++ gather n (suc first) found

module _ (space : ℕ → ℕ) where
  abbrev pub cell8 : ℕ → ℕ → ℕ → Register → ℕ
  cell8 bus device function r =
      byte (register_offset r % 4)
        (space (calc_config_address bus device function (register_offset r)))

  abbrev pub cell16 : ℕ → ℕ → ℕ → Register → ℕ
  cell16 bus device function r =
      half (register_offset r / 2 % 2)
        (space (calc_config_address bus device function (register_offset r)))

  abbrev pub absent : ℕ → ℕ → ℕ → Bool
  absent bus device function = cell16 bus device function vendor_id == 65535

  abbrev pub is_bridge : ℕ → ℕ → ℕ → Bool
  is_bridge bus device function =
      (cell8 bus device function class == 6) && (cell8 bus device function subclass == 4)

  abbrev pub has_one_function : ℕ → ℕ → Bool
  has_one_function bus device = bit_and (cell8 bus device 0 header_type) 128 == 0

  -- The devices of a bus: a function that is no bridge stands for itself, a bridge for what is on
  -- the bus behind it.
  module _ (behind : ℕ → Devices) (bus device : ℕ) where
    abbrev pub function_listing : ℕ → Devices
    function_listing function =
        if is_bridge bus device function
        then behind (cell8 bus device function secondary_bus)
        else record { bus = bus; device = device; function = function } ∷ []

    abbrev pub other_listing : ℕ → Devices
    other_listing function = if absent bus device function then [] else function_listing function

    abbrev pub device_listing : Devices
    device_listing =
        if absent bus device 0
        then []
        else function_listing 0
          ++ (if has_one_function bus device then [] else gather 7 1 other_listing)

  unfoldable pub listing : ℕ → ℕ → Devices
  listing zero bus = []
  listing (suc nested) bus = gather 32 0 (device_listing (listing nested) bus)

  -- The numbering that the firmware gives: the bus behind a bridge has a larger number than the bus
  -- of the bridge.
  abbrev pub Descends : Type 0
  Descends =
      (bus device function : ℕ)
      → bus < 256
      → device < 32
      → function < 8
      → is_bridge bus device function ≡ true
      → bus < cell8 bus device function secondary_bus
