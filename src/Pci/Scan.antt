-- ===== src/Pci/Scan.antt =====
-- kernel/src/device/pci.rs: the search for devices.
-- The recursion through bridges takes a number of nested buses; with none left the scan is taken
-- never to end, as it does where bridges lead back to a bus above them.
use Prim.Native.Nat.{bit_and}
use heine_os.Prelude.{ℕ, zero, suc, List, [], ◌∷◌, ◌++◌, if◌then◌else◌, ◌==◌, ◌&&◌, spins}
use heine_os.Ports.{Device, Io, ◌>>=◌, pure}
use heine_os.Pci.{
  PciDevice, max_devices_per_bus, max_functions_per_device, invalid_vendor_id, read8, read16,
  register_offset, vendor_id, header_type, class, subclass, secondary_bus, class_code, bridge,
  bridge_code, pci_to_pci,
}

abbrev pub Devices : Type 0
Devices = List PciDevice

-- `for i in first..first + n`, with the list of devices that the body adds to.
abbrev pub each : ℕ → ℕ → (ℕ → Devices → Io Devices) → Devices → Io Devices
each zero first body devices = pure devices
each (suc n) first body devices = body first devices >>= each n (suc first) body

abbrev pub forever : Io Devices
forever t = spins

module _ (dev : Device) where
  -- What is done on a bus behind a bridge is `scan_secondary`.
  module _ (scan_secondary : ℕ → Devices → Io Devices) (bus device : ℕ) where
    unfoldable pub check_function : ℕ → Devices → Io Devices
    check_function function devices =
        read8 dev bus device function (register_offset class) >>= λ base_class.
        read8 dev bus device function (register_offset subclass) >>= λ sub_class.
        if (base_class == class_code bridge) && (sub_class == bridge_code pci_to_pci)
        then (read8 dev bus device function (register_offset secondary_bus) >>= λ secondary.
            scan_secondary secondary devices)
        else pure (devices ++ record { bus = bus; device = device; function = function } ∷ [])

    -- The body of the loop over the functions 1 to 7.
    unfoldable pub check_other : ℕ → Devices → Io Devices
    check_other function devices =
        read16 dev bus device function (register_offset vendor_id) >>= λ vendor.
        if vendor == invalid_vendor_id then pure devices else check_function function devices

    unfoldable pub check_device : Devices → Io Devices
    check_device devices = read16 dev bus device 0 (register_offset vendor_id) >>= λ vendor.
        if vendor == invalid_vendor_id
        then pure devices
        else check_function 0 devices >>= λ found.
            read8 dev bus device 0 (register_offset header_type) >>= λ header.
            if bit_and header 128 == 0 then pure found else each 7 1 check_other found

  unfoldable pub scan_bus : ℕ → ℕ → Devices → Io Devices
  scan_bus zero bus devices = forever
  scan_bus (suc nested) bus devices =
      let deeper = scan_bus nested in
      each max_devices_per_bus 0 (λ device. check_device deeper bus device) devices

  -- The loop of `scan` over the functions of the host controller.
  unfoldable pub scan_hosts : ℕ → ℕ → ℕ → Devices → Io Devices
  scan_hosts nested zero function devices = pure devices
  scan_hosts nested (suc n) function devices =
      let rest = scan_hosts nested n (suc function) in
      read16 dev 0 0 function (register_offset vendor_id) >>= λ vendor.
      if vendor == invalid_vendor_id
      then (scan_bus nested function devices >>= rest)
      else pure devices

  -- `scan`, on the new bus without devices.
  unfoldable pub scan : ℕ → Io Devices
  scan nested = read8 dev 0 0 0 (register_offset header_type) >>= λ header.
      if bit_and header 128 == 0
      then scan_bus nested 0 []
      else scan_hosts nested max_functions_per_device 0 []
