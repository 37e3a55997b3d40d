-- ===== src/Pci/Address.antt =====
-- kernel/src/device/pci.rs: what the address of a register says.
use Prim.Native.Nat.{bit_and, bit_or}
use heine_os.Prelude.{ℕ, ◌+◌, ◌*◌, ◌/◌, ◌%◌, ◌^◌, ◌<◌, ◌≡◌, refl, ap, ap₂, ◌∙◌, arith}
use heine_os.Prelude.Bits.{bit_or_apart, bit_and_high}
use heine_os.Pci.{calc_config_address}

module _ (bus device function offset : ℕ) (b : bus < 256) (d : device < 32) (f : function < 8)
    (o : offset < 256) where
  aligned : bit_and offset 252 ≡ offset / 4 * 4
  aligned = bit_and_high 2 8 offset (omega arith) o

  pub calc_config_address_is :
      calc_config_address bus device function offset
      ≡ 2147483648 + bus * 65536 + device * 2048 + function * 256 + offset / 4 * 4
  unfolding calc_config_address
  calc_config_address_is =
      ap₂ bit_or
        (ap₂ bit_or
            (ap₂ bit_or (ap (bit_or 2147483648) bus_field ∙ bit_or_apart 31 _ _ refl (omega arith))
                device_field
              ∙ bit_or_apart 16 _ _ (omega arith) (omega arith))
            function_field
          ∙ bit_or_apart 11 _ _ (omega arith) (omega arith))
        aligned
      ∙ bit_or_apart 8 _ _ (omega arith) (omega arith)
    where
      bus_field : bus * 65536 % 4294967296 ≡ bus * 65536
      bus_field = omega arith

      device_field : device * 2048 % 4294967296 ≡ device * 2048
      device_field = omega arith

      function_field : function * 256 % 4294967296 ≡ function * 256
      function_field = omega arith

  -- The address of a register is a number of 32 bits with the enable bit, and the bus, the device,
  -- the function and the register can be read off it; its two lowest bits are clear.
  pub calc_config_address_decodes :
      let address = calc_config_address bus device function offset in
      (address / 2 ^ 31 ≡ 1)
      × (address / 2 ^ 16 % 2 ^ 15 ≡ bus)
      × (address / 2 ^ 11 % 2 ^ 5 ≡ device)
      × (address / 2 ^ 8 % 2 ^ 3 ≡ function)
      × (address % 2 ^ 8 ≡ offset / 4 * 4)
  calc_config_address_decodes =
      let e = calc_config_address_is in
      (omega (arith, e), omega (arith, e), omega (arith, e), omega (arith, e), omega (arith, e))
