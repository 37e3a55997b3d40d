-- ===== src/Rtl8139/Plugin.antt =====
-- kernel/src/device/rtl8139.rs: how the card is found and connected.
-- `patience` is the number of reads for the reset, `rx_buffer` the address of the receive buffer.
use Prim.Native.Nat.{bit_and, bit_or}
use heine_os.Prelude.{
  ℕ, ◌+◌, ◌%◌, ◌^◌, ◌||◌, Option, none, some, List, [], ◌∷◌, if◌then◌else◌, ◌==◌,
}
use heine_os.Ports.{Device, Io, ◌>>=◌, ◌>>◌, pure, panic, lift}
use heine_os.Pci.{
  PciDevice, command_bit, io_enable, bus_master_enable, read_vendor_id, read_device_id,
  read_command, write_command, read_bar, read_interrupt_line,
}
use heine_os.Pic.{allow}
use heine_os.Interrupts.{register}
use heine_os.Rtl8139.Registers.{init_rtl8139}

module _ (dev : Device) where
  -- The first device with the numbers of the card.
  unfoldable pub find_card : List PciDevice → Io (Option PciDevice)
  find_card [] = pure none
  find_card (d ∷ ds) =
      let rest = find_card ds in
      read_vendor_id dev d >>= λ vendor.
      if vendor == 4332
      then (read_device_id dev d >>= λ id. if id == 33081 then pure (some d) else rest)
      else rest

  module _ {Isr : Type 0} (isr : Isr) (patience rx_buffer : ℕ) where
    -- The interrupt line of the card; the lines 9 to 11 are free.
    abbrev pub connect : ℕ → List (Option Isr) → Io (List (Option Isr))
    connect irq_num map =
        if (irq_num == 9) || (irq_num == 10) || (irq_num == 11)
        then allow dev irq_num >> lift (register map (irq_num + 32) isr)
        else panic

    unfoldable pub start_card : PciDevice → List (Option Isr) → Io (List (Option Isr))
    start_card d map = read_command dev d >>= λ before.
        write_command dev d
          (bit_or (bit_or before (command_bit io_enable)) (command_bit bus_master_enable))
        >> (read_bar dev d 0 >>= λ bar0.
            if bit_and bar0 1 == 0
            then panic
            else init_rtl8139 dev (bit_and bar0 65532 % 2 ^ 16) patience rx_buffer
              >> (read_interrupt_line dev d >>= λ irq_num. connect irq_num map))

    -- `plugin`, with the devices of the bus and the map of the handlers.
    unfoldable pub plugin : List PciDevice → List (Option Isr) → Io (List (Option Isr))
    plugin devices map =
        find_card devices >>= λ found. elim found [ none ↦ pure map | some d ↦ start_card d map ]
