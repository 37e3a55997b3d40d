-- ===== src/Rtl8139/Registers.antt =====
-- kernel/src/device/rtl8139.rs: the registers of the card and the calls on them.
-- `io_base` is the first of its ports; the sums with it fit 16 bits.
use Prim.Native.Nat.{bit_and, bit_or}
use heine_os.Prelude.{ℕ, ◌+◌, ◌%◌, ◌^◌, Bool, not, ◌==◌}
use heine_os.Ports.{Device, Io, ◌>>=◌, ◌>>◌, pure, inb, inw, out}
use heine_os.Ports.Polling.{poll}

abbrev pub reg_tsd0 : ℕ
reg_tsd0 = 16

abbrev pub reg_tsad0 : ℕ
reg_tsad0 = 32

abbrev pub reg_rbstart : ℕ
reg_rbstart = 48

abbrev pub reg_cmd : ℕ
reg_cmd = 55

abbrev pub reg_capr : ℕ
reg_capr = 56

abbrev pub reg_imr : ℕ
reg_imr = 60

abbrev pub reg_isr : ℕ
reg_isr = 62

abbrev pub reg_rcr : ℕ
reg_rcr = 68

abbrev pub reg_config_1 : ℕ
reg_config_1 = 82

-- `CommandReg`, `InterruptReg`, `ReceiveConfig` and `ReceiveStatus`.
abbrev pub buffer_empty : ℕ
buffer_empty = 2 ^ 0

abbrev pub tx_enable : ℕ
tx_enable = 2 ^ 2

abbrev pub rx_enable : ℕ
rx_enable = 2 ^ 3

abbrev pub reset : ℕ
reset = 2 ^ 4

abbrev pub receive_ok : ℕ
receive_ok = 2 ^ 0

abbrev pub transmit_ok : ℕ
transmit_ok = 2 ^ 2

abbrev pub rx_overflow : ℕ
rx_overflow = 2 ^ 4

abbrev pub accept_all_packets : ℕ
accept_all_packets = 2 ^ 0

abbrev pub accept_physical_match : ℕ
accept_physical_match = 2 ^ 1

abbrev pub accept_multicast : ℕ
accept_multicast = 2 ^ 2

abbrev pub accept_broadcast : ℕ
accept_broadcast = 2 ^ 3

abbrev pub wrap : ℕ
wrap = 2 ^ 7

abbrev pub rok : ℕ
rok = 2 ^ 0

-- `contains` for one bit.
abbrev pub has_flag : ℕ → ℕ → Bool
has_flag flags bit = not (bit_and flags bit == 0)

module _ (dev : Device) (io_base : ℕ) where
  unfoldable pub write_card_command : ℕ → Io (Unit {0})
  write_card_command cmd = out (io_base + reg_cmd) cmd

  unfoldable pub read_card_command : Io ℕ
  read_card_command = inb dev (io_base + reg_cmd)

  unfoldable pub read_interrupt_status : Io ℕ
  read_interrupt_status = inw dev (io_base + reg_isr)

  unfoldable pub power_on : Io (Unit {0})
  power_on = out (io_base + reg_config_1) 0

  -- The wait for the reset, for so many reads at most.
  unfoldable pub software_reset : ℕ → Io (Unit {0})
  software_reset patience =
      write_card_command reset
      >> poll dev (io_base + reg_cmd) patience (λ command. bit_and command reset == 0)

  -- The address of the receive buffer is cut to 32 bits.
  unfoldable pub init_rx_buffer : ℕ → Io (Unit {0})
  init_rx_buffer rx_buffer = out (io_base + reg_rbstart) (rx_buffer % 2 ^ 32)

  unfoldable pub allow_interrupts : Io (Unit {0})
  allow_interrupts = out (io_base + reg_imr) (bit_or (bit_or receive_ok transmit_ok) rx_overflow)

  unfoldable pub configure_receive_buffer : Io (Unit {0})
  configure_receive_buffer = out (io_base + reg_rcr) (
      bit_or
        (bit_or (bit_or (bit_or accept_all_packets accept_physical_match) accept_multicast)
          accept_broadcast)
        wrap)

  unfoldable pub enable_rx_tx : Io (Unit {0})
  enable_rx_tx = write_card_command (bit_or rx_enable tx_enable)

  unfoldable pub acknowledge_interrupt : ℕ → Io (Unit {0})
  acknowledge_interrupt status = out (io_base + reg_isr) status

  unfoldable pub read_capr : Io ℕ
  read_capr = inw dev (io_base + reg_capr)

  unfoldable pub write_capr : ℕ → Io (Unit {0})
  write_capr capr = out (io_base + reg_capr) capr

  unfoldable pub rx_buffer_empty : Io Bool
  rx_buffer_empty = read_card_command >>= λ command. pure (has_flag command buffer_empty)

  -- `init_rtl8139`, on a new driver with its receive buffer at an address.
  unfoldable pub init_rtl8139 : ℕ → ℕ → Io (Unit {0})
  init_rtl8139 patience rx_buffer =
      power_on
      >> software_reset patience
      >> init_rx_buffer rx_buffer
      >> allow_interrupts
      >> configure_receive_buffer
      >> enable_rx_tx
