-- ===== src/Pci/Codes.antt =====
-- kernel/src/device/pci.rs: the enumerations, and the numbers that the code writes for them.
-- Those of `Command` and `Status` are bits, those of `Register` are offsets in the configuration space.
use Prim.Native.Nat.{ℕ}

pub data Command : Type 0 where
  io_enable : Command
  mem_enable : Command
  bus_master_enable : Command
  special_cycle : Command
  memory_write_invalidate : Command
  palette_snoop : Command
  parity_error_response : Command
  serr_enable : Command
  fast_back_to_back_enable : Command
  interrupt_disable : Command

abbrev pub command_bit : Command → ℕ
command_bit io_enable = 1
command_bit mem_enable = 2
command_bit bus_master_enable = 4
command_bit special_cycle = 8
command_bit memory_write_invalidate = 16
command_bit palette_snoop = 32
command_bit parity_error_response = 64
command_bit serr_enable = 256
command_bit fast_back_to_back_enable = 512
command_bit interrupt_disable = 1024

pub data Status : Type 0 where
  interrupt_status : Status
  capabilities_list : Status
  master_data_parity_error : Status
  signaled_target_abort : Status
  received_target_abort : Status
  received_master_abort : Status
  signaled_system_error : Status
  detected_parity_error : Status

abbrev pub status_bit : Status → ℕ
status_bit interrupt_status = 8
status_bit capabilities_list = 16
status_bit master_data_parity_error = 256
status_bit signaled_target_abort = 2048
status_bit received_target_abort = 4096
status_bit received_master_abort = 8192
status_bit signaled_system_error = 16384
status_bit detected_parity_error = 32768

pub data Register : Type 0 where
  vendor_id : Register
  device_id : Register
  command : Register
  status : Register
  revision : Register
  programming_interface : Register
  subclass : Register
  class : Register
  cache_line_size : Register
  master_latency_timer : Register
  header_type : Register
  bist : Register
  base_address0 : Register
  base_address1 : Register
  base_address2 : Register
  base_address3 : Register
  base_address4 : Register
  base_address5 : Register
  cardbus_cis_pointer : Register
  subsystem_vendor_id : Register
  subsystem_id : Register
  expansion_rom_base_address : Register
  capabilities_pointer : Register
  interrupt_line : Register
  interrupt_pin : Register
  min_grant : Register
  max_latency : Register
  secondary_bus : Register

abbrev pub register_offset : Register → ℕ
register_offset vendor_id = 0
register_offset device_id = 2
register_offset command = 4
register_offset status = 6
register_offset revision = 8
register_offset programming_interface = 9
register_offset subclass = 10
register_offset class = 11
register_offset cache_line_size = 12
register_offset master_latency_timer = 13
register_offset header_type = 14
register_offset bist = 15
register_offset base_address0 = 16
register_offset base_address1 = 20
register_offset base_address2 = 24
register_offset base_address3 = 28
register_offset base_address4 = 32
register_offset base_address5 = 36
register_offset cardbus_cis_pointer = 40
register_offset subsystem_vendor_id = 44
register_offset subsystem_id = 46
register_offset expansion_rom_base_address = 48
register_offset capabilities_pointer = 52
register_offset interrupt_line = 60
register_offset interrupt_pin = 61
register_offset min_grant = 62
register_offset max_latency = 63
register_offset secondary_bus = 25

pub data Class : Type 0 where
  unclassified : Class
  mass_storage : Class
  network_controller : Class
  display_controller : Class
  multimedia_controller : Class
  memory_controller : Class
  bridge : Class
  simple_communication_controller : Class
  base_system_peripheral : Class
  input_device_controller : Class
  docking_station : Class
  processor : Class
  serial_bus_controller : Class
  wireless_controller : Class
  intelligent_controller : Class
  satellite_communication_controller : Class
  encryption_controller : Class
  signal_processing_controller : Class
  processing_accelerator : Class
  non_essential_instrumentation : Class
  co_processor : Class
  unassigned : Class

abbrev pub class_code : Class → ℕ
class_code unclassified = 0
class_code mass_storage = 1
class_code network_controller = 2
class_code display_controller = 3
class_code multimedia_controller = 4
class_code memory_controller = 5
class_code bridge = 6
class_code simple_communication_controller = 7
class_code base_system_peripheral = 8
class_code input_device_controller = 9
class_code docking_station = 10
class_code processor = 11
class_code serial_bus_controller = 12
class_code wireless_controller = 13
class_code intelligent_controller = 14
class_code satellite_communication_controller = 15
class_code encryption_controller = 16
class_code signal_processing_controller = 17
class_code processing_accelerator = 18
class_code non_essential_instrumentation = 19
class_code co_processor = 64
class_code unassigned = 255

pub data Bridge : Type 0 where
  host : Bridge
  isa : Bridge
  eisa : Bridge
  mca : Bridge
  pci_to_pci : Bridge
  pcmcia : Bridge
  nubus : Bridge
  cardbus : Bridge
  raceway : Bridge
  pci_to_pci_host : Bridge
  infiniband_to_pci_host : Bridge
  other : Bridge

abbrev pub bridge_code : Bridge → ℕ
bridge_code host = 0
bridge_code isa = 1
bridge_code eisa = 2
bridge_code mca = 3
bridge_code pci_to_pci = 4
bridge_code pcmcia = 5
bridge_code nubus = 6
bridge_code cardbus = 7
bridge_code raceway = 8
bridge_code pci_to_pci_host = 9
bridge_code infiniband_to_pci_host = 10
bridge_code other = 128
