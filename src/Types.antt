-- ===== src/Types.antt =====
-- libirpc.h: the function codes, the structures that mirror libusb's, and `struct irpc_info`.
pub mod Bounds
pub mod Codes
pub mod Updates
pub mod Zero
use libirpc.Prelude.{ℕ, zero, suc, Option, none, some, List, [], ◌∷◌, ℤ, pos, negsuc, get_elem?}

abbrev pub irpc_max_devs : ℕ
irpc_max_devs = 256

abbrev pub irpc_max_data : ℕ
irpc_max_data = 1024

-- `enum irpc_func`
pub data IrpcFunc : Type 0 where
  usb_init usb_exit usb_get_device_list usb_get_device_descriptor : IrpcFunc
  usb_open_device_with_vid_pid usb_close usb_open : IrpcFunc
  usb_claim_interface usb_release_interface : IrpcFunc
  usb_get_configuration usb_set_configuration usb_set_interface_alt_setting : IrpcFunc
  usb_reset_device usb_control_transfer usb_bulk_transfer usb_clear_halt : IrpcFunc
  usb_get_string_descriptor_ascii : IrpcFunc

-- The number that the C enumeration gives to a constant.
unfoldable pub func_code : IrpcFunc → ℕ
func_code usb_init = 0
func_code usb_exit = 1
func_code usb_get_device_list = 2
func_code usb_get_device_descriptor = 3
func_code usb_open_device_with_vid_pid = 4
func_code usb_close = 5
func_code usb_open = 6
func_code usb_claim_interface = 7
func_code usb_release_interface = 8
func_code usb_get_configuration = 9
func_code usb_set_configuration = 10
func_code usb_set_interface_alt_setting = 11
func_code usb_reset_device = 12
func_code usb_control_transfer = 13
func_code usb_bulk_transfer = 14
func_code usb_clear_halt = 15
func_code usb_get_string_descriptor_ascii = 16

abbrev pub all_funcs : List IrpcFunc
all_funcs =
    usb_init ∷ usb_exit ∷ usb_get_device_list ∷ usb_get_device_descriptor
    ∷ usb_open_device_with_vid_pid ∷ usb_close ∷ usb_open ∷ usb_claim_interface
    ∷ usb_release_interface ∷ usb_get_configuration ∷ usb_set_configuration
    ∷ usb_set_interface_alt_setting ∷ usb_reset_device ∷ usb_control_transfer ∷ usb_bulk_transfer
    ∷ usb_clear_halt ∷ usb_get_string_descriptor_ascii ∷ []

-- The `case` label that a received number selects; `none` is the `default` label.
unfoldable pub func_of : ℤ → Option IrpcFunc
func_of (pos n) = get_elem? all_funcs n
func_of (negsuc n) = none

-- `enum irpc_context`
pub data IrpcContext : Type 0 where
  context_client context_server : IrpcContext

-- `enum irpc_retval`; an `irpc_retval_t` variable holds any `int`, since libusb's codes are
-- assigned to it.
abbrev pub irpc_failure : ℤ
irpc_failure = negsuc 0

abbrev pub irpc_success : ℤ
irpc_success = pos 0

-- `irpc_device`
pub record IrpcDevice : Type 0 where
  pub bus_number : ℤ
  pub device_address : ℤ
  pub num_configurations : ℤ
  pub session_data : ℤ

-- `irpc_device_handle`
pub record IrpcDeviceHandle : Type 0 where
  pub dev : IrpcDevice

-- `struct irpc_device_list`
pub record IrpcDeviceList : Type 0 where
  pub n_devs : ℤ
  pub devs : List IrpcDevice

-- `struct irpc_device_descriptor`
pub record IrpcDeviceDescriptor : Type 0 where
  pub b_length : ℤ
  pub b_descriptor_type : ℤ
  pub bcd_usb : ℤ
  pub b_device_class : ℤ
  pub b_device_sub_class : ℤ
  pub b_device_protocol : ℤ
  pub b_max_packet_size0 : ℤ
  pub id_vendor : ℤ
  pub id_product : ℤ
  pub bcd_device : ℤ
  pub i_manufacturer : ℤ
  pub i_product : ℤ
  pub i_serial_number : ℤ
  pub b_num_configurations : ℤ

-- `struct irpc_connection_info`
pub record IrpcConnectionInfo : Type 0 where
  pub client_sock : ℤ
  pub server_sock : ℤ

-- `struct irpc_info`. `buf`, an array of `int` that stands
-- right behind `data`, is given by its bytes.
pub record IrpcInfo : Type 0 where
  pub ci : IrpcConnectionInfo
  pub dev : IrpcDevice
  pub devlist : IrpcDeviceList
  pub desc : IrpcDeviceDescriptor
  pub handle : IrpcDeviceHandle
  pub vendor_id : ℤ
  pub product_id : ℤ
  pub intf : ℤ
  pub config : ℤ
  pub alt_setting : ℤ
  pub req_type : ℤ
  pub req : ℤ
  pub val : ℤ
  pub idx : ℤ
  pub buffer : List ℤ
  pub buf : List ℤ
  pub length : ℤ
  pub timeout : ℤ
  pub endpoint : ℤ
  pub transfered : ℤ
  pub status : ℤ
