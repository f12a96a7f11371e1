-- ===== src/Types/Bounds.antt =====
-- The values that the structures of libirpc.h can hold: every `int` member in the range of a
-- 32-bit integer, every `char` in that of a signed byte, every array of its declared size.
use libirpc.Prelude.{ℕ, ◌*◌, ◌≡◌, List, ℤ, pos, IsInt, IsChar, length, All, arith}
use libirpc.Types.{IrpcDevice, IrpcDeviceDescriptor, IrpcInfo, irpc_max_devs, irpc_max_data}

pub record IsDevice (d : IrpcDevice) : Type 0 where
  pub bus_number : IsInt d.bus_number
  pub device_address : IsInt d.device_address
  pub num_configurations : IsInt d.num_configurations
  pub session_data : IsInt d.session_data

pub record IsDescriptor (d : IrpcDeviceDescriptor) : Type 0 where
  pub b_length : IsInt d.b_length
  pub b_descriptor_type : IsInt d.b_descriptor_type
  pub bcd_usb : IsInt d.bcd_usb
  pub b_device_class : IsInt d.b_device_class
  pub b_device_sub_class : IsInt d.b_device_sub_class
  pub b_device_protocol : IsInt d.b_device_protocol
  pub b_max_packet_size0 : IsInt d.b_max_packet_size0
  pub id_vendor : IsInt d.id_vendor
  pub id_product : IsInt d.id_product
  pub bcd_device : IsInt d.bcd_device
  pub i_manufacturer : IsInt d.i_manufacturer
  pub i_product : IsInt d.i_product
  pub i_serial_number : IsInt d.i_serial_number
  pub b_num_configurations : IsInt d.b_num_configurations

-- `n` bytes of memory.
pub record IsBytes (n : ℕ) (bytes : List ℤ) : Type 0 where
  pub size : length bytes ≡ n
  pub chars : All IsChar bytes

pub record IsDevices (n : ℕ) (devs : List IrpcDevice) : Type 0 where
  pub size : length devs ≡ n
  pub each : All IsDevice devs

pub record IsInfo (i : IrpcInfo) : Type 0 where
  pub dev : IsDevice i.dev
  pub n_devs : IsInt i.devlist.n_devs
  pub devs : IsDevices irpc_max_devs i.devlist.devs
  pub desc : IsDescriptor i.desc
  pub handle : IsDevice i.handle.dev
  pub vendor_id : IsInt i.vendor_id
  pub product_id : IsInt i.product_id
  pub intf : IsInt i.intf
  pub config : IsInt i.config
  pub alt_setting : IsInt i.alt_setting
  pub req_type : IsInt i.req_type
  pub req : IsInt i.req
  pub val : IsInt i.val
  pub idx : IsInt i.idx
  pub buffer : IsBytes irpc_max_data i.buffer
  pub buf : IsBytes (4 * irpc_max_data) i.buf
  pub length : IsInt i.length
  pub timeout : IsInt i.timeout
  pub endpoint : IsChar i.endpoint
  pub transfered : IsInt i.transfered
  pub status : IsInt i.status

abbrev pub zero_device : IrpcDevice
zero_device = record {
  bus_number = pos 0;
  device_address = pos 0;
  num_configurations = pos 0;
  session_data = pos 0;
}

pub zero_device-IsDevice : IsDevice zero_device
zero_device-IsDevice = omega arith
