-- ===== src/Types/Zero.antt =====
-- `bzero(&info, sizeof(struct irpc_info))`, with which both clients and the server start.
use libirpc.Prelude.{ℕ, ◌*◌, pos, IsChar, length-replicate, All-replicate, replicate, arith}
use libirpc.Types.{IrpcInfo, irpc_max_devs, irpc_max_data}
use libirpc.Types.Bounds.{zero_device, zero_device-IsDevice, IsDevice, IsDevices, IsBytes, IsInfo}

unfoldable pub zero_info : IrpcInfo
zero_info = record {
  ci = record { client_sock = pos 0; server_sock = pos 0 };
  dev = zero_device;
  devlist = record { n_devs = pos 0; devs = replicate irpc_max_devs zero_device };
  desc = record {
    b_length = pos 0;
    b_descriptor_type = pos 0;
    bcd_usb = pos 0;
    b_device_class = pos 0;
    b_device_sub_class = pos 0;
    b_device_protocol = pos 0;
    b_max_packet_size0 = pos 0;
    id_vendor = pos 0;
    id_product = pos 0;
    bcd_device = pos 0;
    i_manufacturer = pos 0;
    i_product = pos 0;
    i_serial_number = pos 0;
    b_num_configurations = pos 0;
  };
  handle = record { dev = zero_device };
  vendor_id = pos 0;
  product_id = pos 0;
  intf = pos 0;
  config = pos 0;
  alt_setting = pos 0;
  req_type = pos 0;
  req = pos 0;
  val = pos 0;
  idx = pos 0;
  buffer = replicate irpc_max_data (pos 0);
  buf = replicate (4 * irpc_max_data) (pos 0);
  length = pos 0;
  timeout = pos 0;
  endpoint = pos 0;
  transfered = pos 0;
  status = pos 0;
}

zeros-IsBytes : (n : ℕ) → IsBytes n (replicate n (pos 0))
zeros-IsBytes n = record {
  size = length-replicate n (pos 0);
  chars = All-replicate IsChar n (pos 0) (omega arith);
}

zeros-IsDevices : (n : ℕ) → IsDevices n (replicate n zero_device)
zeros-IsDevices n = record {
  size = length-replicate n zero_device;
  each = All-replicate IsDevice n zero_device zero_device-IsDevice;
}

pub zero_info-IsInfo : IsInfo zero_info
unfolding zero_info
zero_info-IsInfo = record {
  dev = omega arith;
  n_devs = omega arith;
  devs = zeros-IsDevices irpc_max_devs;
  desc = omega arith;
  handle = omega arith;
  vendor_id = omega arith;
  product_id = omega arith;
  intf = omega arith;
  config = omega arith;
  alt_setting = omega arith;
  req_type = omega arith;
  req = omega arith;
  val = omega arith;
  idx = omega arith;
  buffer = zeros-IsBytes irpc_max_data;
  buf = zeros-IsBytes (4 * irpc_max_data);
  length = omega arith;
  timeout = omega arith;
  endpoint = omega arith;
  transfered = omega arith;
  status = omega arith;
}
