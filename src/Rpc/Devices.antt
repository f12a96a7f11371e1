-- ===== src/Rpc/Devices.antt =====
-- libirpc.c: `libusb_get_device_list` and `libusb_get_device_descriptor`.
use libirpc.Prelude.{
  ℕ, zero, suc, Bool, Option, none, some, List, [], ◌∷◌, ℤ, pos, negsuc, set, replicate, ltb, ◌==◌,
  is_negative, to_int, to_unsigned, if◌then◌else◌,
}
use libirpc.Types.{
  IrpcConnectionInfo, IrpcContext, context_client, context_server, usb_get_device_list,
  usb_get_device_descriptor, IrpcDevice, IrpcDeviceList, IrpcDeviceDescriptor, irpc_max_devs,
  irpc_success, irpc_failure,
}
use libirpc.Types.Bounds.{zero_device}
use libirpc.Tpl.Formats.{devlist_fmt, dev_fmt, desc_fmt}
use libirpc.Usb.{Libusb, LibusbDeviceDescriptor}
use libirpc.Proc.{Proc, done, tpl_write, tpl_read, ◌>>=◌, ◌>>◌}
use libirpc.Rpc.Base.{Globals, irpc_send_func}

-- `x++` on an `int`
abbrev pub increment : ℤ → ℤ
increment (pos n) = pos (suc n)
increment (negsuc zero) = pos 0
increment (negsuc (suc n)) = negsuc n

-- `bzero(&devlist, …)`
unfoldable pub zero_devlist : IrpcDeviceList
zero_devlist = record { n_devs = pos 0; devs = replicate irpc_max_devs zero_device }

-- `bzero(&idesc, …)`
unfoldable pub zero_descriptor : IrpcDeviceDescriptor
zero_descriptor = record {
  b_length = pos 0;
  b_descriptor_type = pos 0;
  bcd_usb = pos 0;
  b_device_class = pos 0;
  b_device_sub_class = pos 0;
  b_device_protocol = pos 0;
  b_max_packet_size0 = pos 0;
  id_vendor = pos 0;
  id_product = pos 0;
  bcd_device = pos 0;
  i_manufacturer = pos 0;
  i_product = pos 0;
  i_serial_number = pos 0;
  b_num_configurations = pos 0;
}

-- "Success, build descriptor"
unfoldable pub build_descriptor : LibusbDeviceDescriptor → IrpcDeviceDescriptor
build_descriptor d = record {
  b_length = pos d.b_length;
  b_descriptor_type = pos d.b_descriptor_type;
  bcd_usb = pos d.bcd_usb;
  b_device_class = pos d.b_device_class;
  b_device_sub_class = pos d.b_device_sub_class;
  b_device_protocol = pos d.b_device_protocol;
  b_max_packet_size0 = pos d.b_max_packet_size0;
  id_vendor = pos d.id_vendor;
  id_product = pos d.id_product;
  bcd_device = pos d.bcd_device;
  i_manufacturer = pos d.i_manufacturer;
  i_product = pos d.i_product;
  i_serial_number = pos d.i_serial_number;
  b_num_configurations = pos d.b_num_configurations;
}

module _ (L : Libusb) where
  -- The four assignments that copy a `libusb_device`. `session_data` is an `unsigned long` there
  -- and an `int` here.
  unfoldable pub reflect_device : L.Device → IrpcDevice
  reflect_device d = record {
    bus_number = pos (L.bus_number d);
    device_address = pos (L.device_address d);
    num_configurations = pos (L.num_configurations d);
    session_data = to_int (L.session_data d);
  }

  -- The loop of `irpc_send_usb_get_device_list`, from index `i`, over the rest of the list.
  unfoldable pub copy_devices : ℕ → List L.Device → IrpcDeviceList → IrpcDeviceList
  copy_devices i [] l = l
  copy_devices i (d ∷ ds) l =
      let rest =
        copy_devices (suc i) ds
          (record { n_devs = increment l.n_devs; devs = set l.devs i (reflect_device d) }) in
      if ltb i irpc_max_devs then rest else l

  -- What `cnt` and `list` give to a loop `for (i = 0; i < cnt; …)`.
  abbrev pub listed : Option (List L.Device) → List L.Device
  listed none = []
  listed (some ds) = ds

  -- `dev->session_data == idev.session_data`: the `int` is converted to `unsigned long` (64 bits).
  abbrev pub same_session : L.Device → IrpcDevice → Bool
  same_session d idev = L.session_data d == to_unsigned 64 idev.session_data

  -- "Find corresponding usb_device."
  unfoldable pub find_device : List L.Device → IrpcDevice → Option L.Device
  find_device [] idev = none
  find_device (d ∷ ds) idev = if same_session d idev then some d else find_device ds idev

module _ (L : Libusb) where
  unfoldable pub irpc_recv_usb_get_device_list : IrpcConnectionInfo → Proc IrpcDeviceList
  unfolding irpc_send_func
  irpc_recv_usb_get_device_list ci = do
    irpc_send_func usb_get_device_list ci.server_sock
    v ← tpl_read ci.server_sock devlist_fmt
    done (record { n_devs = v.0; devs = v.1.0 })

  unfoldable pub irpc_send_usb_get_device_list : IrpcConnectionInfo → Globals L → Proc (Globals L)
  irpc_send_usb_get_device_list ci g = do
    let r = L.get_device_list g.irpc_ctx g.usb
    let devlist = copy_devices L 0 (listed L r.0) zero_devlist
    tpl_write ci.client_sock devlist_fmt (devlist.n_devs, (devlist.devs, tt))
    done (record g { usb = L.free_device_list r.0 r.1 })

  unfoldable pub irpc_usb_get_device_list :
      IrpcConnectionInfo
      → IrpcContext
      → Globals L
      → IrpcDeviceList
      → Proc (IrpcDeviceList × Globals L)
  unfolding irpc_recv_usb_get_device_list irpc_send_usb_get_device_list
  irpc_usb_get_device_list ci context_server g devlist = do
    g' ← irpc_send_usb_get_device_list ci g
    done (devlist, g')
  irpc_usb_get_device_list ci context_client g devlist = do
    devlist' ← irpc_recv_usb_get_device_list ci
    done (devlist', g)

  unfoldable pub irpc_recv_usb_get_device_descriptor :
      IrpcConnectionInfo → IrpcDevice → Proc (ℤ × IrpcDeviceDescriptor)
  unfolding irpc_send_func
  irpc_recv_usb_get_device_descriptor ci idev = do
    irpc_send_func usb_get_device_descriptor ci.server_sock
    tpl_write ci.server_sock dev_fmt (idev, tt)
    v ← tpl_read ci.server_sock desc_fmt
    done (v.1.0, v.0)

  -- What is sent and the state that is left, by the two tests of the code: no device with the
  -- session, and a negative code of libusb. On both `goto send` skips the call that frees the list.
  unfoldable pub describe :
      Option (List L.Device) → Option L.Device → L.State → (ℤ × IrpcDeviceDescriptor) × L.State
  describe list none s = ((irpc_failure, zero_descriptor), s)
  describe list (some f) s =
      let r = L.get_device_descriptor f s in
      if is_negative r.0.0
      then ((irpc_failure, zero_descriptor), r.1)
      else ((irpc_success, build_descriptor r.0.1), L.free_device_list list r.1)

  unfoldable pub irpc_send_usb_get_device_descriptor :
      IrpcConnectionInfo → Globals L → Proc (Globals L)
  irpc_send_usb_get_device_descriptor ci g = do
    v ← tpl_read ci.client_sock dev_fmt
    let r = L.get_device_list g.irpc_ctx g.usb
    let d = describe r.0 (find_device L (listed L r.0) v.0) r.1
    tpl_write ci.client_sock desc_fmt (d.0.1, (d.0.0, tt))
    done (record g { usb = d.1 })

  unfoldable pub irpc_usb_get_device_descriptor :
      IrpcConnectionInfo
      → IrpcContext
      → Globals L
      → IrpcDevice
      → IrpcDeviceDescriptor
      → Proc ((ℤ × IrpcDeviceDescriptor) × Globals L)
  unfolding irpc_recv_usb_get_device_descriptor irpc_send_usb_get_device_descriptor
  irpc_usb_get_device_descriptor ci context_server g idev desc = do
    g' ← irpc_send_usb_get_device_descriptor ci g
    done ((irpc_success, desc), g')
  irpc_usb_get_device_descriptor ci context_client g idev desc = do
    r ← irpc_recv_usb_get_device_descriptor ci idev
    done (r, g)
