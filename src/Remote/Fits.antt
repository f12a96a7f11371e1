-- ===== src/Remote/Fits.antt =====
-- The values that the server packs, and the C types that the formats name.
use libirpc.Prelude.{
  ℕ, ◌≤◌, Option, none, some, List, ◌++◌, ℤ, pos, IsInt, IsChar, length, drop, map, replicate, All,
  All-append, All-drop, All-take, All-map, All-replicate, All-get_or, length-append, length-drop,
  length-take, length-replicate, to_int-IsInt, is_negative, Bool-cases, inl, inr, arith,
}
use libirpc.Types.{irpc_max_devs, IrpcDevice}
use libirpc.Types.Bounds.{
  IsDevice, IsDescriptor, IsBytes, IsDevices, zero_device, zero_device-IsDevice,
}
use libirpc.Usb.{Libusb, LibusbDeviceDescriptor, IsLibusbDescriptor, IsTyped}
use libirpc.Rpc.Base.{Globals, Uninit, IsUninit, zero_or_failure}
use libirpc.Rpc.Devices.{reflect_device, build_descriptor, zero_descriptor, describe}
use libirpc.Rpc.Open.{handle_or_zero, opened, open_found}
use libirpc.Rpc.Transfer.{status_of}
use libirpc.Local.{overlay}
use libirpc.Local.Table.{device_table}

pub zero_or_failure-IsInt : (code : ℤ) → IsInt (zero_or_failure code)
unfolding zero_or_failure
zero_or_failure-IsInt code = ground arith

pub build_descriptor-IsDescriptor :
    (d : LibusbDeviceDescriptor) → IsLibusbDescriptor d → IsDescriptor (build_descriptor d)
unfolding build_descriptor
build_descriptor-IsDescriptor d h = omega arith

pub zero_descriptor-IsDescriptor : IsDescriptor zero_descriptor
unfolding zero_descriptor
zero_descriptor-IsDescriptor = omega arith

pub overlay-IsBytes :
    (n : ℕ) (written buffer : List ℤ)
    → length written ≤ n
    → All IsChar written
    → IsBytes n buffer
    → IsBytes n (overlay written buffer)
overlay-IsBytes n written buffer short chars b = record {
  size = omega (
    arith,
    length-append written (drop (length written) buffer),
    length-drop (length written) buffer,
    b.size,
  );
  chars =
      All-append IsChar written (drop (length written) buffer) chars
        (All-drop IsChar (length written) buffer b.chars);
}

pub status_of-IsInt :
    (code : ℤ) (n : ℕ) (buffer : List ℤ) → IsBytes n buffer → IsInt (status_of code buffer)
unfolding status_of
status_of-IsInt code n buffer b = ground (arith, All-get_or IsChar buffer 4 (pos 0) b.chars)

module _ (L : Libusb) (typed : IsTyped L) where
  pub reflect_device-IsDevice : (d : L.Device) → IsDevice (reflect_device L d)
  unfolding reflect_device
  reflect_device-IsDevice d = omega (
    arith,
    typed.bus_number d,
    typed.device_address d,
    typed.num_configurations d,
    to_int-IsInt (L.session_data d),
  )

  pub device_table-IsDevices :
      (ds : List L.Device) → IsDevices irpc_max_devs (device_table L ds).devs
  unfolding device_table
  device_table-IsDevices ds = record {
    size = omega (
      arith,
      length-take irpc_max_devs all,
      length-append (map (reflect_device L) ds) zeros,
      length-replicate irpc_max_devs zero_device,
    );
    each = All-take IsDevice irpc_max_devs all (
        All-append IsDevice (map (reflect_device L) ds) zeros
          (All-map IsDevice (reflect_device L) ds reflect_device-IsDevice)
          (All-replicate IsDevice irpc_max_devs zero_device zero_device-IsDevice));
  }
    where
      zeros : List IrpcDevice
      zeros = replicate irpc_max_devs zero_device

      all : List IrpcDevice
      all = map (reflect_device L) ds ++ zeros

  pub device_table-n_devs : (ds : List L.Device) → IsInt (device_table L ds).n_devs
  unfolding device_table
  device_table-n_devs ds = omega arith

  pub describe-Fits :
      (list : Option (List L.Device)) (f : Option L.Device) (s : L.State)
      → IsDescriptor (describe L list f s).0.1 × IsInt (describe L list f s).0.0
  unfolding describe
  describe-Fits list none s = (zero_descriptor-IsDescriptor, omega arith)
  describe-Fits list (some f) s =
      elim (Bool-cases (is_negative (L.get_device_descriptor f s).0.0)) [
        | inl failed ↦ rw failed (zero_descriptor-IsDescriptor, omega arith)
        | inr fine ↦ rw fine (build_descriptor-IsDescriptor _ (typed.descriptor f s), omega arith)
      ]

  pub handle_or_zero-IsDevice : (h : Option L.Handle) → IsDevice (handle_or_zero L h).dev
  unfolding handle_or_zero
  handle_or_zero-IsDevice none = zero_device-IsDevice
  handle_or_zero-IsDevice (some h) = reflect_device-IsDevice (L.handle_dev h)

  opened-Fits :
      (u : Uninit) (g : Globals L) (list : Option (List L.Device)) (r : Option L.Handle × L.State)
      → IsUninit u
      → IsDevice (opened L u g list r).0.1.dev × IsInt (opened L u g list r).0.0
  opened-Fits u g list (none, s) h = (h.handle, omega arith)
  opened-Fits u g list (some x, s) h = (reflect_device-IsDevice (L.handle_dev x), omega arith)

  pub open_found-Fits :
      (u : Uninit) (g : Globals L) (list : Option (List L.Device)) (f : Option L.Device)
      (s : L.State)
      → IsUninit u
      → IsDevice (open_found L u g list f s).0.1.dev × IsInt (open_found L u g list f s).0.0
  unfolding open_found
  open_found-Fits u g list none s h = (h.handle, omega arith)
  open_found-Fits u g list (some f) s h = opened-Fits u g list _ h
