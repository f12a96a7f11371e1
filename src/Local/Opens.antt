-- ===== src/Local/Opens.antt =====
-- What the caller of `IRPC_USB_OPEN` gets (`irpc_send_usb_open`, libirpc.c).
use libirpc.Prelude.{◌≡◌, ◌⊎◌, refl, inl, inr, Option, none, some, List, ℤ}
use libirpc.Types.{IrpcInfo, IrpcDeviceHandle, usb_open, irpc_success, irpc_failure}
use libirpc.Usb.{Libusb}
use libirpc.Rpc.Base.{Globals, Uninit}
use libirpc.Rpc.Devices.{find_device, listed}
use libirpc.Rpc.Open.{reflect_handle, opened, open_found}
use libirpc.Local.{local_call}

module _ (L : Libusb) where
  -- The result and the handle that the caller gets, and the handle that the server holds: an open
  -- device, or a failure with whatever the server's uninitialised variable held.
  abbrev pub OpensOrFails : Uninit → (ℤ × IrpcDeviceHandle) × Globals L → Type 0
  OpensOrFails u o =
      ((k : L.Handle) × (o.0.0 ≡ irpc_success)
        × (o.0.1 ≡ reflect_handle L k)
        × (o.1.irpc_handle ≡ some k))
      ⊎ ((o.0.0 ≡ irpc_failure) × (o.0.1 ≡ u.handle))

  opened-OpensOrFails :
      (u : Uninit) (g : Globals L) (l : Option (List L.Device)) (r : Option L.Handle × L.State)
      → OpensOrFails u (opened L u g l r)
  opened-OpensOrFails u g l (none, s) = inr (refl, refl)
  opened-OpensOrFails u g l (some k, s) = inl (k, refl, refl, refl)

  open_found-OpensOrFails :
      (u : Uninit) (g : Globals L) (l : Option (List L.Device)) (f : Option L.Device) (s : L.State)
      → OpensOrFails u (open_found L u g l f s)
  unfolding open_found
  open_found-OpensOrFails u g l none s = inr (refl, refl)
  open_found-OpensOrFails u g l (some f) s = opened-OpensOrFails u g l _

  pub local_call-OpensOrFails :
      (u : Uninit) (g : Globals L) (i : IrpcInfo)
      → let c = local_call L usb_open u g i in OpensOrFails u ((c.retval, c.info.handle), c.globals)
  unfolding local_call
  local_call-OpensOrFails u g i =
      let r = L.get_device_list g.irpc_ctx g.usb in
      open_found-OpensOrFails u g r.0 (find_device L (listed L r.0) i.dev) r.1
