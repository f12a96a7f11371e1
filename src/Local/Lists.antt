-- ===== src/Local/Lists.antt =====
-- The device lists that libirpc.c gets from libusb and frees, or forgets to free.
use libirpc.Prelude.{
  ℕ, ◌+◌, ◌-◌, ◌≡◌, refl, Option, none, some, List, Bool-cases, inl, inr, ℤ, eq_ℤ, is_negative,
  if◌then◌else◌, arith,
}
use libirpc.Types.{
  IrpcFunc, IrpcInfo, irpc_success, usb_init, usb_exit, usb_get_device_list,
  usb_get_device_descriptor, usb_open_device_with_vid_pid, usb_close, usb_open, usb_claim_interface,
  usb_release_interface, usb_get_configuration, usb_set_configuration,
  usb_set_interface_alt_setting, usb_reset_device, usb_control_transfer, usb_bulk_transfer,
  usb_clear_halt, usb_get_string_descriptor_ascii,
}
use libirpc.Usb.{Libusb}
use libirpc.Rpc.Base.{Globals, Uninit}
use libirpc.Rpc.Devices.{describe}
use libirpc.Rpc.Open.{close_handle, open_found, opened}
use libirpc.Local.{local_call}
use libirpc.Local.Handles.{held, IsKept}

-- `lists` counts the device lists that libusb handed out and that are not freed.
pub record IsListCount (L : Libusb) (lists : L.State → ℕ) : Type 0 where
  pub kept : IsKept L lists
  pub init : (c : Option L.Context) (s : L.State) → lists (L.init c s).1 ≡ lists s
  pub exit : (c : Option L.Context) (s : L.State) → lists (L.exit c s) ≡ lists s
  pub get_device_list :
      (c : Option L.Context) (s : L.State)
      → lists (L.get_device_list c s).1 ≡ held (L.get_device_list c s).0 + lists s
  pub free_device_list :
      (l : Option (List L.Device)) (s : L.State) → lists (L.free_device_list l s) ≡ lists s - held l
  pub open_device_with_vid_pid :
      (c : Option L.Context) (v p : ℕ) (s : L.State)
      → lists (L.open_device_with_vid_pid c v p s).1 ≡ lists s
  pub open_device : (d : L.Device) (s : L.State) → lists (L.open_device d s).1 ≡ lists s
  pub close : (h : L.Handle) (s : L.State) → lists (L.close h s) ≡ lists s

-- The lists that a call with this result leaves behind, where it got the list `l`.
abbrev pub leaked : {A : Type 0} → IrpcFunc → Option A → ℤ → ℕ
leaked usb_get_device_descriptor l retval = if eq_ℤ retval irpc_success then 0 else held l
leaked usb_open l retval = if eq_ℤ retval irpc_success then 0 else held l
leaked _ l retval = 0

module _ (L : Libusb) (lists : L.State → ℕ) (count : IsListCount L lists) where
  close_handle-lists : (h : Option L.Handle) (s : L.State) → lists (close_handle L h s) ≡ lists s
  close_handle-lists none s = refl
  close_handle-lists (some h) s = count.close h s

  describe-lists :
      (l : Option (List L.Device)) (f : Option L.Device) (s : L.State) (n : ℕ)
      → lists s ≡ held l + n
      → lists (describe L l f s).1 ≡ n + leaked usb_get_device_descriptor l (describe L l f s).0.0
  unfolding describe
  describe-lists l none s n e = omega arith
  describe-lists l (some f) s n e =
      elim (Bool-cases (is_negative (L.get_device_descriptor f s).0.0)) [
        | inl failed ↦ rw failed (omega (arith, count.kept.get_device_descriptor f s))
        | inr fine ↦ rw fine (
            omega (
              arith,
              count.kept.get_device_descriptor f s,
              count.free_device_list l (L.get_device_descriptor f s).1,
            ))
      ]

  opened-lists :
      (u : Uninit) (g : Globals L) (l : Option (List L.Device)) (r : Option L.Handle × L.State)
      (n : ℕ)
      → lists r.1 ≡ held l + n
      → lists (opened L u g l r).1.usb ≡ n + leaked usb_open l (opened L u g l r).0.0
  opened-lists u g l (none, s) n e = omega arith
  opened-lists u g l (some h, s) n e = omega (arith, count.free_device_list l s)

  open_found-lists :
      (u : Uninit) (g : Globals L) (l : Option (List L.Device)) (f : Option L.Device) (s : L.State)
      (n : ℕ)
      → lists s ≡ held l + n
      → lists (open_found L u g l f s).1.usb ≡ n + leaked usb_open l (open_found L u g l f s).0.0
  unfolding open_found
  open_found-lists u g l none s n e = omega arith
  open_found-lists u g l (some f) s n e =
      opened-lists u g l (L.open_device f (close_handle L g.irpc_handle s)) n (
        omega (
          arith,
          count.open_device f (close_handle L g.irpc_handle s),
          close_handle-lists g.irpc_handle s,
        ))

  -- After any call as many of libusb's device lists are left unfreed as before, and one more
  -- exactly where libusb handed out a list to a call for a device's descriptor, or to open a
  -- device, that does not return success. Assumed: a count of the unfreed lists that grows by one
  -- where libusb hands out a list, shrinks by one where one is freed, and is changed by no other
  -- call.
  pub local_call-lists :
      (f : IrpcFunc) (u : Uninit) (g : Globals L) (i : IrpcInfo)
      → lists (local_call L f u g i).globals.usb
        ≡ lists g.usb
          + leaked f (L.get_device_list g.irpc_ctx g.usb).0 (local_call L f u g i).retval
  unfolding local_call
  local_call-lists usb_init u g i = omega (arith, count.init g.irpc_ctx g.usb)
  local_call-lists usb_exit u g i = omega (arith, count.exit g.irpc_ctx g.usb)
  local_call-lists usb_get_device_list u g i =
      let r = L.get_device_list g.irpc_ctx g.usb in
      omega (arith, count.get_device_list g.irpc_ctx g.usb, count.free_device_list r.0 r.1)
  local_call-lists usb_get_device_descriptor u g i =
      describe-lists _ _ _ (lists g.usb) (count.get_device_list g.irpc_ctx g.usb)
  local_call-lists usb_open_device_with_vid_pid u g i = omega (
    arith,
    count.open_device_with_vid_pid g.irpc_ctx _ _ (close_handle L g.irpc_handle g.usb),
    close_handle-lists g.irpc_handle g.usb,
  )
  local_call-lists usb_close u g i = omega (arith, close_handle-lists g.irpc_handle g.usb)
  local_call-lists usb_open u g i =
      open_found-lists u g _ _ _ (lists g.usb) (count.get_device_list g.irpc_ctx g.usb)
  local_call-lists usb_claim_interface u g i =
      omega (arith, count.kept.claim_interface g.irpc_handle i.intf g.usb)
  local_call-lists usb_release_interface u g i =
      omega (arith, count.kept.release_interface g.irpc_handle i.intf g.usb)
  local_call-lists usb_get_configuration u g i =
      omega (arith, count.kept.get_configuration g.irpc_handle g.usb)
  local_call-lists usb_set_configuration u g i =
      omega (arith, count.kept.set_configuration g.irpc_handle i.config g.usb)
  local_call-lists usb_set_interface_alt_setting u g i =
      omega (arith, count.kept.set_interface_alt_setting g.irpc_handle i.intf i.alt_setting g.usb)
  local_call-lists usb_reset_device u g i =
      omega (arith, count.kept.reset_device g.irpc_handle g.usb)
  local_call-lists usb_control_transfer u g i =
      omega (arith, count.kept.control_transfer g.irpc_handle _ _ _ _ u.buffer _ _ g.usb)
  local_call-lists usb_bulk_transfer u g i =
      omega (arith, count.kept.bulk_transfer g.irpc_handle _ u.buffer i.length _ g.usb)
  local_call-lists usb_clear_halt u g i = omega (arith, count.kept.clear_halt g.irpc_handle _ g.usb)
  local_call-lists usb_get_string_descriptor_ascii u g i =
      omega (arith, count.kept.get_string_descriptor_ascii g.irpc_handle _ u.buffer i.length g.usb)
