-- ===== src/Local/Handles.antt =====
-- The handles of libusb that are open on the server's host, and the one that `irpc_handle` of
-- libirpc.c holds.
use libirpc.Prelude.{
  ℕ, ◌+◌, ◌-◌, ◌≡◌, refl, ◌∙◌, Option, none, some, List, Bool-cases, inl, inr, is_negative, ℤ,
  arith,
}
use libirpc.Types.{
  IrpcFunc, IrpcInfo, usb_init, usb_exit, usb_get_device_list, usb_get_device_descriptor,
  usb_open_device_with_vid_pid, usb_close, usb_open, usb_claim_interface, usb_release_interface,
  usb_get_configuration, usb_set_configuration, usb_set_interface_alt_setting, usb_reset_device,
  usb_control_transfer, usb_bulk_transfer, usb_clear_halt, usb_get_string_descriptor_ascii,
}
use libirpc.Usb.{Libusb}
use libirpc.Rpc.Base.{Globals, Uninit}
use libirpc.Rpc.Devices.{describe}
use libirpc.Rpc.Open.{close_handle, open_found, opened}
use libirpc.Local.{local_call}

abbrev pub held : {A : Type 0} → Option A → ℕ
held none = 0
held (some h) = 1

-- A number that libusb's calls leave as it is, but for those that begin and end its use, open and
-- close devices, and get and free lists of devices.
pub record IsKept (L : Libusb) (count : L.State → ℕ) : Type 0 where
  pub get_device_descriptor :
      (d : L.Device) (s : L.State) → count (L.get_device_descriptor d s).1 ≡ count s
  pub claim_interface :
      (h : Option L.Handle) (n : ℤ) (s : L.State) → count (L.claim_interface h n s).1 ≡ count s
  pub release_interface :
      (h : Option L.Handle) (n : ℤ) (s : L.State) → count (L.release_interface h n s).1 ≡ count s
  pub get_configuration :
      (h : Option L.Handle) (s : L.State) → count (L.get_configuration h s).1 ≡ count s
  pub set_configuration :
      (h : Option L.Handle) (n : ℤ) (s : L.State) → count (L.set_configuration h n s).1 ≡ count s
  pub set_interface_alt_setting :
      (h : Option L.Handle) (n a : ℤ) (s : L.State)
      → count (L.set_interface_alt_setting h n a s).1 ≡ count s
  pub reset_device : (h : Option L.Handle) (s : L.State) → count (L.reset_device h s).1 ≡ count s
  pub clear_halt :
      (h : Option L.Handle) (e : ℕ) (s : L.State) → count (L.clear_halt h e s).1 ≡ count s
  pub control_transfer :
      (h : Option L.Handle) (a b c d : ℕ) (buffer : List ℤ) (n t : ℕ) (s : L.State)
      → count (L.control_transfer h a b c d buffer n t s).1 ≡ count s
  pub bulk_transfer :
      (h : Option L.Handle) (e : ℕ) (buffer : List ℤ) (n : ℤ) (t : ℕ) (s : L.State)
      → count (L.bulk_transfer h e buffer n t s).1 ≡ count s
  pub get_string_descriptor_ascii :
      (h : Option L.Handle) (i : ℕ) (buffer : List ℤ) (n : ℤ) (s : L.State)
      → count (L.get_string_descriptor_ascii h i buffer n s).1 ≡ count s

-- `handles` counts the open handles of libusb: opening a device adds one where it succeeds, closing
-- takes one away, and no other call changes their number.
pub record IsCount (L : Libusb) (handles : L.State → ℕ) : Type 0 where
  pub kept : IsKept L handles
  pub init : (c : Option L.Context) (s : L.State) → handles (L.init c s).1 ≡ handles s
  pub exit : (c : Option L.Context) (s : L.State) → handles (L.exit c s) ≡ handles s
  pub get_device_list :
      (c : Option L.Context) (s : L.State) → handles (L.get_device_list c s).1 ≡ handles s
  pub free_device_list :
      (l : Option (List L.Device)) (s : L.State) → handles (L.free_device_list l s) ≡ handles s
  pub open_device_with_vid_pid :
      (c : Option L.Context) (v p : ℕ) (s : L.State)
      → handles (L.open_device_with_vid_pid c v p s).1
        ≡ held (L.open_device_with_vid_pid c v p s).0 + handles s
  pub open_device :
      (d : L.Device) (s : L.State)
      → handles (L.open_device d s).1 ≡ held (L.open_device d s).0 + handles s
  pub close : (h : L.Handle) (s : L.State) → handles (L.close h s) ≡ handles s - 1

module _ (L : Libusb) (handles : L.State → ℕ) (count : IsCount L handles) where
  -- The open handles are the one that the server holds, or none.
  abbrev pub HoldsAll : Globals L → Type 0
  HoldsAll g = handles g.usb ≡ held g.irpc_handle

  close_handle-zero :
      (h : Option L.Handle) (s : L.State) → handles s ≡ held h → handles (close_handle L h s) ≡ 0
  close_handle-zero none s e = e
  close_handle-zero (some h) s e = omega (arith, count.close h s)

  describe-handles :
      (list : Option (List L.Device)) (f : Option L.Device) (s : L.State)
      → handles (describe L list f s).1 ≡ handles s
  unfolding describe
  describe-handles list none s = refl
  describe-handles list (some f) s =
      elim (Bool-cases (is_negative (L.get_device_descriptor f s).0.0)) [
        | inl failed ↦ rw failed (count.kept.get_device_descriptor f s)
        | inr fine ↦ rw fine (count.free_device_list list _ ∙ count.kept.get_device_descriptor f s)
      ]

  opened-HoldsAll :
      (u : Uninit) (g : Globals L) (list : Option (List L.Device)) (r : Option L.Handle × L.State)
      → handles r.1 ≡ held r.0
      → HoldsAll (opened L u g list r).1
  opened-HoldsAll u g list (none, s) e = e
  opened-HoldsAll u g list (some h, s) e = count.free_device_list list s ∙ e

  open_found-HoldsAll :
      (u : Uninit) (g : Globals L) (list : Option (List L.Device)) (f : Option L.Device)
      (s : L.State)
      → handles s ≡ held g.irpc_handle
      → HoldsAll (open_found L u g list f s).1
  unfolding open_found
  open_found-HoldsAll u g list none s e = e
  open_found-HoldsAll u g list (some f) s e = opened-HoldsAll u g list _ (
      omega (
        arith,
        count.open_device f (close_handle L g.irpc_handle s),
        close_handle-zero g.irpc_handle s e,
      ))

  -- No call loses a handle, on its failures too: if the open handles of libusb are the one in
  -- `irpc_handle`, or none where that is NULL, they are so after any call. Assumed: libusb's
  -- count of open handles grows by one where an open succeeds, shrinks by one at a close, and is
  -- changed by no other call.
  pub local_call-HoldsAll :
      (f : IrpcFunc) (u : Uninit) (g : Globals L) (i : IrpcInfo)
      → HoldsAll g
      → HoldsAll (local_call L f u g i).globals
  unfolding local_call
  local_call-HoldsAll usb_init u g i h = count.init _ _ ∙ h
  local_call-HoldsAll usb_exit u g i h = count.exit _ _ ∙ h
  local_call-HoldsAll usb_get_device_list u g i h =
      count.free_device_list _ _ ∙ count.get_device_list _ _ ∙ h
  local_call-HoldsAll usb_get_device_descriptor u g i h =
      describe-handles _ _ _ ∙ count.get_device_list _ _ ∙ h
  local_call-HoldsAll usb_open_device_with_vid_pid u g i h = omega (
    arith,
    count.open_device_with_vid_pid g.irpc_ctx _ _ (close_handle L g.irpc_handle g.usb),
    close_handle-zero g.irpc_handle g.usb h,
  )
  local_call-HoldsAll usb_close u g i h = close_handle-zero g.irpc_handle g.usb h
  local_call-HoldsAll usb_open u g i h =
      open_found-HoldsAll u g _ _ _ (count.get_device_list _ _ ∙ h)
  local_call-HoldsAll usb_claim_interface u g i h = count.kept.claim_interface _ _ _ ∙ h
  local_call-HoldsAll usb_release_interface u g i h = count.kept.release_interface _ _ _ ∙ h
  local_call-HoldsAll usb_get_configuration u g i h = count.kept.get_configuration _ _ ∙ h
  local_call-HoldsAll usb_set_configuration u g i h = count.kept.set_configuration _ _ _ ∙ h
  local_call-HoldsAll usb_set_interface_alt_setting u g i h =
      count.kept.set_interface_alt_setting _ _ _ _ ∙ h
  local_call-HoldsAll usb_reset_device u g i h = count.kept.reset_device _ _ ∙ h
  local_call-HoldsAll usb_control_transfer u g i h =
      count.kept.control_transfer _ _ _ _ _ _ _ _ _ ∙ h
  local_call-HoldsAll usb_bulk_transfer u g i h = count.kept.bulk_transfer _ _ _ _ _ _ ∙ h
  local_call-HoldsAll usb_clear_halt u g i h = count.kept.clear_halt _ _ _ ∙ h
  local_call-HoldsAll usb_get_string_descriptor_ascii u g i h =
      count.kept.get_string_descriptor_ascii _ _ _ _ _ ∙ h
