-- ===== src/Local/Contexts.antt =====
-- The contexts of libusb that libirpc.c begins and ends on the server's host.
use libirpc.Prelude.{
  ℕ, suc, ◌+◌, ◌-◌, ◌≡◌, refl, ◌∙◌, false, Bool-cases, inl, inr, Option, none, some, List, ℤ,
  is_negative, if◌then◌else◌, arith,
}
use libirpc.Types.{
  IrpcFunc, IrpcInfo, usb_init, usb_exit, usb_get_device_list, usb_get_device_descriptor,
  usb_open_device_with_vid_pid, usb_close, usb_open, usb_claim_interface, usb_release_interface,
  usb_get_configuration, usb_set_configuration, usb_set_interface_alt_setting, usb_reset_device,
  usb_control_transfer, usb_bulk_transfer, usb_clear_halt, usb_get_string_descriptor_ascii,
}
use libirpc.Usb.{Libusb}
use libirpc.Rpc.Base.{Globals, Uninit}
use libirpc.Rpc.Devices.{describe}
use libirpc.Rpc.Open.{close_handle, open_found, opened}
use libirpc.Local.{local_call}
use libirpc.Local.Handles.{IsKept}

-- `contexts` counts the contexts of libusb that are not ended: `libusb_init` adds one where it does
-- not fail, `libusb_exit` takes one away, and no other call changes their number.
pub record IsContextCount (L : Libusb) (contexts : L.State → ℕ) : Type 0 where
  pub kept : IsKept L contexts
  pub init :
      (c : Option L.Context) (s : L.State)
      → contexts (L.init c s).1
        ≡ (if is_negative (L.init c s).0.0 then contexts s else suc (contexts s))
  pub exit : (c : Option L.Context) (s : L.State) → contexts (L.exit c s) ≡ contexts s - 1
  pub get_device_list :
      (c : Option L.Context) (s : L.State) → contexts (L.get_device_list c s).1 ≡ contexts s
  pub free_device_list :
      (l : Option (List L.Device)) (s : L.State) → contexts (L.free_device_list l s) ≡ contexts s
  pub open_device_with_vid_pid :
      (c : Option L.Context) (v p : ℕ) (s : L.State)
      → contexts (L.open_device_with_vid_pid c v p s).1 ≡ contexts s
  pub open_device : (d : L.Device) (s : L.State) → contexts (L.open_device d s).1 ≡ contexts s
  pub close : (h : L.Handle) (s : L.State) → contexts (L.close h s) ≡ contexts s

-- The contexts after a call with this result, where there were `n` before.
abbrev pub tally : IrpcFunc → ℤ → ℕ → ℕ
tally usb_init retval n = if is_negative retval then n else suc n
tally usb_exit retval n = n - 1
tally _ retval n = n

module _ (L : Libusb) (contexts : L.State → ℕ) (count : IsContextCount L contexts) where
  close_handle-contexts :
      (h : Option L.Handle) (s : L.State) → contexts (close_handle L h s) ≡ contexts s
  close_handle-contexts none s = refl
  close_handle-contexts (some h) s = count.close h s

  describe-contexts :
      (l : Option (List L.Device)) (f : Option L.Device) (s : L.State)
      → contexts (describe L l f s).1 ≡ contexts s
  unfolding describe
  describe-contexts l none s = refl
  describe-contexts l (some f) s =
      elim (Bool-cases (is_negative (L.get_device_descriptor f s).0.0)) [
        | inl failed ↦ rw failed (count.kept.get_device_descriptor f s)
        | inr fine ↦ rw fine (count.free_device_list l _ ∙ count.kept.get_device_descriptor f s)
      ]

  opened-contexts :
      (u : Uninit) (g : Globals L) (l : Option (List L.Device)) (r : Option L.Handle × L.State)
      → contexts (opened L u g l r).1.usb ≡ contexts r.1
  opened-contexts u g l (none, s) = refl
  opened-contexts u g l (some h, s) = count.free_device_list l s

  open_found-contexts :
      (u : Uninit) (g : Globals L) (l : Option (List L.Device)) (f : Option L.Device) (s : L.State)
      → contexts (open_found L u g l f s).1.usb ≡ contexts s
  unfolding open_found
  open_found-contexts u g l none s = refl
  open_found-contexts u g l (some f) s =
      opened-contexts u g l _ ∙ count.open_device f _ ∙ close_handle-contexts g.irpc_handle s

  -- After any call libusb has as many contexts on the host as before, but for one more after an
  -- initialisation that does not fail, and one less after an exit. Assumed: a count of the
  -- contexts that grows by one where libusb's initialisation does not fail, shrinks by one at its
  -- exit, and is changed by no other call.
  pub local_call-contexts :
      (f : IrpcFunc) (u : Uninit) (g : Globals L) (i : IrpcInfo)
      → contexts (local_call L f u g i).globals.usb
        ≡ tally f (local_call L f u g i).retval (contexts g.usb)
  unfolding local_call
  local_call-contexts usb_init u g i = count.init _ _
  local_call-contexts usb_exit u g i = count.exit _ _
  local_call-contexts usb_get_device_list u g i =
      count.free_device_list _ _ ∙ count.get_device_list _ _
  local_call-contexts usb_get_device_descriptor u g i =
      describe-contexts _ _ _ ∙ count.get_device_list _ _
  local_call-contexts usb_open_device_with_vid_pid u g i =
      count.open_device_with_vid_pid _ _ _ _ ∙ close_handle-contexts g.irpc_handle g.usb
  local_call-contexts usb_close u g i = close_handle-contexts g.irpc_handle g.usb
  local_call-contexts usb_open u g i = open_found-contexts u g _ _ _ ∙ count.get_device_list _ _
  local_call-contexts usb_claim_interface u g i = count.kept.claim_interface _ _ _
  local_call-contexts usb_release_interface u g i = count.kept.release_interface _ _ _
  local_call-contexts usb_get_configuration u g i = count.kept.get_configuration _ _
  local_call-contexts usb_set_configuration u g i = count.kept.set_configuration _ _ _
  local_call-contexts usb_set_interface_alt_setting u g i =
      count.kept.set_interface_alt_setting _ _ _ _
  local_call-contexts usb_reset_device u g i = count.kept.reset_device _ _
  local_call-contexts usb_control_transfer u g i = count.kept.control_transfer _ _ _ _ _ _ _ _ _
  local_call-contexts usb_bulk_transfer u g i = count.kept.bulk_transfer _ _ _ _ _ _
  local_call-contexts usb_clear_halt u g i = count.kept.clear_halt _ _ _
  local_call-contexts usb_get_string_descriptor_ascii u g i =
      count.kept.get_string_descriptor_ascii _ _ _ _ _

  -- An initialisation that does not fail adds one.
  pub usb_init-contexts :
      (u : Uninit) (h : Globals L) (i : IrpcInfo) (n : ℕ)
      → is_negative (local_call L usb_init u h i).retval ≡ false
      → contexts h.usb ≡ n
      → contexts (local_call L usb_init u h i).globals.usb ≡ n + 1
  usb_init-contexts u h i n fine e = local_call-contexts usb_init u h i ∙ rw fine (omega (arith, e))
