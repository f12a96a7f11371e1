-- ===== src/Local/Names.antt =====
-- An entry of the list that a client gets names the same device in its later calls (libirpc.c), on a
-- host whose devices do not change.
use mathlib.Core.List.{Permᴰ}
use mathlib.Core.Option.{some-injective}
use libirpc.Prelude.{
  ℕ, zero, suc, ◌<◌, ◌≡◌, refl, sym, subst, ap, ◌∙◌, Option, none, some, List, [], ◌∷◌, ◌++◌, map,
  ℤ, get_elem?, get_elem?-split, take, replicate, arith,
}
use libirpc.Types.{
  IrpcDevice, IrpcDeviceHandle, IrpcInfo, irpc_success, irpc_failure, irpc_max_devs,
  usb_get_device_list, usb_get_device_descriptor, usb_open,
}
use libirpc.Types.Bounds.{zero_device}
use libirpc.Usb.{Libusb, LibusbDeviceDescriptor}
use libirpc.Rpc.Base.{Globals, Uninit, Called}
use libirpc.Rpc.Devices.{reflect_device, listed}
use libirpc.Rpc.Open.{close_handle, reflect_handle, opened, open_found}
use libirpc.Local.{local_call}
use libirpc.Local.Table.{device_table}
use libirpc.Local.Steady.{
  IsSteady, Distinct, answered, asked, found_again, relisted-IsSteady, relisted-Distinct,
}

get_elem?-take {ℓ κ} :
    {A : Type ℓ} {B : Type κ} (f : A → B) (xs : List A) (zs : List B) (k n : ℕ) (x : A)
    → get_elem? xs n ≡ some x
    → n < k
    → get_elem? (take k (map f xs ++ zs)) n ≡ some (f x)
get_elem?-take f [] zs k n x e h = absurd (cc)
get_elem?-take f (y ∷ xs) zs zero n x e h = absurd (omega arith)
get_elem?-take f (y ∷ xs) zs (suc k) zero x e h = ap (λ z. some (f z)) (some-injective _ _ e)
get_elem?-take f (y ∷ xs) zs (suc k) (suc n) x e h = get_elem?-take f xs zs k n x e (omega arith)

module _ (L : Libusb) where
  table-get_elem? :
      (ds : List L.Device) (n : ℕ) (d : L.Device)
      → get_elem? ds n ≡ some d
      → n < irpc_max_devs
      → get_elem? (device_table L ds).devs n ≡ some (reflect_device L d)
  unfolding device_table
  table-get_elem? ds n d e h =
      get_elem?-take (reflect_device L) ds (replicate irpc_max_devs zero_device) irpc_max_devs n d e
        h

  -- The outcome of a call that opens a device, by what libusb stores: the server holds its handle
  -- and the client a description of it, or the call has failed and the server holds none.
  abbrev pub OpenedAs : Option L.Handle → Called L → Type 0
  OpenedAs none c = (c.retval ≡ irpc_failure) × (c.globals.irpc_handle ≡ none)
  OpenedAs (some k) c =
      (c.retval ≡ irpc_success)
      × (c.globals.irpc_handle ≡ some k)
      × (c.info.handle ≡ reflect_handle L k)

  abbrev called : IrpcInfo → (ℤ × IrpcDeviceHandle) × Globals L → Called L
  called i o = record { retval = o.0.0; globals = o.1; info = record i { handle = o.0.1 } }

  opened-OpenedAs :
      (u : Uninit) (g : Globals L) (i : IrpcInfo) (l : Option (List L.Device))
      (r : Option L.Handle × L.State)
      → OpenedAs r.0 (called i (opened L u g l r))
  opened-OpenedAs u g i l (none, s) = (refl, refl)
  opened-OpenedAs u g i l (some k, s) = (refl, refl, refl)

  module _ (answer : L.Device → Option LibusbDeviceDescriptor)
      (opens : L.Device → Option L.Handle) where
    -- What later calls with this record come to, for the device that it stands for.
    abbrev pub IsName : IrpcDevice → L.Device → Type 0
    IsName e d =
        (u : Uninit) (g : Globals L) (i : IrpcInfo)
        → (let c = local_call L usb_get_device_descriptor u g (record i { dev = e }) in
            (c.retval, c.info.desc) ≡ answered L (answer d))
          × OpenedAs (opens d) (local_call L usb_open u g (record i { dev = e }))

  module _ (ds : List L.Device) (answer : L.Device → Option LibusbDeviceDescriptor)
      (opens : L.Device → Option L.Handle) (steady : IsSteady L ds answer)
      (distinct : Distinct L ds)
      (opens_always : (d : L.Device) (s : L.State) → (L.open_device d s).0 ≡ opens d) where
    open_found-OpenedAs :
        (u : Uninit) (g : Globals L) (i : IrpcInfo) (l : Option (List L.Device))
        (f : Option L.Device) (d : L.Device) (s : L.State)
        → f ≡ some d
        → OpenedAs (opens d) (called i (open_found L u g l f s))
    unfolding open_found
    open_found-OpenedAs u g i l none d s e = absurd (cc)
    open_found-OpenedAs u g i l (some f) d s e =
        subst (λ o. OpenedAs o (called i (open_found L u g l (some f) s)))
          (opens_always f (close_handle L g.irpc_handle s) ∙ ap opens (some-injective _ _ e))
          (opened-OpenedAs u g i l (L.open_device f (close_handle L g.irpc_handle s)))

    reflect_device-IsName :
        (xs ys : List L.Device) (d : L.Device)
        → ds ≡ xs ++ d ∷ ys
        → IsName answer opens (reflect_device L d) d
    unfolding local_call
    reflect_device-IsName xs ys d e u g i =
        let r = L.get_device_list g.irpc_ctx g.usb in
        let (zs, o, p) = steady.list g.irpc_ctx g.usb in
        (
          asked L ds answer steady distinct xs ys d g.irpc_ctx g.usb e,
          open_found-OpenedAs u g (record i { dev = reflect_device L d }) r.0 _ d r.1
              (rw o (found_again L ds answer steady distinct xs ys zs d e p)),
        )

  -- An entry of the list that a client gets names its device in all later calls, on a host whose
  -- devices do not change: if libusb lists `d` at place `k`, below 256, for a call of
  -- `IRPC_USB_GET_DEVICE_LIST`, then entry `k` of the list that this call leaves is a record with
  -- which any later call for a descriptor, whatever the globals and the order of libusb's list
  -- then, answers for `d`, and any later call to open opens `d`, or fails where `d` cannot be
  -- opened. Assumed: libusb lists the devices `ds` at every call, in whatever order, a device
  -- always gives the same answer to a read of its descriptor and to an open, and the devices have
  -- session data of their own, below 2^31.
  pub list-IsName :
      (ds : List L.Device) (answer : L.Device → Option LibusbDeviceDescriptor)
      (opens : L.Device → Option L.Handle) (u : Uninit) (h : Globals L) (i : IrpcInfo)
      (xs : List L.Device) (k : ℕ) (d : L.Device)
      → IsSteady L ds answer
      → Distinct L ds
      → ((x : L.Device) (s : L.State) → (L.open_device x s).0 ≡ opens x)
      → (L.get_device_list h.irpc_ctx h.usb).0 ≡ some xs
      → get_elem? xs k ≡ some d
      → k < irpc_max_devs
      → (e : IrpcDevice) × (get_elem? (local_call L usb_get_device_list u h i).info.devlist.devs k
          ≡ some e)
        × IsName answer opens e d
  unfolding local_call
  list-IsName ds answer opens u h i xs k d steady distinct opens_always listing at h_k =
      let (zs, o, p) = steady.list h.irpc_ctx h.usb in
      let same = some-injective _ _ (sym o ∙ listing) in
      let q = subst (Permᴰ ds) same p in
      let (front, back, e) = get_elem?-split xs k d at in
      (
        reflect_device L d,
        ap (λ l. get_elem? (device_table L (listed L l)).devs k) listing
            ∙ table-get_elem? xs k d at h_k,
        reflect_device-IsName xs answer opens (relisted-IsSteady L ds answer steady distinct xs q)
            (relisted-Distinct L ds answer steady distinct xs q) opens_always front back d e,
      )
