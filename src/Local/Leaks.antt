-- ===== src/Local/Leaks.antt =====
-- A call of libirpc.c that looks for a device leaves at most one of libusb's device lists unfreed,
-- and none where it succeeds.
use libirpc.Prelude.{
  ℕ, suc, ◌+◌, ◌≤◌, ◌≡◌, ◌⊎◌, refl, ap, Bool-cases, inl, inr, Option, none, some, List, ℤ, eq_ℤ,
  is_negative, if◌then◌else◌, arith,
}
use libirpc.Types.{usb_get_device_descriptor, usb_open, IrpcInfo, irpc_failure, irpc_success}
use libirpc.Usb.{Libusb}
use libirpc.Rpc.Base.{Globals, Uninit, Called}
use libirpc.Rpc.Devices.{describe}
use libirpc.Rpc.Open.{open_found, opened}
use libirpc.Local.{local_call}
use libirpc.Local.Handles.{held}
use libirpc.Local.Lists.{IsListCount, local_call-lists}

-- The list is lost unless the call returns success.
abbrev lost : {A : Type 0} → Option A → ℤ → ℕ
lost l retval = if eq_ℤ retval irpc_success then 0 else held l

lost-le : {A : Type 0} (l : Option A) (retval : ℤ) → lost l retval ≤ 1
lost-le none retval = elim (Bool-cases (eq_ℤ retval irpc_success)) [
  | inl fine ↦ rw fine (omega arith)
  | inr bad ↦ rw bad (omega arith)
]
lost-le (some l) retval = elim (Bool-cases (eq_ℤ retval irpc_success)) [
  | inl fine ↦ rw fine (omega arith)
  | inr bad ↦ rw bad (omega arith)
]

-- A call that returns success or failure.
abbrev Decided : ℤ → Type 0
Decided retval = (retval ≡ irpc_failure) ⊎ (retval ≡ irpc_success)

module _ (L : Libusb) where
  describe-retval :
      (l : Option (List L.Device)) (f : Option L.Device) (s : L.State)
      → Decided (describe L l f s).0.0
  unfolding describe
  describe-retval l none s = inl refl
  describe-retval l (some f) s = elim (Bool-cases (is_negative (L.get_device_descriptor f s).0.0)) [
    | inl failed ↦ inl (rw failed refl)
    | inr fine ↦ inr (rw fine refl)
  ]

  opened-retval :
      (u : Uninit) (g : Globals L) (l : Option (List L.Device)) (o : Option L.Handle × L.State)
      → Decided (opened L u g l o).0.0
  opened-retval u g l (none, s) = inl refl
  opened-retval u g l (some h, s) = inr refl

  open_found-retval :
      (u : Uninit) (g : Globals L) (l : Option (List L.Device)) (f : Option L.Device) (s : L.State)
      → Decided (open_found L u g l f s).0.0
  unfolding open_found
  open_found-retval u g l none s = inl refl
  open_found-retval u g l (some d) s = opened-retval u g l _

module _ (L : Libusb) (lists : L.State → ℕ) (count : IsListCount L lists) where
  -- After a failure at most one list more is unfreed, and after a success none.
  abbrev Looked : ℕ → Called L → Type 0
  Looked n c =
      ((c.retval ≡ irpc_failure) × (lists c.globals.usb ≤ suc n))
      ⊎ ((c.retval ≡ irpc_success) × (lists c.globals.usb ≡ n))

  Looked-lost :
      {A : Type 0} (l : Option A) (n : ℕ) (c : Called L)
      → lists c.globals.usb ≡ n + lost l c.retval
      → Decided c.retval
      → Looked n c
  Looked-lost l n c account (inl failed) = inl (failed, omega (arith, account, lost-le l c.retval))
  Looked-lost l n c account (inr fine) = inr (fine, omega (arith, account, ap (lost l) fine))

  pub descriptor-lists :
      (u : Uninit) (h : Globals L) (i : IrpcInfo)
      → Looked (lists h.usb) (local_call L usb_get_device_descriptor u h i)
  unfolding local_call
  descriptor-lists u h i =
      Looked-lost _ _ (local_call L usb_get_device_descriptor u h i)
        (local_call-lists L lists count usb_get_device_descriptor u h i) (describe-retval L _ _ _)

  pub open-lists :
      (u : Uninit) (h : Globals L) (i : IrpcInfo)
      → Looked (lists h.usb) (local_call L usb_open u h i)
  unfolding local_call
  open-lists u h i =
      Looked-lost _ _ (local_call L usb_open u h i) (local_call-lists L lists count usb_open u h i)
        (open_found-retval L u h _ _ _)
