-- ===== src/IrpcClient/Steady.antt =====
-- What irpc_client.c reports about a host whose devices do not change.
use mathlib.Core.Option.{some-injective}
use libirpc.Prelude.{
  ℕ, suc, ◌≡◌, refl, ap, ◌∙◌, Bool-cases, inl, inr, Option, none, some, List, [], ◌∷◌, ◌++◌, ℤ, pos,
  eq_ℤ, is_negative, get_or, if◌then◌else◌,
}
use libirpc.Types.{IrpcInfo, irpc_failure, irpc_success}
use libirpc.Types.Bounds.{zero_device}
use libirpc.Usb.{Libusb, LibusbDeviceDescriptor}
use libirpc.Rpc.Base.{Globals, Uninit, zero_or_failure}
use libirpc.Rpc.Devices.{reflect_device, find_device, listed}
use libirpc.Rpc.Open.{close_handle, opened, open_found}
use libirpc.Local.{local_call}
use libirpc.Session.Gives.{GivesIn, GivesIn-exit, GivesIn-local_call}
use libirpc.Local.Steady.{IsSteady, Distinct, found_again}
use libirpc.IrpcClient.{
  Line, Report, usb_print_device_ids_failed, usb_open_failed, usb_claim_interface_failed,
  usb_release_interface_failed, usb_exit, ids, close_and_exit, claim_and_release, open_and_claim,
  main,
}

-- A device always opens or never does, and interface 0 is claimed and released with these codes.
pub record IsCalm (L : Libusb) (opens : L.Device → Option L.Handle) (claimed released : ℤ)
    : Type 0 where
  pub open_device : (d : L.Device) (s : L.State) → (L.open_device d s).0 ≡ opens d
  pub claim_interface :
      (h : Option L.Handle) (s : L.State) → (L.claim_interface h (pos 0) s).0 ≡ claimed
  pub release_interface :
      (h : Option L.Handle) (s : L.State) → (L.release_interface h (pos 0) s).0 ≡ released

-- The output ends with the failure.
abbrev pub failed : List Line → Line → Report
failed lines line = record { retval = irpc_failure; lines = lines ++ line ∷ [] }

abbrev pub released_report : ℤ → List Line → Report
released_report released lines =
    if eq_ℤ released (pos 0)
    then record { retval = irpc_success; lines = lines }
    else failed lines usb_release_interface_failed

abbrev pub claimed_report : ℤ → ℤ → List Line → Report
claimed_report claimed released lines =
    if eq_ℤ claimed (pos 0)
    then released_report released lines
    else failed lines usb_claim_interface_failed

module _ {H : Type 0} (claimed released : ℤ) where
  abbrev pub opened_report : Option H → List Line → Report
  opened_report none lines = failed lines usb_open_failed
  opened_report (some h) lines = claimed_report claimed released lines

  abbrev pub described_report : Option LibusbDeviceDescriptor → Option H → List Line → Report
  described_report none o lines = failed lines usb_print_device_ids_failed
  described_report (some x) o lines =
      opened_report o (lines ++ ids (pos x.id_vendor) (pos x.id_product) ∷ [])

-- The result of a call that opens a device, by what libusb stores.
abbrev code : {H : Type 0} → Option H → ℤ
code none = irpc_failure
code (some k) = irpc_success

module _ (L : Libusb) (g : Globals L) (opens : L.Device → Option L.Handle) (claimed released : ℤ)
    (calm : IsCalm L opens claimed released) where
  close_and_exit-GivesIn :
      (n : ℕ) (retval : ℤ) (lines : List Line) (i : IrpcInfo)
      → GivesIn L g
          (suc (suc n))
          (record { retval = retval; lines = lines })
          (close_and_exit L retval lines i)
  unfolding main
  close_and_exit-GivesIn n retval lines i =
      GivesIn-local_call L g (suc n) _ _ _ _ λ u h. GivesIn-exit L g n _ _

  release-GivesIn :
      (lines : List Line) (code : ℤ) (i : IrpcInfo)
      → code ≡ zero_or_failure released
      → GivesIn L g 2 (released_report released lines) (
          close_and_exit L code
            (if is_negative code then lines ++ usb_release_interface_failed ∷ [] else lines)
            i)
  unfolding zero_or_failure
  release-GivesIn lines code i e = elim (Bool-cases (eq_ℤ released (pos 0))) [
    | inl fine ↦ rw (e, fine) (close_and_exit-GivesIn 0 _ _ i)
    | inr bad ↦ rw (e, bad) (close_and_exit-GivesIn 0 _ _ i)
  ]

  claim_and_release-GivesIn :
      (lines : List Line) (i : IrpcInfo)
      → GivesIn L g 4 (claimed_report claimed released lines) (claim_and_release L lines i)
  unfolding main local_call zero_or_failure
  claim_and_release-GivesIn lines i = GivesIn-local_call L g 3 _ _ _ _ λ u h.
      rw (calm.claim_interface h.irpc_handle h.usb) (elim (Bool-cases (eq_ℤ claimed (pos 0))) [
        | inl fine ↦ rw fine (
            GivesIn-local_call L g 2 _ _ _ _ λ v k.
              release-GivesIn lines _ _
                (ap zero_or_failure (calm.release_interface k.irpc_handle k.usb)))
        | inr bad ↦ rw bad (close_and_exit-GivesIn 1 _ _ _)
      ])

  opened-code :
      (u : Uninit) (h : Globals L) (list : Option (List L.Device)) (r : Option L.Handle × L.State)
      (o : Option L.Handle)
      → r.0 ≡ o
      → (opened L u h list r).0.0 ≡ code o
  opened-code u h list (none, s) none e = refl
  opened-code u h list (none, s) (some k) e = absurd (cc)
  opened-code u h list (some j, s) none e = absurd (cc)
  opened-code u h list (some j, s) (some k) e = refl

  open_found-code :
      (u : Uninit) (h : Globals L) (list : Option (List L.Device)) (f : Option L.Device)
      (d : L.Device) (s : L.State)
      → f ≡ some d
      → (open_found L u h list f s).0.0 ≡ code (opens d)
  unfolding open_found
  open_found-code u h list none d s e = absurd (cc)
  open_found-code u h list (some f) d s e =
      opened-code u h list _ (opens d)
        (calm.open_device f (close_handle L h.irpc_handle s) ∙ ap opens (some-injective _ _ e))

module _ (L : Libusb) (g : Globals L) (ds : List L.Device)
    (answer : L.Device → Option LibusbDeviceDescriptor) (steady : IsSteady L ds answer)
    (distinct : Distinct L ds) (opens : L.Device → Option L.Handle) (claimed released : ℤ)
    (calm : IsCalm L opens claimed released) where
  opened-GivesIn :
      (o : Option L.Handle) (retval : ℤ) (lines : List Line) (i : IrpcInfo)
      → retval ≡ code o
      → GivesIn L g 4 (opened_report claimed released o lines) (
          if is_negative retval
          then usb_exit L i (record { retval = retval; lines = lines ++ usb_open_failed ∷ [] })
          else claim_and_release L lines i)
  unfolding main
  opened-GivesIn none retval lines i e = rw e (GivesIn-exit L g 3 _ _)
  opened-GivesIn (some k) retval lines i e =
      rw e (claim_and_release-GivesIn L g opens claimed released calm lines i)

  pub open_and_claim-GivesIn :
      (xs ys : List L.Device) (d : L.Device) (lines : List Line) (i : IrpcInfo)
      → ds ≡ xs ++ d ∷ ys
      → get_or i.devlist.devs 7 zero_device ≡ reflect_device L d
      → GivesIn L g 5 (opened_report claimed released (opens d) lines) (open_and_claim L lines i)
  unfolding main local_call
  open_and_claim-GivesIn xs ys d lines i e own =
      GivesIn-local_call L g 4 _ _ _ _ λ u h. opened-GivesIn (opens d) _ lines _ (reopened u h)
    where
      reopened :
          (u : Uninit) (h : Globals L)
          → (open_found L u h
              (L.get_device_list h.irpc_ctx h.usb).0
              (find_device L
                (listed L (L.get_device_list h.irpc_ctx h.usb).0)
                (get_or i.devlist.devs 7 zero_device))
              (L.get_device_list h.irpc_ctx h.usb).1).0.0
            ≡ code (opens d)
      reopened u h =
          let (zs, o, p) = steady.list h.irpc_ctx h.usb in
          open_found-code L g opens claimed released calm u h _ _ d _
            (rw (o, own) (found_again L ds answer steady distinct xs ys zs d e p))
