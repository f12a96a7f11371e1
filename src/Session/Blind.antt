-- ===== src/Session/Blind.antt =====
-- Client programs whose conversation does not depend on what uninitialised memory holds.
use libirpc.Prelude.{
  ◌≡◌, ◌⊎◌, ℤ, refl, ◌∙◌, ap, subst, Bool, true, false, Option, none, some, List, [], ◌∷◌, inl, inr,
  length, if◌then◌else◌, arith,
}
use libirpc.Types.{IrpcFunc, IrpcDeviceHandle, IrpcInfo, irpc_failure, usb_open}
use libirpc.Usb.{Libusb}
use libirpc.Proc.{Stop}
use libirpc.Rpc.Base.{Globals, Uninit, Called}
use libirpc.Rpc.Devices.{find_device, listed}
use libirpc.Rpc.Open.{open_found, opened}
use libirpc.Local.{local_call}
use libirpc.Session.{Script, leave, fault, exit, call, local}

module _ (L : Libusb) (u u' : Uninit) (g : Globals L) where
  -- What `usb_open` leaves behind does not depend on the memory, or it has failed and the globals
  -- do not.
  abbrev NoDifference : (a b : (ℤ × IrpcDeviceHandle) × Globals L) → Type 0
  NoDifference a b = (a ≡ b) ⊎ ((a.0.0 ≡ irpc_failure) × (b.0.0 ≡ irpc_failure) × (a.1 ≡ b.1))

  opened-NoDifference :
      (list : Option (List L.Device)) (o : Option L.Handle × L.State)
      → NoDifference (opened L u g list o) (opened L u' g list o)
  opened-NoDifference list (none, s) = inr (refl, refl, refl)
  opened-NoDifference list (some h, s) = inl refl

  open_found-NoDifference :
      (list : Option (List L.Device)) (found : Option L.Device) (s : L.State)
      → NoDifference (open_found L u g list found s) (open_found L u' g list found s)
  unfolding open_found
  open_found-NoDifference list none s = inr (refl, refl, refl)
  open_found-NoDifference list (some d) s = opened-NoDifference list _

-- What the client sees of a call of `usb_open`.
abbrev found_called :
    (L : Libusb) → Globals L → IrpcInfo → (ℤ × IrpcDeviceHandle) × Globals L → Called L
found_called L g i o = record { retval = o.0.0; globals = g; info = record i { handle = o.0.1 } }

module _ (L : Libusb) {A : Type 0} (g : Globals L) where
  -- Two programs have the same outcome on the host, with as many rounds and any memory.
  abbrev pub Alike : Script L A → Script L A → Type 0
  Alike s s' =
      (us us' : List Uninit) (h : Globals L)
      → length us ≡ length us'
      → local L us h g s ≡ local L us' h g s'

  abbrev pub Blind : Script L A → Type 0
  Blind s = Alike s s

  pub Blind-leave : (a : A) → Blind (leave a)
  unfolding local
  Blind-leave a us us' h e = refl

  pub Blind-fault : (x : Stop) → Blind (fault x)
  unfolding local
  Blind-fault x us us' h e = refl

  pub Blind-if : (b : Bool) (s s' : Script L A) → Blind s → Blind s' → Blind (if b then s else s')
  Blind-if true s s' p q = p
  Blind-if false s s' p q = q

  pub Alike-exit : (i i' : IrpcInfo) (a : A) → Alike (exit i a) (exit i' a)
  unfolding local local_call
  Alike-exit i i' a [] [] h e = refl
  Alike-exit i i' a [] (u' ∷ us') h e = absurd (omega (arith, e))
  Alike-exit i i' a (u ∷ us) [] h e = absurd (omega (arith, e))
  Alike-exit i i' a (u ∷ us) (u' ∷ us') h e = refl

  -- A call after which the globals are the same and the programs go on alike.
  pub Alike-call :
      (f : IrpcFunc) (i : IrpcInfo) (k : Called L → Script L A)
      → ((u u' : Uninit) (h : Globals L)
          → ((local_call L f u h i).globals ≡ (local_call L f u' h i).globals)
            × Alike
                (k (record (local_call L f u h i) { globals = g }))
                (k (record (local_call L f u' h i) { globals = g })))
      → Blind (call f i k)
  unfolding local
  Alike-call f i k same [] [] h e = refl
  Alike-call f i k same [] (u' ∷ us') h e = absurd (omega (arith, e))
  Alike-call f i k same (u ∷ us) [] h e = absurd (omega (arith, e))
  Alike-call f i k same (u ∷ us) (u' ∷ us') h e =
      let (globals, alike) = same u u' h in
      alike us us' (local_call L f u h i).globals (omega (arith, e))
      ∙ ap (λ x. local L us' x g (k (record (local_call L f u' h i) { globals = g }))) globals

  pub Blind-call :
      (f : IrpcFunc) (i : IrpcInfo) (k : Called L → Script L A)
      → ((u u' : Uninit) (h : Globals L) → local_call L f u h i ≡ local_call L f u' h i)
      → ((c : Called L) → Blind (k c))
      → Blind (call f i k)
  Blind-call f i k same next =
      Alike-call f i k
        λ u u' h. rw (same u u' h) (refl, next (record (local_call L f u' h i) { globals = g }))

  -- The handle that a failed `libusb_open` leaves is uninitialised memory: the program must not
  -- look at it.
  pub Blind-usb_open :
      (i : IrpcInfo) (k : Called L → Script L A)
      → ((c : Called L) → Blind (k c))
      → ((c c' : Called L)
          → c.retval ≡ irpc_failure
          → c'.retval ≡ irpc_failure
          → Alike (k c) (k c'))
      → Blind (call usb_open i k)
  unfolding local_call
  Blind-usb_open i k next failed = Alike-call usb_open i k λ u u' h.
      let r = L.get_device_list h.irpc_ctx h.usb in
      let found = find_device L (listed L r.0) i.dev in
      elim (open_found-NoDifference L u u' h r.0 found r.1) [
        | inl same ↦ (
          ap (λ o. o.1) same,
          subst
              (λ o.
                Alike (k (found_called L g i (open_found L u h r.0 found r.1)))
                  (k (found_called L g i o)))
              same (next (found_called L g i (open_found L u h r.0 found r.1))),
        )
        | inr (e, e', globals) ↦ (
          globals,
          failed (found_called L g i (open_found L u h r.0 found r.1))
              (found_called L g i (open_found L u' h r.0 found r.1)) e e',
        )
      ]
