-- ===== src/Local/Order.antt =====
-- The server lists the devices anew for every call that names one (libirpc.c, "Find corresponding
-- usb_device."): the search of a device in lists of different order.
use mathlib.Core.List.{Perm, Permᴰ}
use mathlib.Core.Logic.{∥∥₁_elim}
use mathlib.Core.Option
use libirpc.Prelude.{
  ◌≡◌, ◌≢◌, refl, sym, ap, subst, ◌∙◌, some, List, [], ◌∷◌, ◌++◌, All, if◌then◌else◌, arith,
}
use libirpc.Types.{IrpcDevice}
use libirpc.Usb.{Libusb}
use libirpc.Rpc.Devices.{same_session, find_device}

pub All-Permᴰ {ℓ κ} :
    {A : Type ℓ} (P : A → Type κ) {xs ys : List A} → Permᴰ xs ys → All P xs → All P ys
All-Permᴰ P Permᴰ.nil h = tt
All-Permᴰ P (Permᴰ.cons e d) h = (subst P e h.0, All-Permᴰ P d h.1)
All-Permᴰ P (Permᴰ.swap e f) h = (subst P f h.1.0, (subst P e h.0, h.1.1))
All-Permᴰ P (Permᴰ.trans d e) h = All-Permᴰ P e (All-Permᴰ P d h)

pub All-at {ℓ κ} :
    {A : Type ℓ} (P : A → Type κ) (xs ys : List A) (a : A) → All P (xs ++ a ∷ ys) → P a
All-at P [] ys a h = h.0
All-at P (x ∷ xs) ys a h = All-at P xs ys a h.1

module _ (L : Libusb) where
  -- No two devices have the same session data.
  abbrev pub Apart : List L.Device → Type 0
  Apart [] = Unit
  Apart (d ∷ ds) = All (λ e. L.session_data d ≢ L.session_data e) ds × Apart ds

  pub Apart-Permᴰ : {xs ys : List L.Device} → Permᴰ xs ys → Apart xs → Apart ys
  Apart-Permᴰ Permᴰ.nil h = tt
  Apart-Permᴰ (Permᴰ.cons {b = b} {l₁ = l} e d) h = (
    All-Permᴰ (λ x. L.session_data b ≢ L.session_data x) d
        (subst (λ a. All (λ x. L.session_data a ≢ L.session_data x) l) e h.0),
    Apart-Permᴰ d h.1,
  )
  Apart-Permᴰ (Permᴰ.swap {a = a} {a' = a'} {l = l} e f) h =
      subst (λ y. Apart (a' ∷ y ∷ l)) e
        (subst (λ x. Apart (x ∷ a ∷ l)) f (((λ q. h.0.0 (sym q)), h.1.0), (h.0.1, h.1.1)))
  Apart-Permᴰ (Permᴰ.trans d e) h = Apart-Permᴰ e (Apart-Permᴰ d h)

  pub Apart-others :
      (xs ys : List L.Device) (d : L.Device)
      → Apart (xs ++ d ∷ ys)
      → All (λ e. L.session_data e ≢ L.session_data d) xs
  Apart-others [] ys d h = tt
  Apart-others (x ∷ xs) ys d h =
      (All-at (λ e. L.session_data x ≢ L.session_data e) xs ys d h.0, Apart-others xs ys d h.1)

  find_device-swap :
      (a b : L.Device) (l : List L.Device) (idev : IrpcDevice)
      → L.session_data a ≢ L.session_data b
      → find_device L (a ∷ b ∷ l) idev ≡ find_device L (b ∷ a ∷ l) idev
  unfolding find_device
  find_device-swap a b l idev ne = ground arith

  pub find_device-Permᴰ :
      {xs ys : List L.Device} (idev : IrpcDevice)
      → Permᴰ xs ys
      → Apart xs
      → find_device L xs idev ≡ find_device L ys idev
  unfolding find_device
  find_device-Permᴰ idev Permᴰ.nil h = refl
  find_device-Permᴰ idev (Permᴰ.cons {b = b} {l₁ = l} e d) h =
      ap (λ x. find_device L (x ∷ l) idev) e
      ∙ ap (λ r. if same_session L b idev then some b else r) (find_device-Permᴰ idev d h.1)
  find_device-Permᴰ idev (Permᴰ.swap {a = a} {b = b} {a' = a'} {l = l} e f) h =
      find_device-swap a b l idev h.0.0
      ∙ ap (λ x. find_device L (x ∷ a ∷ l) idev) f
      ∙ ap (λ x. find_device L (a' ∷ x ∷ l) idev) e
  find_device-Permᴰ idev (Permᴰ.trans d e) h =
      find_device-Permᴰ idev d h ∙ find_device-Permᴰ idev e (Apart-Permᴰ d h)

  -- The search for the device that a client names finds the same device, or none, in any two
  -- lists of the same devices in different order, if no two of them have the same session data.
  -- Assumed: libusb's devices are a set.
  pub find_device-Perm :
      IsSet L.Device
      → {xs ys : List L.Device} (idev : IrpcDevice) → Perm xs ys
      → Apart xs
      → find_device L xs idev ≡ find_device L ys idev
  find_device-Perm set idev p apart =
      ∥∥₁_elim p (Option.is_set set _ _) (λ d. find_device-Permᴰ idev d apart)
