-- ===== src/Local/Steady.antt =====
-- A host whose devices do not change, though libusb may list them in another order at each call:
-- what the calls that name a device answer there.
use mathlib.Core.List.{Permᴰ}
use mathlib.Core.List.Permᴰ
use libirpc.Prelude.{
  ◌<◌, ◌^◌, ◌≡◌, refl, sym, subst, ap, ◌∙◌, true, false, Option, none, some, List, ◌∷◌, ◌++◌, All,
  ℤ, is_negative,
}
use libirpc.Types.{IrpcDeviceDescriptor, irpc_failure, irpc_success}
use libirpc.Usb.{Libusb, LibusbDeviceDescriptor}
use libirpc.Rpc.Devices.{
  reflect_device, find_device, listed, describe, zero_descriptor, build_descriptor,
}
use libirpc.Local.Lookup.{find_device_first}
use libirpc.Local.Order.{Apart, Apart-Permᴰ, Apart-others, All-at, All-Permᴰ, find_device-Permᴰ}

-- What a read of a device's descriptor gives: a negative code, or a descriptor.
abbrev pub Answers : Option LibusbDeviceDescriptor → ℤ × LibusbDeviceDescriptor → Type 0
Answers none r = is_negative r.0 ≡ true
Answers (some x) r = (is_negative r.0 ≡ false) × (r.1 ≡ x)

-- libusb lists the devices `ds` at every call, in any order, and a device always gives the same
-- answer.
pub record IsSteady (L : Libusb) (ds : List L.Device)
    (answer : L.Device → Option LibusbDeviceDescriptor) : Type 0 where
  pub list :
      (c : Option L.Context) (s : L.State)
      → (xs : List L.Device) × ((L.get_device_list c s).0 ≡ some xs) × Permᴰ ds xs
  pub descriptor : (d : L.Device) (s : L.State) → Answers (answer d) (L.get_device_descriptor d s).0

module _ (L : Libusb) where
  -- Each device has session data of its own, below 2^31.
  abbrev pub Distinct : List L.Device → Type 0
  Distinct ds = All (λ d. L.session_data d < 2 ^ 31) ds × Apart L ds

  -- What the server sends for an answer.
  abbrev pub answered : Option LibusbDeviceDescriptor → ℤ × IrpcDeviceDescriptor
  answered none = (irpc_failure, zero_descriptor)
  answered (some x) = (irpc_success, build_descriptor x)

  describe-answered :
      (list : Option (List L.Device)) (d : L.Device) (a : Option LibusbDeviceDescriptor)
      (s : L.State)
      → Answers a (L.get_device_descriptor d s).0
      → (describe L list (some d) s).0 ≡ answered a
  unfolding describe
  describe-answered list d none s h = rw h refl
  describe-answered list d (some x) s h = rw (h.0, h.1) refl

  module _ (ds : List L.Device) (answer : L.Device → Option LibusbDeviceDescriptor)
      (steady : IsSteady L ds answer) (distinct : Distinct ds) where
    pub relisted-IsSteady : (xs : List L.Device) → Permᴰ ds xs → IsSteady L xs answer
    relisted-IsSteady xs p = record {
      list = λ c s. let (ys, e, q) = steady.list c s in (ys, e, Permᴰ.trans (Permᴰ.symm p) q);
      descriptor = steady.descriptor;
    }

    pub relisted-Distinct : (xs : List L.Device) → Permᴰ ds xs → Distinct xs
    relisted-Distinct xs p =
        (All-Permᴰ (λ d. L.session_data d < 2 ^ 31) p distinct.0, Apart-Permᴰ L p distinct.1)

    pub found_again :
        (xs ys zs : List L.Device) (d : L.Device)
        → ds ≡ xs ++ d ∷ ys
        → Permᴰ ds zs
        → find_device L zs (reflect_device L d) ≡ some d
    found_again xs ys zs d e p =
        let own : Distinct (xs ++ d ∷ ys) = subst Distinct e distinct in
        sym (find_device-Permᴰ L (reflect_device L d) p distinct.1)
        ∙ ap (λ l. find_device L l (reflect_device L d)) e
        ∙ find_device_first L xs ys d (All-at (λ x. L.session_data x < 2 ^ 31) xs ys d own.0)
            (Apart-others L xs ys d own.1)

    -- What the host answers about a device from its own record.
    pub asked :
        (xs ys : List L.Device) (d : L.Device) (c : Option L.Context) (s : L.State)
        → ds ≡ xs ++ d ∷ ys
        → (describe L
            (L.get_device_list c s).0
            (find_device L (listed L (L.get_device_list c s).0) (reflect_device L d))
            (L.get_device_list c s).1).0
          ≡ answered (answer d)
    asked xs ys d c s e =
        let (zs, o, p) = steady.list c s in
        rw o (
          ap (λ f. (describe L (some zs) f (L.get_device_list c s).1).0)
            (found_again xs ys zs d e p)
          ∙ describe-answered (some zs) d (answer d) (L.get_device_list c s).1
              (steady.descriptor d (L.get_device_list c s).1))
