-- ===== src/Local/Table.antt =====
-- The device list that a client gets: a plain description of it, and the loop of
-- `irpc_send_usb_get_device_list` (libirpc.c), which computes it.
use libirpc.Prelude.{
  ℕ, zero, suc, ◌+◌, ◌≤◌, ◌≡◌, refl, ap, ◌∙◌, List, [], ◌∷◌, ◌++◌, map, append_assoc, min, pos,
  length, length-append, set, take, replicate, arith, lt→ltb, le→ltb,
}
use libirpc.Types.{IrpcDevice, IrpcDeviceList, irpc_max_devs}
use libirpc.Types.Bounds.{zero_device}
use libirpc.Usb.{Libusb}
use libirpc.Rpc.Devices.{reflect_device, copy_devices, zero_devlist}

set-append {ℓ} :
    {A : Type ℓ} (xs ys : List A) (y x : A)
    → set (xs ++ y ∷ ys) (length xs) x ≡ (xs ++ x ∷ []) ++ ys
set-append [] ys y x = refl
set-append (z ∷ xs) ys y x = ap (λ zs. z ∷ zs) (set-append xs ys y x)

take-replicate {ℓ} : {A : Type ℓ} (r n : ℕ) (a : A) → r ≤ n → take r (replicate n a) ≡ replicate r a
take-replicate zero n a h = refl
take-replicate (suc r) zero a h = absurd (omega arith)
take-replicate (suc r) (suc n) a h = ap (λ xs. a ∷ xs) (take-replicate r n a (omega arith))

module _ (L : Libusb) where
  -- The first 256 devices, then zeros up to the size of the array.
  unfoldable pub device_table : List L.Device → IrpcDeviceList
  device_table ds = record {
    n_devs = pos (min (length ds) irpc_max_devs);
    devs = take irpc_max_devs (map (reflect_device L) ds ++ replicate irpc_max_devs zero_device);
  }

  abbrev table : ℕ → List IrpcDevice → IrpcDeviceList
  table n devs = record { n_devs = pos n; devs = devs }

  table-eq : {n m : ℕ} {xs ys : List IrpcDevice} → n ≡ m → xs ≡ ys → table n xs ≡ table m ys
  table-eq p q = λ t. table (p t) (q t)

  -- The loop at any index: `pre` is filled, `r` entries are still zero.
  copy_devices-table :
      (ds : List L.Device) (pre : List IrpcDevice) (k r n : ℕ)
      → length pre ≡ k
      → k + r ≡ irpc_max_devs
      → r ≤ n
      → copy_devices L k ds (table k (pre ++ replicate r zero_device))
        ≡ table
            (k + min (length ds) r)
            (pre ++ take r (map (reflect_device L) ds ++ replicate n zero_device))
  unfolding copy_devices
  copy_devices-table [] pre k r n here e h =
      rw (take-replicate r n zero_device h) (table-eq (omega arith) refl)
  copy_devices-table (d ∷ ds) pre k zero n here e h =
      rw (le→ltb k irpc_max_devs (omega arith)) (table-eq (omega arith) refl)
  copy_devices-table (d ∷ ds) pre k (suc r) n here e h = rw (lt→ltb k irpc_max_devs (omega arith)) (
      ap (λ xs. copy_devices L (suc k) ds (table (suc k) xs))
        (rw here at (set-append pre (replicate r zero_device) zero_device x))
      ∙ copy_devices-table ds (pre ++ x ∷ []) (suc k) r n
          (omega (arith, length-append pre (x ∷ []))) (omega arith) (omega arith)
      ∙ table-eq {m = k + min (suc (length ds)) (suc r)} (omega arith)
          (append_assoc pre (x ∷ []) _))
    where
      x : IrpcDevice
      x = reflect_device L d

  -- The loop fills the cleared list with the first 256 of libusb's devices, in order, then zeros
  -- up to the size of the array, and counts them, whatever the length of libusb's list.
  pub copy_devices-device_table :
      (ds : List L.Device) → copy_devices L 0 ds zero_devlist ≡ device_table ds
  unfolding zero_devlist device_table
  copy_devices-device_table ds =
      copy_devices-table ds [] 0 irpc_max_devs irpc_max_devs refl refl (omega arith)
      ∙ table-eq {m = min (length ds) irpc_max_devs} (omega arith) refl
