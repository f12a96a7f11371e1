-- ===== src/IrpcClient/Listing.antt =====
-- What irpc_client.c prints of a list of devices, and the entry that it takes from it.
use libirpc.Prelude.{
  ℕ, zero, suc, ◌+◌, ◌≤◌, ◌<◌, ◌≡◌, refl, ap, ◌∙◌, Option, none, some, List, [], ◌∷◌, ◌++◌, map,
  pos_part, get_elem?, get_or, take, drop, replicate, min, length, arith,
}
use libirpc.Types.{IrpcDevice, irpc_max_devs}
use libirpc.Types.Bounds.{zero_device}
use libirpc.Usb.{Libusb}
use libirpc.Rpc.Devices.{reflect_device}
use libirpc.Local.Table.{device_table}
use libirpc.IrpcClient.{Line, device, device_lines}

-- One line for each device, numbered from `i`.
abbrev pub numbered : ℕ → List IrpcDevice → List Line
numbered i [] = []
numbered i (d ∷ ds) = device i d ∷ numbered (suc i) ds

drop-get_elem? {ℓ} :
    {A : Type ℓ} (xs : List A) (n : ℕ)
    → suc n ≤ length xs
    → (x : A) × (get_elem? xs n ≡ some x) × (drop n xs ≡ x ∷ drop (suc n) xs)
drop-get_elem? [] n h = absurd (omega arith)
drop-get_elem? (x ∷ xs) zero h = (x, refl, refl)
drop-get_elem? (x ∷ xs) (suc n) h = drop-get_elem? xs n (omega arith)

device_lines-numbered :
    (left i : ℕ) (devs : List IrpcDevice)
    → i + left ≤ length devs
    → device_lines left i devs ≡ some (numbered i (take left (drop i devs)))
unfolding device_lines
device_lines-numbered zero i devs h = refl
device_lines-numbered (suc left) i devs h =
    let (d, at, front) = drop-get_elem? devs i (omega arith) in
    let rest = device_lines-numbered left (suc i) devs (omega arith) in
    rw (device_lines, at, rest, front) refl

-- The entries of a full array that stand for devices.
take-filled {ℓ κ} :
    {A : Type ℓ} {B : Type κ} (f : A → B) (xs : List A) (zs : List B) (k n : ℕ)
    → n ≡ min (length xs) k
    → take n (take k (map f xs ++ zs)) ≡ map f (take k xs)
take-filled f [] zs zero zero e = refl
take-filled f [] zs (suc k) zero e = refl
take-filled f [] zs k (suc n) e = absurd (omega arith)
take-filled f (x ∷ xs) zs zero zero e = refl
take-filled f (x ∷ xs) zs zero (suc n) e = refl
take-filled f (x ∷ xs) zs (suc k) zero e = absurd (omega arith)
take-filled f (x ∷ xs) zs (suc k) (suc n) e =
    ap (λ ys. f x ∷ ys) (take-filled f xs zs k n (omega arith))

abbrev pub filled {ℓ κ} : {A : Type ℓ} {B : Type κ} → (A → B) → B → Option A → B
filled f z none = z
filled f z (some a) = f a

get_or-replicate {ℓ} : {A : Type ℓ} (z : A) (j k n : ℕ) → get_or (take k (replicate j z)) n z ≡ z
get_or-replicate z j zero n = refl
get_or-replicate z zero (suc k) n = refl
get_or-replicate z (suc j) (suc k) zero = refl
get_or-replicate z (suc j) (suc k) (suc n) = get_or-replicate z j k n

get_or-filled {ℓ κ} :
    {A : Type ℓ} {B : Type κ} (f : A → B) (z : B) (xs : List A) (j k n : ℕ)
    → n < k
    → get_or (take k (map f xs ++ replicate j z)) n z ≡ filled f z (get_elem? xs n)
get_or-filled f z [] j k n h = get_or-replicate z j k n
get_or-filled f z (x ∷ xs) j zero n h = absurd (omega arith)
get_or-filled f z (x ∷ xs) j (suc k) zero h = refl
get_or-filled f z (x ∷ xs) j (suc k) (suc n) h = get_or-filled f z xs j k n (omega arith)

module _ (L : Libusb) where
  pub table-eighth :
      (xs : List L.Device)
      → get_or (device_table L xs).devs 7 zero_device
        ≡ filled (reflect_device L) zero_device (get_elem? xs 7)
  unfolding device_table
  table-eighth xs = get_or-filled (reflect_device L) zero_device xs 256 256 7 (omega arith)

  pub table-numbered :
      (xs : List L.Device)
      → length (device_table L xs).devs ≡ 256
      → device_lines (pos_part (device_table L xs).n_devs) 0 (device_table L xs).devs
        ≡ some (numbered 0 (map (reflect_device L) (take irpc_max_devs xs)))
  unfolding device_table
  table-numbered xs size =
      device_lines-numbered (min (length xs) 256) 0 (device_table L xs).devs (omega arith)
      ∙ ap (λ ds. some (numbered 0 ds))
          (take-filled (reflect_device L) xs (replicate irpc_max_devs zero_device) 256
            (min (length xs) 256) refl)
