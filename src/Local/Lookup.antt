-- ===== src/Local/Lookup.antt =====
-- How the server finds the device that a client names (libirpc.c, "Find corresponding
-- usb_device."): by `session_data`, an `unsigned long` in libusb that travels as an `int`.
use libirpc.Prelude.{
  ℕ, ◌+◌, ◌-◌, ◌%◌, ◌^◌, ◌≤◌, ◌<◌, ◌≡◌, ◌≢◌, ◌↔◌, ◌⊎◌, refl, true, none, some, List, [], ◌∷◌, ◌++◌,
  All, to_int, to_unsigned, ltb, if◌then◌else◌, arith,
}
use libirpc.Usb.{Libusb}
use libirpc.Rpc.Devices.{reflect_device, same_session, find_device}

-- The value that comes back from the `int` is the sign extension of the low 32 bits.
to_unsigned-to_int :
    (n : ℕ)
    → to_unsigned 64 (to_int n) ≡ (
        if ltb (n % 4294967296) 2147483648
        then n % 4294967296
        else n % 4294967296 + 18446744069414584320)
unfolding to_unsigned to_int
to_unsigned-to_int n = ground arith

pub survives_iff :
    (n : ℕ) → n < 2 ^ 64 → (to_unsigned 64 (to_int n) ≡ n) ↔ ((n < 2 ^ 31) ⊎ (2 ^ 64 - 2 ^ 31 ≤ n))
survives_iff n h = rw to_unsigned-to_int (ground arith)

small_session : (n : ℕ) → n < 2 ^ 31 → to_unsigned 64 (to_int n) ≡ n
small_session n h = rw to_unsigned-to_int (ground arith)

high_session :
    (n : ℕ) → 2 ^ 31 ≤ n → n < 2 ^ 32 → to_unsigned 64 (to_int n) ≡ n + 18446744069414584320
high_session n low high = rw to_unsigned-to_int (ground arith)

module _ (L : Libusb) where
  -- For session data of 64 bits, a device is recognised in its own record exactly if its session
  -- data is below 2^31 or at least 2^64 - 2^31.
  pub same_session-reflect_device :
      (d : L.Device)
      → L.session_data d < 2 ^ 64
      → (same_session L d (reflect_device L d) ≡ true)
        ↔ ((L.session_data d < 2 ^ 31) ⊎ (2 ^ 64 - 2 ^ 31 ≤ L.session_data d))
  unfolding reflect_device
  same_session-reflect_device d h = ground (arith, survives_iff (L.session_data d) h)

  -- The devices before the right one have other sessions.
  abbrev pub Others : L.Device → List L.Device → Type 0
  Others d ds = All (λ e. L.session_data e ≢ L.session_data d) ds

  -- A device whose session data is below 2^31 is found from its own record in any list, if every
  -- device before it has other session data.
  pub find_device_first :
      (xs ys : List L.Device) (d : L.Device)
      → L.session_data d < 2 ^ 31
      → Others d xs
      → find_device L (xs ++ d ∷ ys) (reflect_device L d) ≡ some d
  unfolding find_device reflect_device
  find_device_first [] ys d small others = ground (arith, small_session (L.session_data d) small)
  find_device_first (x ∷ xs) ys d small others =
      ground
        (arith, small_session (L.session_data d) small, find_device_first xs ys d small others.1)

  -- A device whose session data is at least 2^31 and below 2^32 is not found from its own record
  -- in any list of devices whose session data is below 2^32, that device included.
  pub find_device_high :
      (ds : List L.Device) (d : L.Device)
      → 2 ^ 31 ≤ L.session_data d
      → L.session_data d < 2 ^ 32
      → All (λ e. L.session_data e < 2 ^ 32) ds
      → find_device L ds (reflect_device L d) ≡ none
  unfolding find_device reflect_device
  find_device_high [] d high small listed = refl
  find_device_high (x ∷ ds) d high small listed =
      ground (
        arith,
        high_session (L.session_data d) high small,
        find_device_high ds d high small listed.1,
      )
