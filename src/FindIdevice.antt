-- ===== src/FindIdevice.antt =====
-- irpc_find_idevice.c: the client that looks for an Apple device in recovery mode. Here `main`
-- starts at `usb_init`; Connect has what comes before.
pub mod Ready
pub mod Recovery
pub mod Finish
pub mod First
pub mod Search
pub mod Whole
pub mod Connect
pub mod Program
pub mod Blind
pub mod Talks
pub mod Leaks
pub mod Calls
pub mod Completes
use Prim.Native.String.{String}
use libirpc.Prelude.{
  ℕ, zero, suc, Bool, ◌||◌, Option, none, some, List, [], ◌∷◌, ℤ, pos, eq_ℤ, is_negative, pos_part,
  get_elem?, if◌then◌else◌,
}
use libirpc.Types.{IrpcFunc, IrpcDevice, IrpcDeviceDescriptor, IrpcInfo, irpc_failure}
use libirpc.Usb.{Libusb}
use libirpc.Proc.{buffer_overflow}
use libirpc.Rpc.Base.{Called}
use libirpc.Session.{Script, leave, fault, exit, call}

abbrev pub apple_vendor_id : ℤ
apple_vendor_id = pos 0x05AC

-- `kRecoveryMode1` to `kRecoveryMode4` and `kDfuMode`
unfoldable pub is_recovery_product : ℤ → Bool
is_recovery_product id =
    eq_ℤ id (pos 0x1280)
    || eq_ℤ id (pos 0x1281)
    || eq_ℤ id (pos 0x1282)
    || eq_ℤ id (pos 0x1283)
    || eq_ℤ id (pos 0x1227)

pub data Line : Type 0 where
  usb_init_failed not_found : Line
  looking : String → Line
  found : ℤ → ℤ → Line

pub record Report : Type 0 where
  pub retval : ℤ
  pub lines : List Line

module _ (L : Libusb) {A : Type 0} where
  unfoldable pub usb_init : IrpcInfo → (Called L → Script L A) → Script L A
  usb_init i k = call IrpcFunc.usb_init i k

  unfoldable pub usb_exit : IrpcInfo → A → Script L A
  usb_exit i a = exit i a

  -- The tests on a descriptor: the search goes on with `rest`, or stops with `k`.
  abbrev pub inspect :
      Called L → (IrpcInfo → Script L A) → (IrpcInfo → List Line → Script L A) → Script L A
  inspect c rest k =
      if eq_ℤ c.retval irpc_failure
      then k c.info []
      else if eq_ℤ c.info.desc.id_vendor apple_vendor_id
      then if is_recovery_product c.info.desc.id_product
        then k c.info (found c.info.desc.id_vendor c.info.desc.id_product ∷ [])
        else rest c.info
      else rest c.info

  -- One round of the loop, at the entry that the index names; `none` is past the array's end.
  abbrev pub visit :
      Option IrpcDevice
      → IrpcInfo
      → (IrpcInfo → Script L A)
      → (IrpcInfo → List Line → Script L A)
      → Script L A
  visit none i rest k = fault buffer_overflow
  visit (some d) i rest k =
      call IrpcFunc.usb_get_device_descriptor (record i { dev = d }) λ c. inspect c rest k

  -- The loop of `try_to_find_idevice`, with `left` rounds to go from index `n`.
  unfoldable pub find_loop :
      ℕ → ℕ → List IrpcDevice → IrpcInfo → (IrpcInfo → List Line → Script L A) → Script L A
  unfolding is_recovery_product
  find_loop zero n devs i k = k i (not_found ∷ [])
  find_loop (suc left) n devs i k =
      visit (get_elem? devs n) i (λ j. find_loop left (suc n) devs j k) k

  unfoldable pub try_to_find_idevice : IrpcInfo → (IrpcInfo → List Line → Script L A) → Script L A
  try_to_find_idevice i k =
      call IrpcFunc.usb_get_device_list i
        λ c. find_loop (pos_part c.info.devlist.n_devs) 0 c.info.devlist.devs c.info k

module _ (L : Libusb) (ip : String) where
  abbrev pub report : IrpcInfo → List Line → Script L Report
  report i lines = usb_exit L i (record { retval = pos 0; lines = looking ip ∷ lines })

  unfoldable pub main : IrpcInfo → Script L Report
  unfolding usb_init usb_exit try_to_find_idevice
  main i = usb_init L i λ c.
      if is_negative c.retval
      then leave (record { retval = pos 1; lines = usb_init_failed ∷ [] })
      else try_to_find_idevice L c.info report
