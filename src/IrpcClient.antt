-- ===== src/IrpcClient.antt =====
-- irpc_client.c: the client that lists the devices, describes and opens the eighth one, and claims
-- and releases its interface 0. Here `main` starts at `usb_init`; Connect has what comes
-- before.
pub mod Ready
pub mod Finish
pub mod Closes
pub mod Leaks
pub mod Answers
pub mod Reports
pub mod Whole
pub mod Listing
pub mod Steady
pub mod Outcome
pub mod WholeReport
pub mod Connect
pub mod Program
pub mod Blind
pub mod Talks
use libirpc.Prelude.{
  ℕ, zero, suc, Bool, Option, none, some, List, [], ◌∷◌, ◌++◌, ℤ, pos, eq_ℤ, is_negative, pos_part,
  get_elem?, get_or, if◌then◌else◌,
}
use mathlib.Core.Option
use libirpc.Types.{IrpcFunc, IrpcDevice, IrpcInfo, irpc_failure}
use libirpc.Types.Bounds.{zero_device}
use libirpc.Usb.{Libusb}
use libirpc.Proc.{buffer_overflow}
use libirpc.Rpc.Base.{Called}
use libirpc.Session.{Script, leave, fault, exit, call}

-- What the client prints.
pub data Line : Type 0 where
  usb_init_failed usb_print_device_ids_failed usb_open_failed : Line
  usb_claim_interface_failed usb_release_interface_failed : Line
  n_devs : ℤ → Line
  device : ℕ → IrpcDevice → Line
  ids : ℤ → ℤ → Line
  opened_device : ℤ → ℤ → Line

-- The value that `main` returns, and its output.
pub record Report : Type 0 where
  pub retval : ℤ
  pub lines : List Line

-- The loop of `usb_print_device_list`, with `left` rounds to go from index `i`; `none` is a read
-- past the end of the array.
unfoldable pub device_lines : ℕ → ℕ → List IrpcDevice → Option (List Line)
device_lines zero i devs = some []
device_lines (suc left) i devs =
    let rest = device_lines left (suc i) devs in
    elim (get_elem? devs i) [ none ↦ none | some d ↦ Option.map (λ ls. device i d ∷ ls) rest ]

-- `info->dev = devlist.devs[7]`
abbrev pub eighth : IrpcInfo → IrpcInfo
eighth i = record i { dev = get_or i.devlist.devs 7 zero_device }

module _ (L : Libusb) {A : Type 0} where
  unfoldable pub usb_init : IrpcInfo → (Called L → Script L A) → Script L A
  usb_init i k = call IrpcFunc.usb_init i k

  abbrev pub printed :
      Called L → Option (List Line) → (Called L → List Line → Script L A) → Script L A
  printed c none k = fault buffer_overflow
  printed c (some ls) k = k c (n_devs c.info.devlist.n_devs ∷ ls)

  unfoldable pub usb_print_device_list : IrpcInfo → (Called L → List Line → Script L A) → Script L A
  unfolding device_lines
  usb_print_device_list i k =
      call IrpcFunc.usb_get_device_list i
        λ c. printed c (device_lines (pos_part c.info.devlist.n_devs) 0 c.info.devlist.devs) k

  unfoldable pub usb_print_device_ids : IrpcInfo → (Called L → List Line → Script L A) → Script L A
  usb_print_device_ids i k = call IrpcFunc.usb_get_device_descriptor (eighth i) λ c.
      if eq_ℤ c.retval irpc_failure
      then k c []
      else k c (ids c.info.desc.id_vendor c.info.desc.id_product ∷ [])

  unfoldable pub usb_exit : IrpcInfo → A → Script L A
  usb_exit i a = exit i a

  -- Not called by `main`. It prints the bus number and the address of the handle's device.
  unfoldable pub usb_open_device_with_vid_pid :
      IrpcInfo → (Called L → List Line → Script L A) → Script L A
  usb_open_device_with_vid_pid i k =
      call IrpcFunc.usb_open_device_with_vid_pid
        (record i { vendor_id = pos 0x05ac; product_id = pos 0x8005 })
        λ c. k c (opened_device c.info.handle.dev.bus_number c.info.handle.dev.device_address ∷ [])

  unfoldable pub usb_open_device : IrpcInfo → (Called L → Script L A) → Script L A
  usb_open_device i k = call IrpcFunc.usb_open (eighth i) k

  unfoldable pub usb_claim_interface : IrpcInfo → (Called L → Script L A) → Script L A
  usb_claim_interface i k = call IrpcFunc.usb_claim_interface (record i { intf = pos 0 }) k

  unfoldable pub usb_release_interface : IrpcInfo → (Called L → Script L A) → Script L A
  usb_release_interface i k = call IrpcFunc.usb_release_interface (record i { intf = pos 0 }) k

  unfoldable pub usb_close : IrpcInfo → (Called L → Script L A) → Script L A
  usb_close i k = call IrpcFunc.usb_close i k

module _ (L : Libusb) where
  -- From the label `exit` on.
  abbrev pub close_and_exit : ℤ → List Line → IrpcInfo → Script L Report
  close_and_exit retval lines i =
      usb_close L i λ c. usb_exit L c.info (record { retval = retval; lines = lines })

  abbrev pub claim_and_release : List Line → IrpcInfo → Script L Report
  claim_and_release lines i = usb_claim_interface L i λ c.
      if is_negative c.retval
      then close_and_exit c.retval (lines ++ usb_claim_interface_failed ∷ []) c.info
      else usb_release_interface L c.info λ d.
        close_and_exit d.retval
          (if is_negative d.retval then lines ++ usb_release_interface_failed ∷ [] else lines)
          d.info

  abbrev pub open_and_claim : List Line → IrpcInfo → Script L Report
  open_and_claim lines i = usb_open_device L i λ c.
      if is_negative c.retval
      then usb_exit L c.info (record { retval = c.retval; lines = lines ++ usb_open_failed ∷ [] })
      else claim_and_release lines c.info

  abbrev pub after_ids : List Line → Called L → List Line → Script L Report
  after_ids lines c more =
      if is_negative c.retval
      then usb_exit L c.info
          (record { retval = c.retval; lines = lines ++ usb_print_device_ids_failed ∷ [] })
      else open_and_claim (lines ++ more) c.info

  abbrev pub print_ids_and_open : Called L → List Line → Script L Report
  print_ids_and_open c lines = usb_print_device_ids L c.info (after_ids lines)

  unfoldable pub main : IrpcInfo → Script L Report
  unfolding usb_init usb_print_device_list usb_print_device_ids usb_exit usb_open_device
      usb_claim_interface usb_release_interface usb_close
  main i = usb_init L i λ c.
      if is_negative c.retval
      then leave (record { retval = c.retval; lines = usb_init_failed ∷ [] })
      else usb_print_device_list L c.info print_ids_and_open
