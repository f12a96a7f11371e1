-- ===== src/IrpcClient/Ready.antt =====
-- The arguments that irpc_client.c passes to its calls of `irpc_call`.
use libirpc.Prelude.{
  ◌≡◌, Option, none, some, List, [], ◌∷◌, ◌++◌, All, All-get_or, ℤ, eq_ℤ, is_negative,
  if◌then◌else◌, arith,
}
use libirpc.Types.{IrpcInfo, irpc_failure}
use libirpc.Types.Bounds.{IsInfo, IsDevice, zero_device, zero_device-IsDevice}
use libirpc.Types.Updates.{IsInfo-dev, IsInfo-intf}
use libirpc.Tpl.{Tpl}
use libirpc.Usb.{Libusb, IsTyped}
use libirpc.Proc.Run.{run}
use libirpc.Rpc.Base.{Globals, Uninit, IsUninit, Called}
use libirpc.Server.{server_loop}
use libirpc.Local.Keeps.{IsCalled}
use libirpc.Session.{Ready, remote, local}
use libirpc.Session.Ready.{Ready-if}
use libirpc.Session.Refines.{session-local}
use libirpc.IrpcClient.{
  Line, n_devs, ids, usb_claim_interface_failed, usb_release_interface_failed, printed, eighth,
  after_ids, close_and_exit, claim_and_release, open_and_claim, print_ids_and_open, main,
}

eighth-IsInfo : {i : IrpcInfo} → IsInfo i → IsInfo (eighth i)
eighth-IsInfo {i} h =
    IsInfo-dev h (All-get_or IsDevice i.devlist.devs 7 zero_device h.devs.each zero_device-IsDevice)

module _ (L : Libusb) where
  close_and_exit-Ready :
      (retval : ℤ) (lines : List Line) (i : IrpcInfo)
      → IsInfo i
      → Ready L (close_and_exit L retval lines i)
  unfolding main
  close_and_exit-Ready retval lines i h = ((λ e. cc), h, tt, λ c kept. kept.info)

  claim_and_release-Ready :
      (lines : List Line) (i : IrpcInfo) → IsInfo i → Ready L (claim_and_release L lines i)
  unfolding main
  claim_and_release-Ready lines i h = (
    (λ e. cc),
    IsInfo-intf h (omega arith),
    tt,
    λ c kept.
        Ready-if L (is_negative c.retval) _ _
          (close_and_exit-Ready c.retval (lines ++ usb_claim_interface_failed ∷ []) c.info
            kept.info)
          (
            (λ e. cc),
            IsInfo-intf kept.info (omega arith),
            tt,
            λ d kept'.
                close_and_exit-Ready d.retval
                  (if is_negative d.retval
                    then lines ++ usb_release_interface_failed ∷ []
                    else lines)
                  d.info kept'.info,
          ),
  )

  open_and_claim-Ready :
      (lines : List Line) (i : IrpcInfo) → IsInfo i → Ready L (open_and_claim L lines i)
  unfolding main
  open_and_claim-Ready lines i h = (
    (λ e. cc),
    eighth-IsInfo h,
    tt,
    λ c kept.
        Ready-if L (is_negative c.retval) _ _ kept.info
          (claim_and_release-Ready lines c.info kept.info),
  )

  after_ids-Ready :
      (lines : List Line) (c : Called L) (more : List Line)
      → IsCalled L c
      → Ready L (after_ids L lines c more)
  unfolding main
  after_ids-Ready lines c more kept =
      Ready-if L (is_negative c.retval) _ _ kept.info
        (open_and_claim-Ready (lines ++ more) c.info kept.info)

  print_ids_and_open-Ready :
      (b : Called L) (lines : List Line) → IsCalled L b → Ready L (print_ids_and_open L b lines)
  unfolding main
  print_ids_and_open-Ready b lines h = (
    (λ e. cc),
    eighth-IsInfo h.info,
    tt,
    λ c kept.
        Ready-if L (eq_ℤ c.retval irpc_failure) _ _ (after_ids-Ready lines c [] kept)
          (after_ids-Ready lines c (ids c.info.desc.id_vendor c.info.desc.id_product ∷ []) kept),
  )

  printed-Ready :
      (c : Called L) (lines : Option (List Line))
      → IsCalled L c
      → Ready L (printed L c lines (print_ids_and_open L))
  printed-Ready c none kept = tt
  printed-Ready c (some ls) kept =
      print_ids_and_open-Ready c (n_devs c.info.devlist.n_devs ∷ ls) kept

  pub main-Ready : (i : IrpcInfo) → IsInfo i → Ready L (main L i)
  unfolding main
  main-Ready i h = (
    (λ e. cc),
    h,
    tt,
    λ c kept.
        Ready-if L (is_negative c.retval) _ _ tt
          ((λ e. cc), kept.info, tt, λ d kept'. printed-Ready d _ kept'),
  )

module _ (T : Tpl) (L : Libusb) (typed : IsTyped L) (u : Uninit) (si i : IrpcInfo)
    (info : IsInfo i) where
  -- irpc_client.c against the server's loop has the same outcome as its program on the server's
  -- host, whatever the devices and their answers. Assumed: libusb keeps to its types, and the
  -- client's info and the uninitialised memory hold values of their types.
  pub main-local :
      (us : List Uninit) (h g : Globals L)
      → All IsUninit us
      → run T (remote L u g (main L i)) [] (server_loop L us h si) [] ≡ local L us h g (main L i)
  main-local us h g memory =
      session-local T L typed u si (main L i) us h g (main-Ready L i info) memory
