-- ===== src/IrpcClient/Blind.antt =====
-- irpc_client.c does not depend on what uninitialised memory holds.
use libirpc.Prelude.{
  ◌≡◌, refl, sym, ◌∙◌, Option, none, some, List, [], ◌∷◌, ◌++◌, All, ℤ, eq_ℤ, is_negative, length,
  if◌then◌else◌,
}
use libirpc.Types.{IrpcFunc, IrpcInfo, irpc_failure}
use libirpc.Types.Bounds.{IsInfo}
use libirpc.Tpl.{Tpl}
use libirpc.Usb.{Libusb, IsTyped}
use libirpc.Proc.{buffer_overflow}
use libirpc.Proc.Run.{run}
use libirpc.Rpc.Base.{Globals, Uninit, IsUninit, Called}
use libirpc.Server.{server_loop}
use libirpc.Local.{local_call}
use libirpc.Session.{remote, local}
use libirpc.Session.Blind.{
  Blind, Blind-leave, Blind-fault, Blind-if, Alike-exit, Blind-call, Blind-usb_open,
}
use libirpc.IrpcClient.{
  Line, n_devs, ids, usb_open_failed, usb_claim_interface_failed, usb_release_interface_failed,
  printed, eighth, after_ids, close_and_exit, claim_and_release, open_and_claim, print_ids_and_open,
  main,
}
use libirpc.IrpcClient.Ready.{main-local}

module _ (L : Libusb) (g : Globals L) where
  close_and_exit-Blind :
      (retval : ℤ) (lines : List Line) (i : IrpcInfo) → Blind L g (close_and_exit L retval lines i)
  unfolding main local_call
  close_and_exit-Blind retval lines i =
      Blind-call L g IrpcFunc.usb_close i _ (λ u u' h. refl)
        (λ c. Alike-exit L g c.info c.info (record { retval = retval; lines = lines }))

  claim_and_release-Blind :
      (lines : List Line) (i : IrpcInfo) → Blind L g (claim_and_release L lines i)
  unfolding main local_call
  claim_and_release-Blind lines i =
      Blind-call L g IrpcFunc.usb_claim_interface _ _ (λ u u' h. refl)
        λ c.
          Blind-if L g (is_negative c.retval) _ _
            (close_and_exit-Blind c.retval (lines ++ usb_claim_interface_failed ∷ []) c.info)
            (Blind-call L g IrpcFunc.usb_release_interface _ _ (λ u u' h. refl)
              λ d.
                close_and_exit-Blind d.retval
                  (if is_negative d.retval
                    then lines ++ usb_release_interface_failed ∷ []
                    else lines)
                  d.info)

  open_and_claim-Blind : (lines : List Line) (i : IrpcInfo) → Blind L g (open_and_claim L lines i)
  unfolding main
  open_and_claim-Blind lines i =
      Blind-usb_open L g (eighth i) _
        (λ c.
          Blind-if L g (is_negative c.retval) _ _
            (Alike-exit L g c.info c.info
              (record { retval = c.retval; lines = lines ++ usb_open_failed ∷ [] }))
            (claim_and_release-Blind lines c.info))
        (λ c c' e e'.
          rw (e, e')
            (Alike-exit L g c.info c'.info
              (record { retval = irpc_failure; lines = lines ++ usb_open_failed ∷ [] })))

  after_ids-Blind :
      (lines : List Line) (c : Called L) (more : List Line) → Blind L g (after_ids L lines c more)
  unfolding main
  after_ids-Blind lines c more =
      Blind-if L g (is_negative c.retval) _ _ (Alike-exit L g c.info c.info _)
        (open_and_claim-Blind (lines ++ more) c.info)

  printed-Blind :
      (c : Called L) (lines : Option (List Line))
      → Blind L g (printed L c lines (print_ids_and_open L))
  unfolding main local local_call
  printed-Blind c none = Blind-fault L g buffer_overflow
  printed-Blind c (some ls) =
      Blind-call L g IrpcFunc.usb_get_device_descriptor (eighth c.info) _ (λ u u' h. refl)
        λ d.
          Blind-if L g (eq_ℤ d.retval irpc_failure) _ _
            (after_ids-Blind (n_devs c.info.devlist.n_devs ∷ ls) d [])
            (after_ids-Blind (n_devs c.info.devlist.n_devs ∷ ls) d
              (ids d.info.desc.id_vendor d.info.desc.id_product ∷ []))

  main-Blind : (i : IrpcInfo) → Blind L g (main L i)
  unfolding main local_call
  main-Blind i =
      Blind-call L g IrpcFunc.usb_init i _ (λ u u' h. refl)
        λ c.
          Blind-if L g (is_negative c.retval) _ _ (Blind-leave L g _) (
            Blind-call L g IrpcFunc.usb_get_device_list _ _ (λ u u' h. refl) λ d. printed-Blind d _)

module _ (T : Tpl) (L : Libusb) (typed : IsTyped L) (i : IrpcInfo) (info : IsInfo i)
    (h g : Globals L) where
  -- What irpc_client.c reports against the server's loop, and what it leaves of the server's
  -- globals, does not depend on what the uninitialised memory of either program holds, nor on the
  -- server's info, for as many rounds of the loop. Assumed: libusb keeps to its types, and the
  -- client's info and both memories hold values of their types.
  pub main_memory :
      (u u' : Uninit) (us us' : List Uninit) (si si' : IrpcInfo)
      → All IsUninit us
      → All IsUninit us'
      → length us ≡ length us'
      → run T (remote L u g (main L i)) [] (server_loop L us h si) []
        ≡ run T (remote L u' g (main L i)) [] (server_loop L us' h si') []
  main_memory u u' us us' si si' memory memory' e =
      main-local T L typed u si i info us h g memory
      ∙ main-Blind L g i us us' h e
      ∙ sym (main-local T L typed u' si' i info us' h g memory')
