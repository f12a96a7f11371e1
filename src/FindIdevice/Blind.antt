-- ===== src/FindIdevice/Blind.antt =====
-- irpc_find_idevice.c does not depend on what uninitialised memory holds.
use Prim.Native.String.{String}
use libirpc.Prelude.{
  ℕ, zero, suc, ◌≡◌, refl, sym, ◌∙◌, Option, none, some, List, [], All, eq_ℤ, is_negative,
  get_elem?, pos_part, length,
}
use libirpc.Types.{IrpcFunc, IrpcDevice, IrpcInfo, irpc_failure}
use libirpc.Types.Bounds.{IsInfo}
use libirpc.Tpl.{Tpl}
use libirpc.Usb.{Libusb, IsTyped}
use libirpc.Proc.{buffer_overflow}
use libirpc.Proc.Run.{run}
use libirpc.Rpc.Base.{Globals, Uninit, IsUninit, Called}
use libirpc.Server.{server_loop}
use libirpc.Local.{local_call}
use libirpc.Session.{Script, remote}
use libirpc.Session.Refines.{session-local}
use libirpc.Session.Blind.{Blind, Blind-leave, Blind-fault, Blind-if, Alike-exit, Blind-call}
use libirpc.FindIdevice.{
  Line, Report, apple_vendor_id, is_recovery_product, inspect, visit, find_loop, report, main,
}
use libirpc.FindIdevice.Ready.{main-Ready}

module _ (L : Libusb) (ip : String) (g : Globals L) where
  report-Blind : (i : IrpcInfo) (lines : List Line) → Blind L g (report L ip i lines)
  unfolding main
  report-Blind i lines = Alike-exit L g i i _

  inspect-Blind :
      (c : Called L) (rest : IrpcInfo → Script L Report)
      → ((i : IrpcInfo) → Blind L g (rest i))
      → Blind L g (inspect L c rest (report L ip))
  inspect-Blind c rest next =
      Blind-if L g (eq_ℤ c.retval irpc_failure) _ _ (report-Blind c.info _) (
        Blind-if L g (eq_ℤ c.info.desc.id_vendor apple_vendor_id) _ _
          (Blind-if L g (is_recovery_product c.info.desc.id_product) _ _ (report-Blind c.info _)
            (next c.info))
          (next c.info))

  visit-Blind :
      (o : Option IrpcDevice) (i : IrpcInfo) (rest : IrpcInfo → Script L Report)
      → ((j : IrpcInfo) → Blind L g (rest j))
      → Blind L g (visit L o i rest (report L ip))
  unfolding local_call
  visit-Blind none i rest next = Blind-fault L g buffer_overflow
  visit-Blind (some d) i rest next =
      Blind-call L g IrpcFunc.usb_get_device_descriptor _ _ (λ u u' h. refl)
        λ c. inspect-Blind c rest next

  find_loop-Blind :
      (left n : ℕ) (devs : List IrpcDevice) (i : IrpcInfo)
      → Blind L g (find_loop L left n devs i (report L ip))
  unfolding find_loop
  find_loop-Blind zero n devs i = report-Blind i _
  find_loop-Blind (suc left) n devs i =
      visit-Blind (get_elem? devs n) i _ (λ j. find_loop-Blind left (suc n) devs j)

  main-Blind : (i : IrpcInfo) → Blind L g (main L ip i)
  unfolding main local_call
  main-Blind i =
      Blind-call L g IrpcFunc.usb_init i _ (λ u u' h. refl)
        λ c. Blind-if L g (is_negative c.retval) _ _ (Blind-leave L g _) (
          Blind-call L g IrpcFunc.usb_get_device_list _ _ (λ u u' h. refl)
            λ d. find_loop-Blind (pos_part d.info.devlist.n_devs) 0 d.info.devlist.devs d.info)

module _ (T : Tpl) (L : Libusb) (ip : String) (typed : IsTyped L) (i : IrpcInfo) (info : IsInfo i)
    (h g : Globals L) where
  -- What irpc_find_idevice.c reports against the server's loop, and what it leaves of the
  -- server's globals, does not depend on what the uninitialised memory of either program holds,
  -- nor on the server's info, for as many rounds of the loop. Assumed: libusb keeps to its types,
  -- and the client's info and both memories hold values of their types.
  pub search_memory :
      (u u' : Uninit) (us us' : List Uninit) (si si' : IrpcInfo)
      → All IsUninit us
      → All IsUninit us'
      → length us ≡ length us'
      → run T (remote L u g (main L ip i)) [] (server_loop L us h si) []
        ≡ run T (remote L u' g (main L ip i)) [] (server_loop L us' h si') []
  search_memory u u' us us' si si' memory memory' e =
      session-local T L typed u si (main L ip i) us h g (main-Ready L ip i info) memory
      ∙ main-Blind L ip g i us us' h e
      ∙ sym (session-local T L typed u' si' (main L ip i) us' h g (main-Ready L ip i info) memory')
