-- ===== src/FindIdevice/Leaks.antt =====
-- The device lists that a search of irpc_find_idevice.c leaves unfreed on the server.
use Prim.Native.String.{String}
use libirpc.Prelude.{
  ℕ, zero, suc, ◌≤◌, ◌≡◌, refl, sym, ap, ◌∙◌, true, false, inl, inr, Option, none, some, List, [],
  All, pos_part, eq_ℤ, is_negative, get_elem?, arith,
}
use libirpc.Types.{
  usb_init, usb_get_device_list, usb_get_device_descriptor, IrpcDevice, IrpcInfo, irpc_failure,
}
use libirpc.Types.Bounds.{IsInfo}
use libirpc.Tpl.{Tpl}
use libirpc.Usb.{Libusb, IsTyped}
use libirpc.Proc.Run.{run, finished}
use libirpc.Rpc.Base.{Globals, Uninit, IsUninit, Called}
use libirpc.Server.{server_loop}
use libirpc.Local.{local_call}
use libirpc.Local.Lists.{IsListCount, local_call-lists}
use libirpc.Local.Leaks.{descriptor-lists}
use libirpc.Session.{Script, remote}
use libirpc.Session.Refines.{session-local}
use libirpc.Session.Handles.{
  Leads, Leads-if, Leads-call, Leads-keep, Leads-exit, Leads-leave, Leads-fault,
}
use libirpc.FindIdevice.{
  Line, Report, apple_vendor_id, is_recovery_product, inspect, visit, find_loop, report, main,
}
use libirpc.FindIdevice.Ready.{main-Ready}

module _ (L : Libusb) (ip : String) (lists : L.State → ℕ) (count : IsListCount L lists)
    (g : Globals L) (n : ℕ) where
  abbrev Has : ℕ → Globals L → Type 0
  Has k h = lists h.usb ≡ k

  abbrev HasMost : Globals L → Type 0
  HasMost h = lists h.usb ≤ suc n

  report-Leads :
      (i : IrpcInfo) (lines : List Line) → Leads L g HasMost HasMost (report L ip i lines)
  unfolding main local_call
  report-Leads i lines =
      Leads-exit L g HasMost HasMost i _ λ u h e. omega (arith, count.exit h.irpc_ctx h.usb)

  inspect-Leads :
      (c : Called L) (rest : IrpcInfo → Script L Report)
      → ((i : IrpcInfo) → Leads L g (Has n) HasMost (rest i))
      → eq_ℤ c.retval irpc_failure ≡ false
      → Leads L g (Has n) HasMost (inspect L c rest (report L ip))
  inspect-Leads c rest next fine = rw fine (
      Leads-if L g (Has n) HasMost (eq_ℤ c.info.desc.id_vendor apple_vendor_id) _ _
        (λ apple.
          Leads-if L g (Has n) HasMost (is_recovery_product c.info.desc.id_product) _ _
            (λ mode us h a h' e. report-Leads c.info _ us h a h' (omega arith))
            (λ other. next c.info))
        (λ other. next c.info))

  refused-Leads :
      (c : Called L) (rest : IrpcInfo → Script L Report)
      → eq_ℤ c.retval irpc_failure ≡ true
      → Leads L g HasMost HasMost (inspect L c rest (report L ip))
  refused-Leads c rest failed = rw failed (report-Leads c.info [])

  visit-Leads :
      (o : Option IrpcDevice) (i : IrpcInfo) (rest : IrpcInfo → Script L Report)
      → ((j : IrpcInfo) → Leads L g (Has n) HasMost (rest j))
      → Leads L g (Has n) HasMost (visit L o i rest (report L ip))
  visit-Leads none i rest next = Leads-fault L g (Has n) HasMost _
  visit-Leads (some d) i rest next =
      Leads-call L g (Has n) HasMost usb_get_device_descriptor (record i { dev = d })
        (λ c. inspect L c rest (report L ip))
        λ u h e us k a h' same ends.
          let asked = record i { dev = d } in
          let c : Called L = record (local_call L usb_get_device_descriptor u h asked) {
            globals = g;
          } in
          let here = ap (λ (x : Globals L). lists x.usb) same in
          elim (descriptor-lists L lists count u h asked) [
            | inl (failed, most) ↦
                refused-Leads c rest (ap (λ x. eq_ℤ x irpc_failure) failed) us k a h'
                  (omega (arith, here, most, e)) ends
            | inr (fine, kept) ↦
                inspect-Leads c rest next (ap (λ x. eq_ℤ x irpc_failure) fine) us k a h'
                  (here ∙ kept ∙ e) ends
          ]

  find_loop-Leads :
      (left k : ℕ) (devs : List IrpcDevice) (i : IrpcInfo)
      → Leads L g (Has n) HasMost (find_loop L left k devs i (report L ip))
  unfolding find_loop main
  find_loop-Leads zero k devs i = λ us h a h' e. report-Leads i _ us h a h' (omega arith)
  find_loop-Leads (suc left) k devs i =
      visit-Leads (get_elem? devs k) i _ (λ j. find_loop-Leads left (suc k) devs j)

  main-Leads : (i : IrpcInfo) → Leads L g (Has n) HasMost (main L ip i)
  unfolding main
  main-Leads i =
      Leads-keep L g (Has n) HasMost _ _ _
        (λ u h e. omega (arith, local_call-lists L lists count usb_init u h i, e))
        λ c.
          Leads-if L g (Has n) HasMost (is_negative c.retval) _ _
            (λ failed. Leads-leave L g (Has n) HasMost _)
            (λ fine.
              Leads-keep L g (Has n) HasMost _ _ _
                (λ u h e.
                  omega (arith, local_call-lists L lists count usb_get_device_list u h c.info, e))
                λ d. find_loop-Leads (pos_part d.info.devlist.n_devs) 0 d.info.devlist.devs d.info)

module _ (T : Tpl) (L : Libusb) (ip : String) (typed : IsTyped L) (lists : L.State → ℕ)
    (count : IsListCount L lists) (u : Uninit) (si i : IrpcInfo) (info : IsInfo i)
    (us : List Uninit) (h g : Globals L) (memory : All IsUninit us) where
  -- After a conversation of irpc_find_idevice.c with the server in which both return, at most one
  -- more of libusb's device lists is unfreed on the server's host than before, whatever the
  -- devices and their answers. Assumed: a count of the unfreed lists that grows by one where
  -- libusb hands out a list, shrinks by one where one is freed, and is changed by no other call;
  -- libusb keeps to its types, and the client's info and the uninitialised memory hold values of
  -- their types.
  pub search-lists :
      (r : Report) (h' : Globals L)
      → run T (remote L u g (main L ip i)) [] (server_loop L us h si) [] ≡ finished r h'
      → lists h'.usb ≤ suc (lists h.usb)
  search-lists r h' e =
      main-Leads L ip lists count g (lists h.usb) i us h r h' refl (
        sym (session-local T L typed u si (main L ip i) us h g (main-Ready L ip i info) memory) ∙ e)
