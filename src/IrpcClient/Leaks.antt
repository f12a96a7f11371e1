-- ===== src/IrpcClient/Leaks.antt =====
-- What irpc_client.c leaves behind in libusb on the server's host: its contexts, and the device
-- lists that are not freed.
use libirpc.Prelude.{
  ℕ, suc, ◌≤◌, ◌≡◌, refl, sym, ap, ◌∙◌, false, inl, inr, Option, none, some, List, [], ◌∷◌, ◌++◌,
  All, eq_ℤ, is_negative, arith,
}
use libirpc.Types.{
  IrpcInfo, irpc_failure, IrpcFunc, usb_init, usb_exit, usb_get_device_list,
  usb_get_device_descriptor,
}
use libirpc.Types.Bounds.{IsInfo}
use libirpc.Tpl.{Tpl}
use libirpc.Usb.{Libusb, IsTyped}
use libirpc.Proc.Run.{run, finished}
use libirpc.Rpc.Base.{Globals, Uninit, IsUninit, Called}
use libirpc.Server.{server_loop}
use libirpc.Local.{local_call}
use libirpc.Local.Contexts.{IsContextCount}
use libirpc.Local.Lists.{IsListCount, local_call-lists}
use libirpc.Local.Leaks.{descriptor-lists, open-lists}
use libirpc.Session.{remote}
use libirpc.Session.Handles.{
  Leads, Leads-if, Leads-keep, Leads-call, Leads-exit, Leads-leave, Leads-fault,
}
use libirpc.Session.Calls.{Leads-usb_init, Calls, Calls-if, KeepsContexts, KeepsLists, Calls-lists}
use libirpc.IrpcClient.{
  usb_init_failed, Line, Report, n_devs, ids, eighth, printed, claim_and_release, open_and_claim,
  after_ids, print_ids_and_open, usb_print_device_list, main,
}
use libirpc.IrpcClient.Ready.{main-local}

module _ (L : Libusb) (F : IrpcFunc → Type 0) (close : F IrpcFunc.usb_close)
    (claim : F IrpcFunc.usb_claim_interface) (release : F IrpcFunc.usb_release_interface) where
  claim_and_release-Calls :
      (lines : List Line) (i : IrpcInfo) → Calls L F (claim_and_release L lines i)
  unfolding main
  claim_and_release-Calls lines i = (
    claim,
    λ c. Calls-if L F (is_negative c.retval) _ _ (close, λ d. tt) (release, λ d. (close, λ e. tt)),
  )

module _ (L : Libusb) where
  open_and_claim-Calls :
      (lines : List Line) (i : IrpcInfo) → Calls L KeepsContexts (open_and_claim L lines i)
  unfolding main
  open_and_claim-Calls lines i = (
    (λ r n. refl),
    λ c. Calls-if L KeepsContexts (is_negative c.retval) _ _ tt (
        claim_and_release-Calls L KeepsContexts (λ r n. refl) (λ r n. refl) (λ r n. refl) lines
          c.info),
  )

  after_ids-Calls :
      (lines : List Line) (c : Called L) (more : List Line)
      → Calls L KeepsContexts (after_ids L lines c more)
  unfolding main
  after_ids-Calls lines c more =
      Calls-if L KeepsContexts (is_negative c.retval) _ _ tt
        (open_and_claim-Calls (lines ++ more) c.info)

  printed-Calls :
      (c : Called L) (o : Option (List Line))
      → Calls L KeepsContexts (printed L c o (print_ids_and_open L))
  unfolding main
  printed-Calls c none = tt
  printed-Calls c (some ls) = (
    (λ r n. refl),
    λ d.
        Calls-if L KeepsContexts (eq_ℤ d.retval irpc_failure) _ _
          (after_ids-Calls (n_devs c.info.devlist.n_devs ∷ ls) d [])
          (after_ids-Calls (n_devs c.info.devlist.n_devs ∷ ls) d
            (ids d.info.desc.id_vendor d.info.desc.id_product ∷ [])),
  )

  print_device_list-Calls :
      (i : IrpcInfo) → Calls L KeepsContexts (usb_print_device_list L i (print_ids_and_open L))
  unfolding main
  print_device_list-Calls i = ((λ r n. refl), λ c. printed-Calls c _)

module _ (L : Libusb) (lists : L.State → ℕ) (count : IsListCount L lists) (g : Globals L)
    (n : ℕ) where
  abbrev Has : Globals L → Type 0
  Has h = lists h.usb ≡ n

  abbrev HasMost : Globals L → Type 0
  HasMost h = lists h.usb ≤ suc n

  -- What follows an open leaves no more lists.
  open_and_claim-Leads :
      (lines : List Line) (i : IrpcInfo) → Leads L g Has HasMost (open_and_claim L lines i)
  unfolding main
  open_and_claim-Leads lines i = Leads-call L g Has HasMost _ _ _ λ u h e us h' r h'' same.
      let c : Called L = record (local_call L IrpcFunc.usb_open u h (eighth i)) { globals = g } in
      Calls-lists L g n _ lists count (λ k. k ≤ suc n)
        (Calls-if L (KeepsLists L) (is_negative c.retval) _ _ tt (
          claim_and_release-Calls L (KeepsLists L) (λ l k. refl) (λ l k. refl) (λ l k. refl) lines
            c.info))
        us h' r h''
        (elim (open-lists L lists count u h (eighth i)) [
          | inl (failed, most) ↦ omega (arith, ap (λ (x : Globals L). lists x.usb) same, most, e)
          | inr (fine, kept) ↦ omega (arith, ap (λ (x : Globals L). lists x.usb) same, kept, e)
        ])

  after_ids-Leads :
      (R : Globals L → Type 0) (lines : List Line) (c : Called L) (more : List Line)
      → ((h : Globals L) → R h → HasMost h)
      → (is_negative c.retval ≡ false → (h : Globals L) → R h → Has h)
      → Leads L g R HasMost (after_ids L lines c more)
  unfolding main
  after_ids-Leads R lines c more most kept =
      Leads-if L g R HasMost (is_negative c.retval) _ _
        (λ failed.
          Leads-exit L g R HasMost c.info _
            λ u h r. omega (arith, local_call-lists L lists count usb_exit u h c.info, most h r))
        (λ fine us h a h' r. open_and_claim-Leads (lines ++ more) c.info us h a h' (kept fine h r))

  print_ids_and_open-Leads :
      (b : Called L) (lines : List Line) → Leads L g Has HasMost (print_ids_and_open L b lines)
  unfolding main
  print_ids_and_open-Leads b lines = Leads-call L g Has HasMost _ _ _ λ u h e.
      let asked = eighth b.info in
      let c : Called L = record (local_call L usb_get_device_descriptor u h asked) {
        globals = g;
      } in
      let R : Globals L → Type 0 =
        λ h'. h' ≡ (local_call L usb_get_device_descriptor u h asked).globals in
      let next : (more : List Line) → Leads L g R HasMost (after_ids L lines c more) = λ more.
        after_ids-Leads R lines c more
          (λ h' same. elim (descriptor-lists L lists count u h asked) [
            | inl (failed, most) ↦ omega (arith, ap (λ (x : Globals L). lists x.usb) same, most, e)
            | inr (fine, kept) ↦ omega (arith, ap (λ (x : Globals L). lists x.usb) same, kept, e)
          ])
          (λ fine h' same. elim (descriptor-lists L lists count u h asked) [
            | inl (failed, most) ↦ absurd (cc)
            | inr (success, kept) ↦ ap (λ (x : Globals L). lists x.usb) same ∙ kept ∙ e
          ]) in
      Leads-if L g R HasMost (eq_ℤ c.retval irpc_failure) _ _ (λ failed. next []) (λ fine. next _)

  printed-Leads :
      (c : Called L) (o : Option (List Line))
      → Leads L g Has HasMost (printed L c o (print_ids_and_open L))
  printed-Leads c none = Leads-fault L g Has HasMost _
  printed-Leads c (some ls) = print_ids_and_open-Leads c (n_devs c.info.devlist.n_devs ∷ ls)

  main-Leads : (i : IrpcInfo) → Leads L g Has HasMost (main L i)
  unfolding main
  main-Leads i =
      Leads-keep L g Has HasMost _ _ _
        (λ u h e. omega (arith, local_call-lists L lists count usb_init u h i, e))
        λ c.
          Leads-if L g Has HasMost (is_negative c.retval) _ _
            (λ failed. Leads-leave L g Has HasMost _)
            (λ fine.
              Leads-keep L g Has HasMost _ _ _
                (λ u h e.
                  omega (arith, local_call-lists L lists count usb_get_device_list u h c.info, e))
                λ d. printed-Leads d _)

module _ (T : Tpl) (L : Libusb) (typed : IsTyped L) (u : Uninit) (si i : IrpcInfo) (info : IsInfo i)
    (us : List Uninit) (h g : Globals L) (memory : All IsUninit us) where
  -- If irpc_client.c and the server both return, libusb has as many contexts on the server's host
  -- as before. Assumed: libusb counts its contexts and keeps to its types, and the client's info
  -- and the uninitialised memory hold values of their types.
  pub main-contexts :
      (contexts : L.State → ℕ)
      → IsContextCount L contexts
      → (r : Report) (h' : Globals L)
      → run T (remote L u g (main L i)) [] (server_loop L us h si) [] ≡ finished r h'
      → contexts h'.usb ≡ contexts h.usb
  unfolding main
  main-contexts contexts count r h' e =
      Leads-usb_init L g (contexts h.usb) contexts count i
        (λ c. record { retval = c.retval; lines = usb_init_failed ∷ [] }) _
        (λ c. print_device_list-Calls L c.info) us h r h' refl
        (sym (main-local T L typed u si i info us h g memory) ∙ e)

  -- If irpc_client.c and the server both return, at most one more of libusb's device lists is
  -- unfreed on the server's host than before. Assumed: libusb counts its unfreed lists and keeps
  -- to its types, and the client's info and the uninitialised memory hold values of their types.
  pub main-lists :
      (lists : L.State → ℕ)
      → IsListCount L lists
      → (r : Report) (h' : Globals L)
      → run T (remote L u g (main L i)) [] (server_loop L us h si) [] ≡ finished r h'
      → lists h'.usb ≤ suc (lists h.usb)
  main-lists lists count r h' e =
      main-Leads L lists count g (lists h.usb) i us h r h' refl
        (sym (main-local T L typed u si i info us h g memory) ∙ e)
