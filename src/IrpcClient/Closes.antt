-- ===== src/IrpcClient/Closes.antt =====
-- irpc_client.c and the handle that it opens.
use libirpc.Prelude.{
  ◌≡◌, refl, sym, ap, ◌∙◌, true, Option, none, some, List, [], ◌∷◌, ◌++◌, All, ℤ, eq_ℤ, is_negative,
  if◌then◌else◌,
}
use libirpc.Types.{IrpcInfo, irpc_failure, IrpcFunc}
use libirpc.Types.Bounds.{IsInfo}
use libirpc.Tpl.{Tpl}
use libirpc.Usb.{Libusb, IsTyped}
use libirpc.Proc.Run.{run, finished}
use libirpc.Rpc.Base.{Globals, Uninit, IsUninit, Called}
use libirpc.Rpc.Open.{open_found, opened, close_handle}
use libirpc.Server.{server_loop}
use libirpc.Local.{local_call}
use libirpc.Session.{remote}
use libirpc.Session.Handles.{
  Leads, Leads-if, Leads-keep, Leads-any, Leads-call, Leads-exit, Leads-leave, Leads-fault,
}
use libirpc.IrpcClient.{
  usb_exit, usb_open_failed, Line, Report, n_devs, eighth, printed, close_and_exit,
  claim_and_release, open_and_claim, after_ids, print_ids_and_open, main,
}
use libirpc.IrpcClient.Ready.{main-local}

module _ (L : Libusb) where
  -- The server holds no handle.
  abbrev pub IsFree : Globals L → Type 0
  IsFree h = h.irpc_handle ≡ none

  opened-IsFree :
      (u : Uninit) (g : Globals L) (list : Option (List L.Device)) (r : Option L.Handle × L.State)
      → is_negative (opened L u g list r).0.0 ≡ true
      → IsFree (opened L u g list r).1
  opened-IsFree u g list (none, s) e = refl
  opened-IsFree u g list (some h, s) e = absurd (cc)

  -- An open that fails leaves no handle, if there was none.
  open_found-IsFree :
      (u : Uninit) (g : Globals L) (list : Option (List L.Device)) (f : Option L.Device)
      (s : L.State)
      → IsFree g
      → is_negative (open_found L u g list f s).0.0 ≡ true
      → IsFree (open_found L u g list f s).1
  unfolding open_found
  open_found-IsFree u g list none s free e = free
  open_found-IsFree u g list (some f) s free e =
      opened-IsFree u g list (L.open_device f (close_handle L g.irpc_handle s)) e

module _ (L : Libusb) (g : Globals L) where
  close_and_exit-Leads :
      (P : Globals L → Type 0) (retval : ℤ) (lines : List Line) (i : IrpcInfo)
      → Leads L g P (IsFree L) (close_and_exit L retval lines i)
  unfolding main local_call
  close_and_exit-Leads P retval lines i =
      Leads-call L g P (IsFree L) _ _ _
        λ u h p. Leads-exit L g _ (IsFree L) i _ (λ u' h' e. ap (λ x. x.irpc_handle) e)

  claim_and_release-Leads :
      (P : Globals L → Type 0) (lines : List Line) (i : IrpcInfo)
      → Leads L g P (IsFree L) (claim_and_release L lines i)
  unfolding main
  claim_and_release-Leads P lines i = Leads-any L g P (IsFree L) _ _ _ λ c R.
      Leads-if L g R (IsFree L) (is_negative c.retval) _ _
        (λ failed. close_and_exit-Leads R c.retval _ c.info)
        (λ fine. Leads-any L g R (IsFree L) _ _ _ λ d S. close_and_exit-Leads S d.retval _ d.info)

  -- After an open that failed the server holds no handle.
  opened_or_exit-Leads :
      (P : Globals L → Type 0) (lines : List Line) (c : Called L)
      → (is_negative c.retval ≡ true → (h : Globals L) → P h → IsFree L h)
      → Leads L g P (IsFree L) (
          if is_negative c.retval
          then usb_exit L c.info
              (record { retval = c.retval; lines = lines ++ usb_open_failed ∷ [] })
          else claim_and_release L lines c.info)
  unfolding main local_call
  opened_or_exit-Leads P lines c free =
      Leads-if L g P (IsFree L) (is_negative c.retval) _ _
        (λ failed. Leads-exit L g P (IsFree L) c.info _ (λ u h p. free failed h p))
        (λ fine. claim_and_release-Leads P lines c.info)

  open_and_claim-Leads :
      (lines : List Line) (i : IrpcInfo)
      → Leads L g (IsFree L) (IsFree L) (open_and_claim L lines i)
  unfolding main local_call
  open_and_claim-Leads lines i = Leads-call L g (IsFree L) (IsFree L) _ _ _ λ u h free.
      opened_or_exit-Leads _ lines
        (record (local_call L IrpcFunc.usb_open u h (eighth i)) { globals = g })
        (λ failed h' e. ap (λ x. x.irpc_handle) e ∙ open_found-IsFree L u h _ _ _ free failed)

  after_ids-Leads :
      (lines : List Line) (c : Called L) (more : List Line)
      → Leads L g (IsFree L) (IsFree L) (after_ids L lines c more)
  unfolding main local_call
  after_ids-Leads lines c more =
      Leads-if L g (IsFree L) (IsFree L) (is_negative c.retval) _ _
        (λ failed. Leads-exit L g (IsFree L) (IsFree L) c.info _ (λ u h free. free))
        (λ fine. open_and_claim-Leads (lines ++ more) c.info)

  print_ids_and_open-Leads :
      (b : Called L) (lines : List Line)
      → Leads L g (IsFree L) (IsFree L) (print_ids_and_open L b lines)
  unfolding main local_call
  print_ids_and_open-Leads b lines =
      Leads-keep L g (IsFree L) (IsFree L) _ _ _ (λ u h free. free)
        λ c.
          Leads-if L g (IsFree L) (IsFree L) (eq_ℤ c.retval irpc_failure) _ _
            (λ failed. after_ids-Leads lines c []) (λ fine. after_ids-Leads lines c _)

  printed-Leads :
      (c : Called L) (lines : Option (List Line))
      → Leads L g (IsFree L) (IsFree L) (printed L c lines (print_ids_and_open L))
  printed-Leads c none = Leads-fault L g (IsFree L) (IsFree L) _
  printed-Leads c (some ls) = print_ids_and_open-Leads c (n_devs c.info.devlist.n_devs ∷ ls)

  main-Leads : (i : IrpcInfo) → Leads L g (IsFree L) (IsFree L) (main L i)
  unfolding main local_call
  main-Leads i =
      Leads-keep L g (IsFree L) (IsFree L) _ _ _ (λ u h free. free)
        λ c.
          Leads-if L g (IsFree L) (IsFree L) (is_negative c.retval) _ _
            (λ failed. Leads-leave L g (IsFree L) (IsFree L) _)
            (λ fine.
              Leads-keep L g (IsFree L) (IsFree L) _ _ _ (λ u h free. free) λ d. printed-Leads d _)

module _ (T : Tpl) (L : Libusb) (typed : IsTyped L) (u : Uninit) (si i : IrpcInfo) (info : IsInfo i)
    (us : List Uninit) (h g : Globals L) (memory : All IsUninit us) where
  -- If irpc_client.c and the server both return and the server's `irpc_handle` was NULL before,
  -- it is NULL again, whatever the devices and whichever calls failed. Assumed: libusb keeps to
  -- its types, and the client's info and the uninitialised memory hold values of their types.
  pub main-IsFree :
      (r : Report) (h' : Globals L)
      → IsFree L h
      → run T (remote L u g (main L i)) [] (server_loop L us h si) [] ≡ finished r h'
      → IsFree L h'
  main-IsFree r h' free e =
      main-Leads L g i us h r h' free (sym (main-local T L typed u si i info us h g memory) ∙ e)
