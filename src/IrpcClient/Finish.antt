-- ===== src/IrpcClient/Finish.antt =====
-- How a conversation of irpc_client.c with irpc_server.c ends.
use libirpc.Prelude.{
  ℕ, zero, suc, ◌+◌, ◌≤◌, ◌≡◌, refl, ◌∙◌, true, false, Option, none, some, List, [], ◌∷◌, ◌++◌, All,
  ℤ, pos_part, eq_ℤ, is_negative, length, get_elem?-some, min, arith,
}
use libirpc.Types.{usb_init, IrpcDevice, IrpcInfo, irpc_failure}
use libirpc.Types.Bounds.{IsInfo}
use libirpc.Tpl.{Tpl}
use libirpc.Usb.{Libusb, IsTyped}
use libirpc.Proc.Steps.{Config, config, Steps}
use libirpc.Proc.Ends.{Ends}
use libirpc.Proc.Diamond.{Steps-Ends}
use libirpc.Proc.Run.{run, finished, server_stopped}
use libirpc.Proc.{bad_load, done, stop}
use libirpc.Rpc.Base.{Globals, Uninit, IsUninit, Called}
use libirpc.Server.{server_loop}
use libirpc.Local.Table.{device_table}
use libirpc.Remote.Fits.{device_table-IsDevices}
use libirpc.Session.Finish.{
  FinishesIn, FinishesIn-exit, FinishesIn-mono, FinishesIn-if, FinishesIn-local_call,
  FinishesIn-call,
}
use libirpc.Local.{local_call}
use libirpc.Rpc.Devices.{listed}
use libirpc.Session.{remote, local}
use libirpc.Session.Fails.{failed-EndsAt}
use libirpc.Proc.Settles.{EndsAt}
use libirpc.IrpcClient.{
  usb_init_failed, Line, Report, n_devs, printed, device_lines, after_ids, close_and_exit,
  claim_and_release, open_and_claim, print_ids_and_open, usb_print_device_list, main,
}
use libirpc.IrpcClient.Ready.{main-local}

-- No read of the loop is past the end of an array that has `i + left` entries.
pub device_lines-some :
    (left i : ℕ) (devs : List IrpcDevice)
    → i + left ≤ length devs
    → (ls : List Line) × (device_lines left i devs ≡ some ls)
unfolding device_lines
device_lines-some zero i devs h = ([], refl)
device_lines-some (suc left) i devs h =
    let (d, at) = get_elem?-some devs i (omega arith) in
    let (ls, rest) = device_lines-some left (suc i) devs (omega arith) in
    rw (device_lines, at, rest) (_, refl)

module _ (L : Libusb) (typed : IsTyped L) (g : Globals L) where
  close_and_exit-FinishesIn :
      (retval : ℤ) (lines : List Line) (i : IrpcInfo)
      → FinishesIn L g 2 (close_and_exit L retval lines i)
  unfolding main
  close_and_exit-FinishesIn retval lines i =
      FinishesIn-call L g 1 _ i _ (λ c. FinishesIn-exit L g c.info _)

  claim_and_release-FinishesIn :
      (lines : List Line) (i : IrpcInfo) → FinishesIn L g 4 (claim_and_release L lines i)
  unfolding main
  claim_and_release-FinishesIn lines i = FinishesIn-call L g 3 _ _ _ λ c.
      FinishesIn-if L g 3 (is_negative c.retval) _ _
        (FinishesIn-mono L g 2 3 _ (omega arith) (close_and_exit-FinishesIn c.retval _ c.info))
        (FinishesIn-call L g 2 _ _ _ λ d. close_and_exit-FinishesIn d.retval _ d.info)

  open_and_claim-FinishesIn :
      (lines : List Line) (i : IrpcInfo) → FinishesIn L g 5 (open_and_claim L lines i)
  unfolding main
  open_and_claim-FinishesIn lines i = FinishesIn-call L g 4 _ _ _ λ c.
      FinishesIn-if L g 4 (is_negative c.retval) _ _
        (FinishesIn-mono L g 1 4 _ (omega arith) (FinishesIn-exit L g c.info _))
        (claim_and_release-FinishesIn lines c.info)

  after_ids-FinishesIn :
      (lines : List Line) (c : Called L) (more : List Line)
      → FinishesIn L g 5 (after_ids L lines c more)
  unfolding main
  after_ids-FinishesIn lines c more =
      FinishesIn-if L g 5 (is_negative c.retval) _ _
        (FinishesIn-mono L g 1 5 _ (omega arith) (FinishesIn-exit L g c.info _))
        (open_and_claim-FinishesIn (lines ++ more) c.info)

  print_ids_and_open-FinishesIn :
      (b : Called L) (lines : List Line) → FinishesIn L g 6 (print_ids_and_open L b lines)
  unfolding main
  print_ids_and_open-FinishesIn b lines = FinishesIn-call L g 5 _ _ _ λ c.
      FinishesIn-if L g 5 (eq_ℤ c.retval irpc_failure) _ _ (after_ids-FinishesIn lines c [])
        (after_ids-FinishesIn lines c _)

  printed-FinishesIn :
      (c : Called L) (o : Option (List Line))
      → (ls : List Line) × (o ≡ some ls)
      → FinishesIn L g 6 (printed L c o (print_ids_and_open L))
  printed-FinishesIn c none (ls, e) = absurd (cc)
  printed-FinishesIn c (some ls) e =
      print_ids_and_open-FinishesIn c (n_devs c.info.devlist.n_devs ∷ ls)

  table_lines :
      (ds : List L.Device)
      → (ls : List Line) × (device_lines
            (pos_part (device_table L ds).n_devs)
            0
            (device_table L ds).devs
          ≡ some ls)
  unfolding device_table
  table_lines ds =
      device_lines-some (min (length ds) 256) 0 (device_table L ds).devs
        (omega (arith, (device_table-IsDevices L typed ds).size))

  list_and_open-FinishesIn :
      (i : IrpcInfo) → FinishesIn L g 7 (usb_print_device_list L i (print_ids_and_open L))
  unfolding main local_call
  list_and_open-FinishesIn i =
      FinishesIn-local_call L g 6 _ _ _ λ u h.
        printed-FinishesIn _ _ (table_lines (listed L (L.get_device_list h.irpc_ctx h.usb).0))

module _ (T : Tpl) (L : Libusb) (typed : IsTyped L) (u : Uninit) (si i : IrpcInfo) (m : Uninit)
    (us : List Uninit) (h g : Globals L) where
  -- If libusb's initialisation fails on the server's host, then however the steps of
  -- irpc_client.c and the server are interleaved, every schedule ends in one and the same way:
  -- the client has returned libusb's code with one line of output, it has not sent
  -- `IRPC_USB_EXIT`, no packet is on its way, and the server, reading its next call from the
  -- closed connection, stops at a packet that it could not load instead of leaving its loop.
  -- Assumed: libusb's initialisation returns an `int`, and the server has a round.
  pub main-EndsAt :
      is_negative (L.init h.irpc_ctx h.usb).0.0 ≡ true
      → EndsAt T (config T (remote L u g (main L i)) [] (server_loop L (m ∷ us) h si) []) (
          config T
            (done (record { retval = (L.init h.irpc_ctx h.usb).0.0; lines = usb_init_failed ∷ [] }))
            []
            (stop bad_load)
            [])
  unfolding main
  main-EndsAt failed =
      failed-EndsAt T L typed u m us h g si i
        (λ c. record { retval = c.retval; lines = usb_init_failed ∷ [] }) _ failed

module _ (T : Tpl) (L : Libusb) (typed : IsTyped L) (u : Uninit) (si i : IrpcInfo) (info : IsInfo i)
    (m : Uninit) (us : List Uninit) (h g : Globals L) (memory : All IsUninit (m ∷ us)) where
  -- If libusb's initialisation fails on the server's host, irpc_client.c returns without
  -- `IRPC_USB_EXIT`, and the server stops at a packet that it could not load, instead of leaving
  -- its loop. Assumed: libusb keeps to its types, the client's info and the uninitialised memory
  -- hold values of their types, and the server has a round.
  pub main-failed_init :
      is_negative (L.init h.irpc_ctx h.usb).0.0 ≡ true
      → run T (remote L u g (main L i)) [] (server_loop L (m ∷ us) h si) []
        ≡ server_stopped bad_load
  unfolding main local local_call
  main-failed_init failed = main-local T L typed u si i info (m ∷ us) h g memory ∙ rw failed refl

  -- If libusb's initialisation succeeds on the server's host, 8 rounds of the server's loop are
  -- enough for irpc_client.c, whatever the devices and their answers: the client returns a
  -- report, having read no device past the end of its array while it prints the list, and the
  -- server leaves its loop. Assumed: libusb keeps to its types, and the client's info and the
  -- uninitialised memory hold values of their types.
  pub main-finished :
      is_negative (L.init h.irpc_ctx h.usb).0.0 ≡ false
      → 7 ≤ length us
      → (r : Report) × (h' : Globals L) × (run T
            (remote L u g (main L i))
            []
            (server_loop L (m ∷ us) h si)
            []
          ≡ finished r h')
  unfolding main local local_call
  main-finished fine enough =
      let (r, h', e) =
        list_and_open-FinishesIn L typed g i us (local_call L usb_init m h i).globals enough in
      (r, h', main-local T L typed u si i info (m ∷ us) h g memory ∙ rw fine e)

  -- If libusb's initialisation succeeds on the server's host and the server's loop has 8 rounds,
  -- then whatever steps irpc_client.c and the server have taken in whatever order, there are
  -- further steps that bring both to their ends. Assumed: libusb keeps to its types, and the
  -- client's info and the uninitialised memory hold values of their types.
  pub main-Ends :
      (y : Config T Report (Globals L))
      → is_negative (L.init h.irpc_ctx h.usb).0.0 ≡ false
      → 7 ≤ length us
      → Steps T (config T (remote L u g (main L i)) [] (server_loop L (m ∷ us) h si) []) y
      → (r : Report) × (h' : Globals L) × Ends T y r h'
  main-Ends y fine enough steps =
      let (r, h', e) = main-finished fine enough in (r, h', Steps-Ends T r h' e steps)
