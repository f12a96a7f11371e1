-- ===== src/FindIdevice/Finish.antt =====
-- How a conversation of irpc_find_idevice.c with irpc_server.c ends.
use Prim.Native.String.{String}
use libirpc.Prelude.{
  ℕ, zero, suc, ◌+◌, ◌≤◌, ◌≡◌, ◌∙◌, false, Option, none, some, List, [], ◌∷◌, All, pos_part, eq_ℤ,
  is_negative, pos, true, get_elem?, get_elem?-some, min, length, arith,
}
use libirpc.Types.{usb_init, IrpcDevice, IrpcInfo, irpc_failure}
use libirpc.Types.Bounds.{IsInfo}
use libirpc.Tpl.{Tpl}
use libirpc.Usb.{Libusb, IsTyped}
use libirpc.Proc.Steps.{Config, config, Steps}
use libirpc.Proc.Ends.{Ends}
use libirpc.Proc.Diamond.{Steps-Ends}
use libirpc.Proc.Run.{run, finished}
use libirpc.Rpc.Base.{Globals, Uninit, IsUninit, Called}
use libirpc.Server.{server_loop}
use libirpc.Session.{Script, remote, local}
use libirpc.Session.Fails.{failed-EndsAt}
use libirpc.Proc.Settles.{EndsAt}
use libirpc.Proc.{done, stop, bad_load}
use libirpc.Session.Refines.{session-local}
use libirpc.Session.Finish.{
  FinishesIn, FinishesIn-mono, FinishesIn-exit, FinishesIn-if, FinishesIn-call,
  FinishesIn-local_call,
}
use libirpc.Local.{local_call}
use libirpc.Local.Table.{device_table}
use libirpc.Remote.Fits.{device_table-IsDevices}
use libirpc.Rpc.Devices.{listed}
use libirpc.FindIdevice.{
  usb_init_failed, Line, Report, apple_vendor_id, is_recovery_product, inspect, visit, find_loop,
  try_to_find_idevice, report, main,
}
use libirpc.FindIdevice.Ready.{main-Ready}

module _ (L : Libusb) (ip : String) (typed : IsTyped L) (g : Globals L) where
  report-FinishesIn :
      (n : ℕ) (i : IrpcInfo) (lines : List Line) → FinishesIn L g (suc n) (report L ip i lines)
  unfolding main
  report-FinishesIn n i lines =
      FinishesIn-mono L g 1 (suc n) _ (omega arith) (FinishesIn-exit L g i _)

  inspect-FinishesIn :
      (n : ℕ) (c : Called L) (rest : IrpcInfo → Script L Report)
      → ((i : IrpcInfo) → FinishesIn L g (suc n) (rest i))
      → FinishesIn L g (suc n) (inspect L c rest (report L ip))
  inspect-FinishesIn n c rest next =
      FinishesIn-if L g (suc n) (eq_ℤ c.retval irpc_failure) _ _ (report-FinishesIn n c.info []) (
        FinishesIn-if L g (suc n) (eq_ℤ c.info.desc.id_vendor apple_vendor_id) _ _
          (FinishesIn-if L g (suc n) (is_recovery_product c.info.desc.id_product) _ _
            (report-FinishesIn n c.info _) (next c.info))
          (next c.info))

  visit-FinishesIn :
      (n : ℕ) (o : Option IrpcDevice) (i : IrpcInfo) (rest : IrpcInfo → Script L Report)
      → (d : IrpcDevice) × (o ≡ some d)
      → ((j : IrpcInfo) → FinishesIn L g (suc n) (rest j))
      → FinishesIn L g (suc (suc n)) (visit L o i rest (report L ip))
  visit-FinishesIn n none i rest (d, e) next = absurd (cc)
  visit-FinishesIn n (some d) i rest e next =
      FinishesIn-call L g (suc n) _ _ _ (λ c. inspect-FinishesIn n c rest next)

  find_loop-FinishesIn :
      (left n : ℕ) (devs : List IrpcDevice) (i : IrpcInfo)
      → n + left ≤ length devs
      → FinishesIn L g (suc left) (find_loop L left n devs i (report L ip))
  unfolding find_loop main
  find_loop-FinishesIn zero n devs i h = report-FinishesIn 0 i _
  find_loop-FinishesIn (suc left) n devs i h =
      visit-FinishesIn left (get_elem? devs n) i _ (get_elem?-some devs n (omega arith))
        (λ j. find_loop-FinishesIn left (suc n) devs j (omega arith))

  table_loop-FinishesIn :
      (ds : List L.Device) (i : IrpcInfo)
      → FinishesIn L g 257 (
          find_loop L
            (pos_part (device_table L ds).n_devs)
            0
            (device_table L ds).devs
            i
            (report L ip))
  unfolding device_table
  table_loop-FinishesIn ds i = FinishesIn-mono L g (suc (min (length ds) 256)) 257 _ (omega arith) (
      find_loop-FinishesIn (min (length ds) 256) 0 (device_table L ds).devs i
        (omega (arith, (device_table-IsDevices L typed ds).size)))

  try_to_find_idevice-FinishesIn :
      (i : IrpcInfo) → FinishesIn L g 258 (try_to_find_idevice L i (report L ip))
  unfolding main local_call
  try_to_find_idevice-FinishesIn i =
      FinishesIn-local_call L g 257 _ _ _
        λ u h. table_loop-FinishesIn (listed L (L.get_device_list h.irpc_ctx h.usb).0) _

module _ (T : Tpl) (L : Libusb) (ip : String) (typed : IsTyped L) (u : Uninit) (si i : IrpcInfo)
    (m : Uninit) (us : List Uninit) (h g : Globals L) where
  -- If libusb's initialisation fails on the server's host, then however the steps of
  -- irpc_find_idevice.c and the server are interleaved, every schedule ends with the client at the
  -- value 1 and the server stopped where it read its next call from the closed connection.
  pub search-EndsAt :
      is_negative (L.init h.irpc_ctx h.usb).0.0 ≡ true
      → EndsAt T (config T (remote L u g (main L ip i)) [] (server_loop L (m ∷ us) h si) []) (
          config T
            (done (record { retval = pos 1; lines = usb_init_failed ∷ [] }))
            []
            (stop bad_load)
            [])
  unfolding main
  search-EndsAt failed =
      failed-EndsAt T L typed u m us h g si i
        (λ c. record { retval = pos 1; lines = usb_init_failed ∷ [] }) _ failed

module _ (T : Tpl) (L : Libusb) (ip : String) (typed : IsTyped L) (u : Uninit) (si i : IrpcInfo)
    (info : IsInfo i) (m : Uninit) (us : List Uninit) (h g : Globals L)
    (memory : All IsUninit (m ∷ us)) where
  -- If libusb's initialisation succeeds on the server's host, 259 rounds of the server's loop are
  -- enough for irpc_find_idevice.c (two calls, one for each of at most 256 devices, and the
  -- exit): the client returns a report, and the server leaves its loop. Assumed: libusb keeps to
  -- its types, and the client's info and the uninitialised memory hold values of their types.
  pub search-finished :
      is_negative (L.init h.irpc_ctx h.usb).0.0 ≡ false
      → 258 ≤ length us
      → (r : Report) × (h' : Globals L) × (run T
            (remote L u g (main L ip i))
            []
            (server_loop L (m ∷ us) h si)
            []
          ≡ finished r h')
  unfolding main local local_call
  search-finished fine enough =
      let (r, h', e) =
        try_to_find_idevice-FinishesIn L ip typed g i us (local_call L usb_init m h i).globals
          enough in
      (
        r,
        h',
        session-local T L typed u si (main L ip i) (m ∷ us) h g (main-Ready L ip i info) memory
            ∙ rw fine e,
      )

  -- If libusb's initialisation succeeds on the server's host and the server's loop has 259
  -- rounds, then whatever steps irpc_find_idevice.c and the server have taken in whatever order,
  -- there are further steps that bring both to their ends. Assumed: libusb keeps to its types,
  -- and the client's info and the uninitialised memory hold values of their types.
  pub search-Ends :
      (y : Config T Report (Globals L))
      → is_negative (L.init h.irpc_ctx h.usb).0.0 ≡ false
      → 258 ≤ length us
      → Steps T (config T (remote L u g (main L ip i)) [] (server_loop L (m ∷ us) h si) []) y
      → (r : Report) × (h' : Globals L) × Ends T y r h'
  search-Ends y fine enough steps =
      let (r, h', e) = search-finished fine enough in (r, h', Steps-Ends T r h' e steps)
