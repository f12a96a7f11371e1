-- ===== src/IrpcClient/Outcome.antt =====
-- The report of irpc_client.c about a host whose devices do not change, from its first call on.
use libirpc.Prelude.{
  ◌≤◌, ◌≡◌, ◌≢◌, refl, sym, subst, ap, pos_part, ◌∙◌, false, Option-cases, inl, inr, Option, none,
  some, List, [], ◌∷◌, ◌++◌, map, All, ℤ, pos, eq_ℤ, is_negative, get_elem?, get_elem?-split,
  get_or, take, min, length, to_unsigned, if◌then◌else◌, arith,
}
use libirpc.Types.{
  usb_init, IrpcDevice, IrpcDeviceDescriptor, IrpcInfo, irpc_failure, irpc_max_devs,
}
use libirpc.Types.Bounds.{IsInfo, zero_device}
use libirpc.Tpl.{Tpl}
use libirpc.Usb.{Libusb, LibusbDeviceDescriptor, IsTyped}
use libirpc.Proc.Run.{run, finished}
use libirpc.Rpc.Base.{Globals, Uninit, IsUninit, Called}
use libirpc.Rpc.Devices.{reflect_device, find_device, listed, describe, build_descriptor}
use libirpc.Server.{server_loop}
use libirpc.Local.{local_call}
use libirpc.Local.Table.{device_table}
use libirpc.Remote.Fits.{device_table-IsDevices}
use libirpc.Local.Order.{All-Permᴰ}
use libirpc.Session.{Script, remote, local}
use libirpc.Session.Gives.{GivesIn, GivesIn-exit, GivesIn-local_call}
use libirpc.Local.Steady.{IsSteady, Distinct, answered, asked, relisted-IsSteady, relisted-Distinct}
use libirpc.IrpcClient.{
  Line, Report, usb_print_device_ids_failed, n_devs, ids, after_ids, print_ids_and_open,
  device_lines, printed, usb_print_device_list, main,
}
use libirpc.IrpcClient.Ready.{main-local}
use libirpc.IrpcClient.Listing.{numbered, filled, table-eighth, table-numbered}
use libirpc.IrpcClient.Steady.{IsCalm, failed, described_report, open_and_claim-GivesIn}

module _ (L : Libusb) (answer : L.Device → Option LibusbDeviceDescriptor)
    (opens : L.Device → Option L.Handle) (claimed released : ℤ) where
  -- The report after the list is printed, by the eighth device.
  abbrev pub eighth_report : Option L.Device → List Line → Report
  eighth_report none lines = failed lines usb_print_device_ids_failed
  eighth_report (some d) lines = described_report claimed released (answer d) (opens d) lines

  -- The report about a host that lists the devices `xs`.
  abbrev pub client_report : List L.Device → Report
  client_report xs = eighth_report (get_elem? xs 7) (
      n_devs (pos (min (length xs) irpc_max_devs))
      ∷ numbered 0 (map (reflect_device L) (take irpc_max_devs xs)))

-- No device has the session data 0 of an empty entry.
find_device-zero :
    (L : Libusb) (ds : List L.Device)
    → All (λ d. L.session_data d ≢ 0) ds
    → find_device L ds zero_device ≡ none
unfolding find_device to_unsigned
find_device-zero L [] h = refl
find_device-zero L (d ∷ ds) h = ground (arith, find_device-zero L ds h.1, h.0)

module _ (L : Libusb) (g : Globals L) (ds : List L.Device)
    (answer : L.Device → Option LibusbDeviceDescriptor) (steady : IsSteady L ds answer)
    (distinct : Distinct L ds) (opens : L.Device → Option L.Handle) (claimed released : ℤ)
    (calm : IsCalm L opens claimed released) where
  -- The tests of the client on an answer about the eighth device.
  abbrev after_answer : ℤ × IrpcDeviceDescriptor → IrpcInfo → List Line → Script L Report
  after_answer r i lines =
      let c : Called L = record { retval = r.0; globals = g; info = record i { desc = r.1 } } in
      if eq_ℤ r.0 irpc_failure
      then after_ids L lines c []
      else after_ids L lines c (ids r.1.id_vendor r.1.id_product ∷ [])

  refused-GivesIn :
      (r : ℤ × IrpcDeviceDescriptor) (i : IrpcInfo) (lines : List Line)
      → r ≡ answered L none
      → GivesIn L g 5 (failed lines usb_print_device_ids_failed) (after_answer r i lines)
  unfolding main
  refused-GivesIn r i lines e = rw e (GivesIn-exit L g 4 _ _)

  described-GivesIn :
      (xs ys : List L.Device) (d : L.Device) (a : Option LibusbDeviceDescriptor)
      (r : ℤ × IrpcDeviceDescriptor) (i : IrpcInfo) (lines : List Line)
      → ds ≡ xs ++ d ∷ ys
      → get_or i.devlist.devs 7 zero_device ≡ reflect_device L d
      → r ≡ answered L a
      → GivesIn L g 5 (described_report claimed released a (opens d) lines) (after_answer r i lines)
  unfolding main build_descriptor
  described-GivesIn xs ys d none r i lines e own answer_is = refused-GivesIn r i lines answer_is
  described-GivesIn xs ys d (some x) r i lines e own answer_is = rw answer_is (
      open_and_claim-GivesIn L g ds answer steady distinct opens claimed released calm xs ys d _
        (record i { desc = build_descriptor x }) e own)

  -- What the host answers about a record.
  abbrev answer_about : IrpcDevice → Globals L → ℤ × IrpcDeviceDescriptor
  answer_about idev h =
      let r = L.get_device_list h.irpc_ctx h.usb in
      (describe L r.0 (find_device L (listed L r.0) idev) r.1).0

  asked_nothing :
      (h : Globals L)
      → All (λ d. L.session_data d ≢ 0) ds
      → answer_about zero_device h ≡ answered L none
  unfolding describe
  asked_nothing h nonzero =
      let (zs, o, p) = steady.list h.irpc_ctx h.usb in
      rw (answer_about, o, find_device-zero L zs (All-Permᴰ (λ d. L.session_data d ≢ 0) p nonzero))
        refl

  print_ids-GivesIn :
      (b : Called L) (lines : List Line)
      → b.info.devlist ≡ device_table L ds
      → All (λ d. L.session_data d ≢ 0) ds
      → GivesIn L g 6
          (eighth_report L answer opens claimed released (get_elem? ds 7) lines)
          (print_ids_and_open L b lines)
  unfolding main local_call
  print_ids-GivesIn b lines table nonzero =
      let entry : IrpcDevice = get_or b.info.devlist.devs 7 zero_device in
      let own : entry ≡ filled (reflect_device L) zero_device (get_elem? ds 7) =
        ap (λ l. get_or l.devs 7 zero_device) table ∙ table-eighth L ds in
      elim (Option-cases (get_elem? ds 7)) [
        | inl short ↦ rw short (
            GivesIn-local_call L g 5 _ _ _ _ λ u h.
              refused-GivesIn (answer_about entry h) (record b.info { dev = entry }) lines
                (ap (λ d. answer_about d h) (own ∙ ap (filled (reflect_device L) zero_device) short)
                  ∙ asked_nothing h nonzero))
        | inr (d, at) ↦
            let (xs, ys, e) = get_elem?-split ds 7 d at in
            let own_d = own ∙ ap (filled (reflect_device L) zero_device) at in
            rw at (
              GivesIn-local_call L g 5 _ _ _ _ λ u h.
                described-GivesIn xs ys d (answer d) (answer_about entry h)
                  (record b.info { dev = entry }) lines e own_d
                  (ap (λ x. answer_about x h) own_d
                    ∙ asked L ds answer steady distinct xs ys d h.irpc_ctx h.usb e))
      ]

  printed-GivesIn :
      (c : Called L)
      → All (λ d. L.session_data d ≢ 0) ds
      → length (device_table L ds).devs ≡ 256
      → c.info.devlist ≡ device_table L ds
      → GivesIn L g 6 (client_report L answer opens claimed released ds) (
          printed L c
            (device_lines (pos_part c.info.devlist.n_devs) 0 c.info.devlist.devs)
            (print_ids_and_open L))
  unfolding device_table
  printed-GivesIn c nonzero size table =
      let ls : List Line = numbered 0 (map (reflect_device L) (take irpc_max_devs ds)) in
      let rest = print_ids_and_open L in
      subst
        (λ o. GivesIn L g 6 (client_report L answer opens claimed released ds) (printed L c o rest))
        (sym (ap (λ l. device_lines (pos_part l.n_devs) 0 l.devs) table ∙ table-numbered L ds size))
        (subst
          (λ n.
            GivesIn L g 6
              (eighth_report L answer opens claimed released (get_elem? ds 7) (n_devs n ∷ ls))
              (rest c (n_devs c.info.devlist.n_devs ∷ ls)))
          (ap (λ l. l.n_devs) table)
          (print_ids-GivesIn c (n_devs c.info.devlist.n_devs ∷ ls) table nonzero))

  list-local :
      (i : IrpcInfo) (us : List Uninit) (h : Globals L)
      → All (λ d. L.session_data d ≢ 0) ds
      → length (device_table L ds).devs ≡ 256
      → (L.get_device_list h.irpc_ctx h.usb).0 ≡ some ds
      → 7 ≤ length us
      → (h' : Globals L) × (local L us h g (usb_print_device_list L i (print_ids_and_open L))
          ≡ finished (client_report L answer opens claimed released ds) h')
  unfolding main local local_call
  list-local i [] h nonzero size e enough = absurd (omega arith)
  list-local i (u ∷ us) h nonzero size e enough =
      printed-GivesIn _ nonzero size (ap (λ o. device_table L (listed L o)) e) us _ (omega arith)

module _ (T : Tpl) (L : Libusb) (typed : IsTyped L) (u : Uninit) (si i : IrpcInfo) (info : IsInfo i)
    (m : Uninit) (us : List Uninit) (h g : Globals L) (memory : All IsUninit (m ∷ us))
    (ds : List L.Device) (answer : L.Device → Option LibusbDeviceDescriptor)
    (opens : L.Device → Option L.Handle) (claimed released : ℤ) where
  -- What irpc_client.c reports and returns about a host whose devices do not change: the number
  -- of devices and one line for each of the first 256, in the order in which libusb lists them
  -- for the first call after its initialisation; then the ids of the eighth one in that order,
  -- and the first failure of reading its descriptor, opening it, claiming and releasing interface
  -- 0, or none; a list of fewer than eight devices counts as a failure to read the descriptor.
  -- Client and server both return. Assumed: the initialisation succeeds, libusb lists the devices
  -- `ds` at every call, in whatever order, reads of a descriptor, opens, claims and releases
  -- always give the same results, the devices have session data of their own, not 0 and below
  -- 2^31, the server's loop has 8 rounds, libusb keeps to its types, and the client's info and
  -- the uninitialised memory hold values of their types.
  pub main-client_report :
      IsSteady L ds answer
      → IsCalm L opens claimed released
      → Distinct L ds
      → All (λ d. L.session_data d ≢ 0) ds
      → is_negative (L.init h.irpc_ctx h.usb).0.0 ≡ false
      → 7 ≤ length us
      → (xs : List L.Device) × ((L.get_device_list
            (L.init h.irpc_ctx h.usb).0.1
            (L.init h.irpc_ctx h.usb).1).0
          ≡ some xs)
        × (h' : Globals L) × (run T (remote L u g (main L i)) [] (server_loop L (m ∷ us) h si) []
            ≡ finished (client_report L answer opens claimed released xs) h')
  unfolding main local local_call
  main-client_report steady calm distinct nonzero fine enough =
      let (xs, o, p) = steady.list (L.init h.irpc_ctx h.usb).0.1 (L.init h.irpc_ctx h.usb).1 in
      let (h', e) =
        list-local L g xs answer (relisted-IsSteady L ds answer steady distinct xs p)
          (relisted-Distinct L ds answer steady distinct xs p) opens claimed released calm i us
          (local_call L usb_init m h i).globals (All-Permᴰ (λ d. L.session_data d ≢ 0) p nonzero)
          (device_table-IsDevices L typed xs).size o enough in
      (xs, o, h', main-local T L typed u si i info (m ∷ us) h g memory ∙ rw fine e)
