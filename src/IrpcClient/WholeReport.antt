-- ===== src/IrpcClient/WholeReport.antt =====
-- The report of irpc_client.c in a conversation with irpc_server.c, from the start of both programs,
-- about a host whose devices do not change.
use Prim.Native.String.{String}
use libirpc.Prelude.{
  ◌≤◌, ◌≡◌, ◌≢◌, false, Option, none, some, List, ◌∷◌, [], All, ℤ, is_negative, length,
}
use libirpc.Tpl.{Tpl}
use libirpc.Usb.{Libusb, LibusbDeviceDescriptor, IsTyped}
use libirpc.Net.{Net, returns}
use libirpc.Proc.{Proc, running}
use libirpc.Proc.Steps.{config}
use libirpc.Proc.Settles.{Settles, finished-Settles}
use libirpc.Rpc.Base.{Globals, started, Uninit, IsUninit}
use libirpc.Local.Steady.{IsSteady, Distinct}
use libirpc.Server.Program as Server
use libirpc.Server.Program.{accepted_info}
use libirpc.IrpcClient.{Report, main}
use libirpc.IrpcClient.Connect.{usage_line}
use libirpc.IrpcClient.Program as Client
use libirpc.IrpcClient.Program.{connected_info, connected_info-IsInfo}
use libirpc.IrpcClient.Steady.{IsCalm}
use libirpc.IrpcClient.Outcome.{client_report, main-client_report}

module _ (T : Tpl) (L : Libusb) (typed : IsTyped L) (u m : Uninit) (us : List Uninit)
    (memory : All IsUninit (m ∷ us)) (ds : List L.Device)
    (answer : L.Device → Option LibusbDeviceDescriptor) (opens : L.Device → Option L.Handle)
    (claimed released : ℤ) (N M : Net) (near far : L.State) where
  -- irpc_client.c and irpc_server.c as whole programs, each from its start with its static
  -- variables NULL, on systems of their own: if both set-ups come to a process and the devices of
  -- the server's host do not change, then however the steps of the two connected processes are
  -- interleaved, every schedule ends with both returned, and the client reports the number of
  -- devices and one line for each of the first 256, in the order in which libusb lists them for
  -- the first call after its initialisation; then the ids of the eighth one in that order, and
  -- the first failure of reading its descriptor, opening it, claiming and releasing interface 0,
  -- or none; a list of fewer than eight devices counts as a failure to read the descriptor.
  -- Assumed: the initialisation succeeds, libusb lists the devices `ds` at every call, in
  -- whatever order, reads of a descriptor, opens, claims and releases always give the same
  -- results, the devices have session data of their own, not 0 and below 2^31, the server's loop
  -- has 8 rounds, libusb keeps to its types, and the uninitialised memory holds values of its
  -- types.
  pub program-client_report :
      (port : ℤ) (argv : List String) (s s' : N.State) (p : Proc Report) (tmp port' : ℤ)
      (argv' : List String) (t t' : M.State) (q : Proc (Globals L))
      → Client.program N L u (started L near) port argv s ≡ returns (running p) s'
      → Server.program M L (m ∷ us) (started L far) tmp port' argv' t ≡ returns (running q) t'
      → IsSteady L ds answer
      → IsCalm L opens claimed released
      → Distinct L ds
      → All (λ d. L.session_data d ≢ 0) ds
      → is_negative (L.init none far).0.0 ≡ false
      → 7 ≤ length us
      → (xs : List L.Device) × ((L.get_device_list (L.init none far).0.1 (L.init none far).1).0
          ≡ some xs)
        × (h' : Globals L) × Settles T
            (config T p [] q [])
            (client_report L answer opens claimed released xs)
            h'
  unfolding Client.program
  program-client_report port argv s s' p tmp port' argv' t t' q connected serving steady calm
        distinct nonzero fine enough =
      let (sock, e) =
        Client.connect_and_talk-running N L (λ ip. main L) u (started L near) usage_line port argv p
          s s' connected in
      let (k, e') =
        Server.program-running M L (m ∷ us) (started L far) tmp port' argv' q t t' serving in
      let (xs, listed, h', ended) =
        main-client_report T L typed u (accepted_info k) (connected_info sock)
          (connected_info-IsInfo sock) m us (started L far) (started L near) memory ds answer opens
          claimed released steady calm distinct nonzero fine enough in
      rw (e, e') (xs, listed, h', finished-Settles T _ _ h' ended)
