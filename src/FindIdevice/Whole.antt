-- ===== src/FindIdevice/Whole.antt =====
-- A whole conversation of irpc_find_idevice.c with irpc_server.c, from the start of both programs.
use Prim.Native.String.{String}
use libirpc.Prelude.{
  ◌≤◌, ◌≡◌, false, Option, none, some, List, [], ◌∷◌, map, All, ℤ, is_negative, length, take,
}
use libirpc.Types.{irpc_max_devs}
use libirpc.Tpl.{Tpl}
use libirpc.Usb.{Libusb, LibusbDeviceDescriptor, IsTyped}
use libirpc.Net.{Net, returns}
use libirpc.Proc.{Proc, running}
use libirpc.Proc.Steps.{config}
use libirpc.Proc.Settles.{Settles, finished-Settles}
use libirpc.Rpc.Base.{Globals, started, Uninit, IsUninit}
use libirpc.Local.Steady.{IsSteady, Distinct}
use libirpc.IrpcClient.Program.{
  first_arg, connected_info, connected_info-IsInfo, connect_and_talk-running,
}
use libirpc.Server.Program as Server
use libirpc.Server.Program.{accepted_info}
use libirpc.FindIdevice.{Report, main}
use libirpc.FindIdevice.Connect.{usage_line}
use libirpc.FindIdevice.Program as Client
use libirpc.FindIdevice.First.{first_found, reported}
use libirpc.FindIdevice.Search.{search-first_found}

module _ (T : Tpl) (L : Libusb) (typed : IsTyped L) (u m : Uninit) (us : List Uninit)
    (memory : All IsUninit (m ∷ us)) (ds : List L.Device)
    (answer : L.Device → Option LibusbDeviceDescriptor) (N M : Net) (near far : L.State) where
  -- irpc_find_idevice.c and irpc_server.c as whole programs, each from its start with its static
  -- variables NULL, on systems of their own: if both set-ups come to a process and the devices of
  -- the server's host do not change, then however the steps of the two connected processes are
  -- interleaved, every schedule ends with both returned, and the client reports, after the line
  -- with the address of its first argument, what a plain search reports of the answers to a read
  -- of a descriptor, for the first 256 devices `xs` in the order in which libusb lists them for
  -- the first call after its initialisation: the first device with Apple's vendor id, 0x05AC, and
  -- a product id from 0x1280 to 0x1283 or 0x1227 (recovery and DFU mode), nothing where an
  -- unreadable descriptor comes before it, or that there is none. Assumed: the initialisation
  -- succeeds, libusb lists the devices `ds` at every call, in whatever order, and a device always
  -- gives the same answer, the devices have session data of their own, below 2^31, the server's
  -- loop has 259 rounds, libusb keeps to its types, and the uninitialised memory holds values of
  -- its types.
  pub search-Whole :
      (port : ℤ) (argv : List String) (s s' : N.State) (p : Proc Report) (tmp port' : ℤ)
      (argv' : List String) (t t' : M.State) (q : Proc (Globals L))
      → Client.program N L u (started L near) port argv s ≡ returns (running p) s'
      → Server.program M L (m ∷ us) (started L far) tmp port' argv' t ≡ returns (running q) t'
      → IsSteady L ds answer
      → Distinct L ds
      → is_negative (L.init none far).0.0 ≡ false
      → 258 ≤ length us
      → (xs : List L.Device) × ((L.get_device_list (L.init none far).0.1 (L.init none far).1).0
          ≡ some xs)
        × (h' : Globals L) × Settles T
            (config T p [] q [])
            (reported (first_arg argv) (first_found (map answer (take irpc_max_devs xs))))
            h'
  unfolding Client.program
  search-Whole port argv s s' p tmp port' argv' t t' q connected serving steady distinct fine
        enough =
      let (sock, e) =
        connect_and_talk-running N L (main L) u (started L near) usage_line port argv p s s'
          connected in
      let (k, e') =
        Server.program-running M L (m ∷ us) (started L far) tmp port' argv' q t t' serving in
      let (xs, listed, h', ended) =
        search-first_found T L (first_arg argv) typed u (accepted_info k) (connected_info sock)
          (connected_info-IsInfo sock) m us (started L far) (started L near) memory ds answer steady
          distinct fine enough in
      rw (e, e') (xs, listed, h', finished-Settles T _ _ h' ended)
