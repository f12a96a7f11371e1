-- ===== src/FindIdevice/Completes.antt =====
-- How a conversation of irpc_find_idevice.c with irpc_server.c ends, from the start of both
-- programs, whatever the devices of the server's host.
use Prim.Native.String.{String}
use libirpc.Prelude.{ℤ, ◌≤◌, ◌≡◌, ◌∙◌, ap, false, none, List, [], ◌∷◌, All, is_negative, length}
use libirpc.Types.{IrpcInfo}
use libirpc.Types.Bounds.{IsInfo}
use libirpc.Tpl.{Tpl}
use libirpc.Usb.{Libusb, IsTyped}
use libirpc.Net.{Net, returns}
use libirpc.Proc.{Proc, running}
use libirpc.Proc.Steps.{config}
use libirpc.Proc.Settles.{Settles, finished-Settles}
use libirpc.Rpc.Base.{Globals, started, Uninit, IsUninit}
use libirpc.Server.{server_loop}
use libirpc.Server.Clients.{server_loop-HoldsAll}
use libirpc.Local.Handles.{held}
use libirpc.Local.Counts.{Counts, GivesBack}
use libirpc.Session.{remote}
use libirpc.IrpcClient.Program.{
  first_arg, connected_info, connected_info-IsInfo, connect_and_talk-running,
}
use libirpc.Server.Program as Server
use libirpc.Server.Program.{accepted_info}
use libirpc.FindIdevice.{Report, main}
use libirpc.FindIdevice.Connect.{usage_line}
use libirpc.FindIdevice.Program as Client
use libirpc.FindIdevice.Finish.{search-finished}
use libirpc.FindIdevice.Calls.{search-irpc_handle, search-contexts}
use libirpc.FindIdevice.Leaks.{search-lists}

module _ (T : Tpl) (L : Libusb) (typed : IsTyped L) (counts : Counts L) (u m : Uninit)
    (us : List Uninit) (memory : All IsUninit (m ∷ us)) (far near : L.State) where
  -- What a conversation of the two programs comes to.
  abbrev pub Completes : Proc Report → Proc (Globals L) → Type 0
  Completes p q =
      (r : Report) × (h' : Globals L) × Settles T (config T p [] q []) r h'
      × GivesBack L counts (started L far) h'

  connected-Completes :
      (ip : String) (i si : IrpcInfo)
      → IsInfo i
      → counts.handles far ≡ 0
      → is_negative (L.init none far).0.0 ≡ false
      → 258 ≤ length us
      → Completes
          (remote L u (started L near) (main L ip i))
          (server_loop L (m ∷ us) (started L far) si)
  connected-Completes ip i si info unopened fine enough =
      let h = started L far in
      let g = started L near in
      let (r, h', e) = search-finished T L ip typed u si i info m us h g memory fine enough in
      let free = search-irpc_handle T L ip typed u si i info (m ∷ us) h g memory r h' e in
      (
        r,
        h',
        finished-Settles T _ r h' e,
        record {
          irpc_handle = free;
          handles =
              server_loop-HoldsAll T L typed counts.handles counts.handles-IsCount _ [] [] (m ∷ us)
                h h' si r memory unopened e
              ∙ ap held free;
          contexts =
              search-contexts T L ip typed u si i info (m ∷ us) h g memory r h' e counts.contexts
                counts.contexts-IsContextCount;
          lists =
              search-lists T L ip typed counts.lists counts.lists-IsListCount u si i info (m ∷ us) h
                g memory r h' e;
        },
      )

  module _ (N M : Net) where
    -- irpc_find_idevice.c and irpc_server.c as whole programs, each from its start with its
    -- static variables NULL, on systems of their own: if both set-ups come to a process, no
    -- handle of libusb is open on the server's host, its initialisation succeeds and the loop has
    -- 259 rounds, then however the steps of the two connected processes are interleaved, every
    -- schedule ends with both returned, with the same results, whatever the devices and their
    -- answers, and what the server got from libusb is given back: its `irpc_handle` is NULL, no
    -- handle is open, libusb has as many contexts as before, and at most one more device list is
    -- unfreed. Assumed: libusb keeps to its types and counts its handles, contexts and lists, and
    -- the uninitialised memory holds values of its types.
    pub search-Completes :
        (port : ℤ) (argv : List String) (s s' : N.State) (p : Proc Report) (tmp port' : ℤ)
        (argv' : List String) (t t' : M.State) (q : Proc (Globals L))
        → Client.program N L u (started L near) port argv s ≡ returns (running p) s'
        → Server.program M L (m ∷ us) (started L far) tmp port' argv' t ≡ returns (running q) t'
        → counts.handles far ≡ 0
        → is_negative (L.init none far).0.0 ≡ false
        → 258 ≤ length us
        → Completes p q
    unfolding Client.program
    search-Completes port argv s s' p tmp port' argv' t t' q connected serving unopened fine
          enough =
        let (sock, e) =
          connect_and_talk-running N L (main L) u (started L near) usage_line port argv p s s'
            connected in
        let (k, e') =
          Server.program-running M L (m ∷ us) (started L far) tmp port' argv' q t t' serving in
        rw (e, e')
          (connected-Completes (first_arg argv) (connected_info sock) (accepted_info k)
            (connected_info-IsInfo sock) unopened fine enough)
