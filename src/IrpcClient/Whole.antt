-- ===== src/IrpcClient/Whole.antt =====
-- A whole conversation of irpc_client.c with irpc_server.c, from the start of both programs.
use libirpc.Prelude.{
  ℤ, ◌≤◌, ◌≡◌, refl, sym, ◌∙◌, ap, false, none, List, [], ◌∷◌, All, is_negative, length,
}
use libirpc.Types.{IrpcInfo}
use Prim.Native.String.{String}
use libirpc.Types.Bounds.{IsInfo}
use libirpc.Proc.{Proc, running}
use libirpc.Net.{Net, returns}
use libirpc.Tpl.{Tpl}
use libirpc.Usb.{Libusb, IsTyped}
use libirpc.Proc.Steps.{config}
use libirpc.Proc.Settles.{Settles, finished-Settles}
use libirpc.Rpc.Base.{Globals, started, Uninit, IsUninit}
use libirpc.Server.{server_loop}
use libirpc.Server.Clients.{server_loop-HoldsAll}
use libirpc.Local.Handles.{held}
use libirpc.Local.Counts.{Counts, GivesBack}
use libirpc.Session.{remote}
use libirpc.Session.Finish.{Results-local}
use libirpc.IrpcClient.{Report, main}
use libirpc.IrpcClient.Connect.{usage_line}
use libirpc.IrpcClient.Program.{connected_info, connected_info-IsInfo}
use libirpc.Server.Program.{accepted_info}
use libirpc.IrpcClient.Program as Client
use libirpc.Server.Program as Server
use libirpc.IrpcClient.Ready.{main-local}
use libirpc.IrpcClient.Finish.{main-finished}
use libirpc.IrpcClient.Closes.{main-IsFree}
use libirpc.IrpcClient.Leaks.{main-contexts, main-lists}
use libirpc.IrpcClient.Reports.{IsHonest, main-Results}

module _ (T : Tpl) (L : Libusb) (typed : IsTyped L) (counts : Counts L) (u m : Uninit)
    (us : List Uninit) (memory : All IsUninit (m ∷ us)) where
  -- What a conversation of the two programs comes to, where libusb was in the state `far` before.
  abbrev pub Completes : L.State → Proc Report → Proc (Globals L) → Type 0
  Completes far p q =
      (r : Report) × (h' : Globals L) × Settles T (config T p [] q []) r h'
      × IsHonest r
      × GivesBack L counts (started L far) h'

  connected-Completes :
      (far near : L.State) (i si : IrpcInfo)
      → IsInfo i
      → counts.handles far ≡ 0
      → is_negative (L.init none far).0.0 ≡ false
      → 7 ≤ length us
      → Completes far
          (remote L u (started L near) (main L i))
          (server_loop L (m ∷ us) (started L far) si)
  connected-Completes far near i si info unopened fine enough =
      let h = started L far in
      let g = started L near in
      let (r, h', e) = main-finished T L typed u si i info m us h g memory fine enough in
      let free = main-IsFree T L typed u si i info (m ∷ us) h g memory r h' refl e in
      (
        r,
        h',
        finished-Settles T _ r h' e,
        Results-local L IsHonest (main L i) (m ∷ us) h g r h' (main-Results L i)
            (sym (main-local T L typed u si i info (m ∷ us) h g memory) ∙ e),
        record {
          irpc_handle = free;
          handles =
              server_loop-HoldsAll T L typed counts.handles counts.handles-IsCount _ [] [] (m ∷ us)
                h h' si r memory unopened e
              ∙ ap held free;
          contexts =
              main-contexts T L typed u si i info (m ∷ us) h g memory counts.contexts
                counts.contexts-IsContextCount r h' e;
          lists =
              main-lists T L typed u si i info (m ∷ us) h g memory counts.lists
                counts.lists-IsListCount r h' e;
        },
      )

  module _ (N M : Net) (near : L.State) (far : L.State) where
    -- irpc_client.c and irpc_server.c as whole programs, each from its start with its static
    -- variables NULL, on systems of their own: if the client's set-up comes to a process and the
    -- server's set-up comes to a process, no handle of libusb is open on the server's host, its
    -- initialisation succeeds and the loop has 8 rounds, then however the steps of the two
    -- connected processes are interleaved, every schedule ends with both returned, with the same
    -- results, whatever the devices and their answers; the client's value is negative exactly if
    -- its output says that a call failed, and what the server got from libusb is given back: its
    -- `irpc_handle` is NULL, no handle is open, libusb has as many contexts as before, and at
    -- most one more device list is unfreed. Assumed: libusb keeps to its types and counts its
    -- handles, contexts and lists, and the uninitialised memory holds values of its types.
    pub client-Whole :
        (port : ℤ) (argv : List String) (s s' : N.State) (p : Proc Report) (tmp port' : ℤ)
        (argv' : List String) (t t' : M.State) (q : Proc (Globals L))
        → Client.program N L u (started L near) port argv s ≡ returns (running p) s'
        → Server.program M L (m ∷ us) (started L far) tmp port' argv' t ≡ returns (running q) t'
        → counts.handles far ≡ 0
        → is_negative (L.init none far).0.0 ≡ false
        → 7 ≤ length us
        → Completes far p q
    unfolding Client.program
    client-Whole port argv s s' p tmp port' argv' t t' q connected serving unopened fine enough =
        let (sock, e) =
          Client.connect_and_talk-running N L (λ ip. main L) u (started L near) usage_line port argv
            p s s' connected in
        let (k, e') =
          Server.program-running M L (m ∷ us) (started L far) tmp port' argv' q t t' serving in
        rw (e, e')
          (connected-Completes far near (connected_info sock) (accepted_info k)
            (connected_info-IsInfo sock) unopened fine enough)
