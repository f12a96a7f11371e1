-- ===== src/Remote/Setup.antt =====
-- A call by a client of a server that waits in its loop (irpc_server.c).
use libirpc.Prelude.{◌≡◌, List, [], ◌∷◌, pos}
use libirpc.Types.{IrpcFunc, func_code, context_client, IrpcInfo}
use libirpc.Tpl.{Tpl}
use libirpc.Usb.{Libusb}
use libirpc.Proc.{Proc, ◌>>=◌}
use libirpc.Proc.Run.{Outcome, run}
use libirpc.Rpc.Base.{Globals, Uninit, Called}
use libirpc.Rpc.Call.{irpc_call}
use libirpc.Server.{server_loop}
use libirpc.Local.{local_call}

-- The client process goes on with `k` after the call.
pub record Setting (L : Libusb) (B : Type 0) : Type 0 where
  pub k : Called L → Proc B
  pub client_memory : Uninit
  pub memory : Uninit
  pub later_memory : List Uninit
  pub client : Globals L
  pub server : Globals L
  pub info : IrpcInfo
  pub server_info : IrpcInfo

module _ (T : Tpl) (L : Libusb) {B : Type 0} where
  -- The client makes the call while the server waits, and no packet is on its way.
  abbrev pub before : Setting L B → IrpcFunc → Outcome B (Globals L)
  before x f =
      run T (irpc_call L (pos (func_code f)) context_client x.client_memory x.client x.info >>= x.k)
        [] (server_loop L (x.memory ∷ x.later_memory) x.server x.server_info) []

  -- The client has the result and the info of the local call, the server its globals; the server
  -- waits again, and no packet is on its way.
  abbrev pub after : Setting L B → Called L → Outcome B (Globals L)
  after x c =
      run T (x.k (record c { globals = x.client })) []
        (server_loop L x.later_memory c.globals x.server_info) []

  abbrev pub Agrees : Setting L B → IrpcFunc → Type 0
  Agrees x f = before x f ≡ after x (local_call L f x.memory x.server x.info)
