-- ===== src/Server.antt =====
-- irpc_server.c: the loop that serves one client.
pub mod Answers
pub mod Clients
pub mod Main
pub mod Sockets
pub mod Program
pub mod Serves
pub mod Overrun
use libirpc.Prelude.{List, [], ◌∷◌, ℤ, pos, eq_ℤ, if◌then◌else◌}
use libirpc.Types.{usb_exit, func_code, context_server, IrpcInfo}
use libirpc.Usb.{Libusb}
use libirpc.Proc.{Proc, done, stop, out_of_rounds, ◌>>=◌}
use libirpc.Rpc.Base.{Globals, Uninit, irpc_read_func}
use libirpc.Rpc.Call.{irpc_call}

module _ (L : Libusb) where
  -- The body of the `while (1)` of `server_loop` once `func` is read, and the rounds after it, with
  -- the uninitialised memory that each round meets. The loop is left when the client has asked for
  -- the exit.
  unfoldable pub rounds : List Uninit → ℤ → Globals L → IrpcInfo → Proc (Globals L)
  unfolding irpc_read_func func_code
  rounds [] func g i = stop out_of_rounds
  rounds (u ∷ us) func g i = do
    r ← irpc_call L func context_server u g i
    let rest = do next ← irpc_read_func r.info.ci.client_sock; rounds us next r.globals r.info
    if eq_ℤ func (pos (func_code usb_exit)) then done r.globals else rest

  -- `server_loop`, from its `while (1)` on
  unfoldable pub server_loop : List Uninit → Globals L → IrpcInfo → Proc (Globals L)
  unfolding rounds
  server_loop us g i = do func ← irpc_read_func i.ci.client_sock; rounds us func g i
