-- ===== src/Session.antt =====
-- Whole conversations: a client that makes one call after another (irpc_client.c,
-- irpc_find_idevice.c) of a server in its loop (irpc_server.c).
pub mod Refines
pub mod Ready
pub mod Finish
pub mod Handles
pub mod Calls
pub mod Schedules
pub mod Fails
pub mod Answers
pub mod Gives
pub mod Blind
pub mod Sockets
use libirpc.Prelude.{◌≡◌, ◌≢◌, List, [], ◌∷◌, pos}
use libirpc.Types.{IrpcFunc, usb_exit, func_code, context_client, IrpcInfo}
use libirpc.Types.Bounds.{IsInfo}
use libirpc.Usb.{Libusb}
use libirpc.Proc.{Stop, Proc, done, stop, bad_load, out_of_rounds, ◌>>=◌}
use libirpc.Proc.Run.{Outcome, finished, client_stopped, server_stopped}
use libirpc.Rpc.Base.{Globals, Uninit, Called}
use libirpc.Rpc.Call.{irpc_call}
use libirpc.Local.{local_call}
use libirpc.Local.Keeps.{IsCalled}
use libirpc.Remote.Call.{FitsBuffer}

-- A client program: it leaves without a word, stops at a fault of its own, exits by
-- `IRPC_USB_EXIT`, or makes another call and goes on with what the call leaves behind.
pub data Script (L : Libusb) (A : Type 0) : Type 0 where
  leave : A → Script L A
  fault : Stop → Script L A
  exit : IrpcInfo → A → Script L A
  call : IrpcFunc → IrpcInfo → (Called L → Script L A) → Script L A

module _ (L : Libusb) {A : Type 0} where
  -- The program as a client process; `u` is its uninitialised memory.
  unfoldable pub remote : Uninit → Globals L → Script L A → Proc A
  remote u g (leave a) = done a
  remote u g (fault e) = stop e
  remote u g (exit i a) =
      irpc_call L (pos (func_code usb_exit)) context_client u g i >>= λ c. done a
  remote u g (call f i k) =
      irpc_call L (pos (func_code f)) context_client u g i >>= λ c. remote u c.globals (k c)

  -- The program on the host that has the devices, with the globals `h` of that host; every call
  -- uses up one round.
  unfoldable pub local : List Uninit → Globals L → Globals L → Script L A → Outcome A (Globals L)
  local us h g (leave a) = server_stopped bad_load
  local us h g (fault e) = client_stopped e
  local [] h g (exit i a) = server_stopped out_of_rounds
  local (u ∷ us) h g (exit i a) = finished a (local_call L usb_exit u h i).globals
  local [] h g (call f i k) = server_stopped out_of_rounds
  local (u ∷ us) h g (call f i k) =
      let c = local_call L f u h i in local us c.globals g (k (record c { globals = g }))

  -- Every call passes an info with values of its types and a length that fits the buffer, as long
  -- as the calls before it left such an info behind.
  abbrev pub Ready : Script L A → Type 0
  Ready (leave a) = Unit
  Ready (fault e) = Unit
  Ready (exit i a) = IsInfo i
  Ready (call f i k) =
      (f ≢ usb_exit) × IsInfo i × FitsBuffer f i × ((c : Called L) → IsCalled L c → Ready (k c))
