-- ===== src/Session/Refines.antt =====
-- A conversation over the socket, and the same program run on the server's host.
use libirpc.Prelude.{◌≡◌, ◌∙◌, List, [], ◌∷◌, All, pos, arith}
use libirpc.Types.{IrpcFunc, func_code, context_client, IrpcInfo, usb_init, usb_exit}
use libirpc.Tpl.{Tpl}
use libirpc.Usb.{Libusb, IsTyped}
use libirpc.Proc.{Stop, Proc, done, stop, bad_load, out_of_rounds, ◌>>=◌}
use libirpc.Proc.Run.{
  run, finished, run-send, client_stopped, run-leave, run-fail, run-finish, run-stop,
  server_stopped,
}
use libirpc.Rpc.Base.{Globals, Uninit, IsUninit, Called}
use libirpc.Rpc.Call.{irpc_call, irpc_dispatch}
use libirpc.Server.{server_loop}
use libirpc.Local.{local_call}
use libirpc.Local.Keeps.{IsCalled, local_call-IsCalled}
use libirpc.Remote.Call.{irpc_call-local_call, irpc_call-exit}
use libirpc.Remote.Setup.{Setting}
use libirpc.Session.{Script, leave, fault, exit, call, remote, local, Ready}

-- A call that meets a server with no round left.
module _ (T : Tpl) (L : Libusb) {B : Type 0} (k : Called L → Proc B) (u : Uninit) (gc g : Globals L)
    (i si : IrpcInfo) where
  irpc_call_late :
      (f : IrpcFunc)
      → run T
          (irpc_call L (pos (func_code f)) context_client u gc i >>= k)
          []
          (server_loop L [] g si)
          []
        ≡ server_stopped out_of_rounds
  unfolding irpc_call irpc_dispatch server_loop func_code
  irpc_call_late usb_init = run-send T _ _ _ _ _ _ (omega arith) ∙ run-stop T _ _
  irpc_call_late _ = run-send T _ _ _ _ _ _ (omega arith) ∙ run-stop T _ _

module _ (T : Tpl) (L : Libusb) (typed : IsTyped L) (u₀ : Uninit) (si : IrpcInfo) {A : Type 0} where
  run-left :
      (a : A) (us : List Uninit) (h : Globals L)
      → run T (done a) [] (server_loop L us h si) [] ≡ server_stopped bad_load
  unfolding server_loop
  run-left a us h = run-leave T _ a _ _

  run-failed :
      (e : Stop) (us : List Uninit) (h : Globals L)
      → run T {A = A} (stop e) [] (server_loop L us h si) [] ≡ client_stopped e
  unfolding server_loop
  run-failed e us h = run-fail T _ e _ _

  run-exit :
      (i : IrpcInfo) (a : A) (u : Uninit) (us : List Uninit) (h g : Globals L)
      → run T (remote L u₀ g (exit i a)) [] (server_loop L (u ∷ us) h si) []
        ≡ finished a (local_call L usb_exit u h i).globals
  unfolding remote local_call
  run-exit i a u us h g = irpc_call-exit T L (λ c. done a) u₀ u us g h i si ∙ run-finish T a _

  -- A client program against the server's loop, over the socket, has the same outcome as the same
  -- program run on the server's host with one local call in place of each remote one: the same
  -- report and the same final globals of the server, the same fault of the client, the same
  -- failure of the server where the client leaves without `IRPC_USB_EXIT` or makes more calls
  -- than there are rounds. Assumed: libusb keeps to its types, the uninitialised memory holds
  -- bytes and the infos that the program passes hold values of their members' types, with
  -- transfer lengths of at most `IRPC_MAX_DATA`.
  pub session-local :
      (s : Script L A) (us : List Uninit) (h g : Globals L)
      → Ready L s
      → All IsUninit us
      → run T (remote L u₀ g s) [] (server_loop L us h si) [] ≡ local L us h g s
  unfolding remote local
  session-local (leave a) us h g ready memory = run-left a us h
  session-local (fault e) us h g ready memory = run-failed e us h
  session-local (exit i a) [] h g ready memory = irpc_call_late T L _ u₀ g h i si usb_exit
  session-local (exit i a) (u ∷ us) h g ready memory = run-exit i a u us h g
  session-local (call f i k) [] h g ready memory = irpc_call_late T L _ u₀ g h i si f
  session-local (call f i k) (u ∷ us) h g (ne, info, fits, next) memory =
      irpc_call-local_call T L typed x info memory.0 f ne fits
      ∙ session-local (k (record c { globals = g })) us c.globals g
          (next (record c { globals = g }) (record { retval = kept.retval; info = kept.info }))
          memory.1
    where
      c : Called L
      c = local_call L f u h i

      kept : IsCalled L c
      kept = local_call-IsCalled L typed u memory.0 h i info f fits

      x : Setting L A
      x = record {
        k = λ c'. remote L u₀ c'.globals (k c');
        client_memory = u₀;
        memory = u;
        later_memory = us;
        client = g;
        server = h;
        info = i;
        server_info = si;
      }
