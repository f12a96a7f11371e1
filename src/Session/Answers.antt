-- ===== src/Session/Answers.antt =====
-- A client program against any server, which may answer what it likes.
use libirpc.Prelude.{pos}
use libirpc.Types.{usb_exit, func_code, context_client}
use libirpc.Usb.{Libusb}
use libirpc.Proc.Ensures.{Ensures, Ensures-bind}
use libirpc.Rpc.Base.{Globals, Uninit}
use libirpc.Rpc.Call.{irpc_call}
use libirpc.Local.Keeps.{IsCalled}
use libirpc.Remote.Received.{irpc_call-IsCalled}
use libirpc.Session.{Script, leave, fault, exit, call, remote, Ready}
use libirpc.Session.Finish.{Results}

module _ (L : Libusb) {A : Type 0} (P : A → Type 0) (u : Uninit) where
  pub remote-Ensures :
      (s : Script L A) (g : Globals L) → Ready L s → Results L P s → Ensures P (remote L u g s)
  unfolding remote
  remote-Ensures (leave a) g ready results = results
  remote-Ensures (fault e) g ready results = tt
  remote-Ensures (exit i a) g ready results =
      Ensures-bind (IsCalled L) P (irpc_call L (pos (func_code usb_exit)) context_client u g i) _
        (irpc_call-IsCalled L u g i ready usb_exit) (λ c kept. results)
  remote-Ensures (call f i k) g (ne, info, fits, next) results =
      Ensures-bind (IsCalled L) P (irpc_call L (pos (func_code f)) context_client u g i)
        (λ c. remote L u c.globals (k c)) (irpc_call-IsCalled L u g i info f)
        (λ c kept. remote-Ensures (k c) c.globals (next c kept) (results c))
