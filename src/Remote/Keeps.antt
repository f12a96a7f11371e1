-- ===== src/Remote/Keeps.antt =====
-- What values a call over the socket leaves with the client (`irpc_call`, libirpc.c).
use libirpc.Prelude.{◌≡◌, ◌≢◌}
use libirpc.Types.{IrpcFunc, usb_exit}
use libirpc.Types.Bounds.{IsInfo}
use libirpc.Tpl.{Tpl}
use libirpc.Usb.{Libusb, IsTyped}
use libirpc.Rpc.Base.{IsUninit, Called}
use libirpc.Local.{local_call}
use libirpc.Local.Keeps.{IsCalled, local_call-IsCalled}
use libirpc.Remote.Setup.{Setting, before, after}
use libirpc.Remote.Call.{FitsBuffer, irpc_call-local_call}

module _ (T : Tpl) (L : Libusb) (typed : IsTyped L) {B : Type 0} (x : Setting L B)
    (info : IsInfo x.info) (memory : IsUninit x.memory) where
  -- For every function but `IRPC_USB_EXIT`: when a client calls `irpc_call` and the server waits
  -- in its loop, the run goes on with the client at a result that is an `int` and an info with
  -- values of its members' types and arrays of their sizes. Assumed: the caller's info and the
  -- server's uninitialised memory hold such values, libusb keeps to its types, and the length of
  -- a transfer is at most `IRPC_MAX_DATA`.
  pub irpc_call-IsCalled :
      (f : IrpcFunc)
      → f ≢ usb_exit
      → FitsBuffer f x.info
      → (c : Called L) × (before T L x f ≡ after T L x c) × IsCalled L c
  irpc_call-IsCalled f ne fits = (
    local_call L f x.memory x.server x.info,
    irpc_call-local_call T L typed x info memory f ne fits,
    local_call-IsCalled L typed x.memory memory x.server x.info info f fits,
  )
