-- ===== src/Remote/Opens.antt =====
-- What a client gets that opens a device over the socket (`IRPC_USB_OPEN`, libirpc.c).
use libirpc.Prelude.{◌≡◌}
use libirpc.Types.{usb_open}
use libirpc.Types.Bounds.{IsInfo}
use libirpc.Tpl.{Tpl}
use libirpc.Usb.{Libusb, IsTyped}
use libirpc.Rpc.Base.{IsUninit, Called}
use libirpc.Local.{local_call}
use libirpc.Local.Opens.{OpensOrFails, local_call-OpensOrFails}
use libirpc.Remote.Setup.{Setting, before, after}
use libirpc.Remote.Call.{irpc_call-local_call}

module _ (T : Tpl) (L : Libusb) (typed : IsTyped L) {B : Type 0} (x : Setting L B)
    (info : IsInfo x.info) (memory : IsUninit x.memory) where
  -- When a client calls `irpc_call` of `IRPC_USB_OPEN` and the server waits in its loop, the run
  -- goes on with the client at a result and an info for which one of two holds: the result is
  -- success, the server's `irpc_handle` is a device's handle and the client's handle describes
  -- it, or the result is failure and the client's handle is what the server's uninitialised
  -- variable held. Assumed: libusb keeps to its types, and the caller's info and the server's
  -- uninitialised memory hold values of their types.
  pub irpc_call-OpensOrFails :
      (c : Called L) × (before T L x usb_open ≡ after T L x c)
      × OpensOrFails L x.memory ((c.retval, c.info.handle), c.globals)
  irpc_call-OpensOrFails = (
    local_call L usb_open x.memory x.server x.info,
    irpc_call-local_call T L typed x info memory usb_open (λ e. cc) tt,
    local_call-OpensOrFails L x.memory x.server x.info,
  )
