-- ===== src/Rpc/Open.antt =====
-- libirpc.c: `libusb_open_device_with_vid_pid`, `libusb_close` and `libusb_open`.
use libirpc.Prelude.{Option, none, some, List, ℤ, to_unsigned}
use libirpc.Types.{
  IrpcConnectionInfo, IrpcContext, context_client, context_server, usb_open_device_with_vid_pid,
  usb_close, usb_open, IrpcDevice, IrpcDeviceHandle, irpc_success, irpc_failure,
}
use libirpc.Types.Bounds.{zero_device}
use libirpc.Tpl.Formats.{prid_veid_fmt, dev_handle_fmt, dev_handle_ret_fmt, dev_fmt}
use libirpc.Usb.{Libusb}
use libirpc.Proc.{Proc, done, tpl_write, tpl_read, ◌>>=◌, ◌>>◌}
use libirpc.Rpc.Base.{Globals, Uninit, irpc_send_func}
use libirpc.Rpc.Devices.{reflect_device, find_device, listed}

module _ (L : Libusb) where
  -- `if (irpc_handle) { libusb_close(irpc_handle); irpc_handle = NULL; }`
  abbrev pub close_handle : Option L.Handle → L.State → L.State
  close_handle none s = s
  close_handle (some h) s = L.close h s

  abbrev pub reflect_handle : L.Handle → IrpcDeviceHandle
  reflect_handle h = record { dev = reflect_device L (L.handle_dev h) }

  unfoldable pub irpc_recv_usb_open_device_with_vid_pid :
      IrpcConnectionInfo → ℤ → ℤ → Proc IrpcDeviceHandle
  unfolding irpc_send_func
  irpc_recv_usb_open_device_with_vid_pid ci vendor_id product_id = do
    irpc_send_func usb_open_device_with_vid_pid ci.server_sock
    tpl_write ci.server_sock prid_veid_fmt (vendor_id, (product_id, tt))
    v ← tpl_read ci.server_sock dev_handle_fmt
    done v.0

  -- The packet for the opened handle; all zeros (`bzero`) if there is none.
  unfoldable pub handle_or_zero : Option L.Handle → IrpcDeviceHandle
  handle_or_zero none = record { dev = zero_device }
  handle_or_zero (some h) = reflect_handle h

  unfoldable pub irpc_send_usb_open_device_with_vid_pid :
      IrpcConnectionInfo → Globals L → Proc (Globals L)
  irpc_send_usb_open_device_with_vid_pid ci g = do
    v ← tpl_read ci.client_sock prid_veid_fmt
    let r =
        L.open_device_with_vid_pid g.irpc_ctx (to_unsigned 16 v.0) (to_unsigned 16 v.1.0)
          (close_handle g.irpc_handle g.usb)
    tpl_write ci.client_sock dev_handle_fmt (handle_or_zero r.0, tt)
    done (record g { irpc_handle = r.0; usb = r.1 })

  unfoldable pub irpc_usb_open_device_with_vid_pid :
      IrpcConnectionInfo
      → IrpcContext
      → Globals L
      → ℤ
      → ℤ
      → IrpcDeviceHandle
      → Proc (IrpcDeviceHandle × Globals L)
  unfolding irpc_recv_usb_open_device_with_vid_pid irpc_send_usb_open_device_with_vid_pid
  irpc_usb_open_device_with_vid_pid ci context_server g vendor_id product_id handle = do
    g' ← irpc_send_usb_open_device_with_vid_pid ci g
    done (handle, g')
  irpc_usb_open_device_with_vid_pid ci context_client g vendor_id product_id handle = do
    handle' ← irpc_recv_usb_open_device_with_vid_pid ci vendor_id product_id
    done (handle', g)

  unfoldable pub irpc_recv_usb_close : IrpcConnectionInfo → Proc (Unit {0})
  unfolding irpc_send_func
  irpc_recv_usb_close ci = irpc_send_func usb_close ci.server_sock

  unfoldable pub irpc_send_usb_close : Globals L → Globals L
  irpc_send_usb_close g = record g { irpc_handle = none; usb = close_handle g.irpc_handle g.usb }

  unfoldable pub irpc_usb_close : IrpcConnectionInfo → IrpcContext → Globals L → Proc (Globals L)
  unfolding irpc_recv_usb_close irpc_send_usb_close
  irpc_usb_close ci context_server g = done (irpc_send_usb_close g)
  irpc_usb_close ci context_client g = do irpc_recv_usb_close ci; done g

  unfoldable pub irpc_recv_usb_open : IrpcConnectionInfo → IrpcDevice → Proc (ℤ × IrpcDeviceHandle)
  unfolding irpc_send_func
  irpc_recv_usb_open ci dev = do
    irpc_send_func usb_open ci.server_sock
    tpl_write ci.server_sock dev_fmt (dev, tt)
    v ← tpl_read ci.server_sock dev_handle_ret_fmt
    done (v.1.0, v.0)

  -- The part of `irpc_send_usb_open` after `libusb_open`.
  abbrev pub opened :
      Uninit
      → Globals L
      → Option (List L.Device)
      → Option L.Handle × L.State
      → (ℤ × IrpcDeviceHandle) × Globals L
  opened u g list (none, s) = ((irpc_failure, u.handle), record g { irpc_handle = none; usb = s })
  opened u g list (some h, s) = (
    (irpc_success, reflect_handle h),
    record g { irpc_handle = some h; usb = L.free_device_list list s },
  )

  -- What is sent and the globals that are left, for the device that was found. Where no device is
  -- found an open handle stays open; on both failures the list is not freed and the handle that is
  -- sent is uninitialised.
  unfoldable pub open_found :
      Uninit
      → Globals L
      → Option (List L.Device)
      → Option L.Device
      → L.State
      → (ℤ × IrpcDeviceHandle) × Globals L
  open_found u g list none s = ((irpc_failure, u.handle), record g { usb = s })
  open_found u g list (some f) s = opened u g list (L.open_device f (close_handle g.irpc_handle s))

  unfoldable pub irpc_send_usb_open : IrpcConnectionInfo → Uninit → Globals L → Proc (Globals L)
  irpc_send_usb_open ci u g = do
    v ← tpl_read ci.client_sock dev_fmt
    let r = L.get_device_list g.irpc_ctx g.usb
    let o = open_found u g r.0 (find_device L (listed L r.0) v.0) r.1
    tpl_write ci.client_sock dev_handle_ret_fmt (o.0.1, (o.0.0, tt))
    done o.1

  unfoldable pub irpc_usb_open :
      IrpcConnectionInfo
      → IrpcContext
      → Uninit
      → Globals L
      → IrpcDeviceHandle
      → IrpcDevice
      → Proc ((ℤ × IrpcDeviceHandle) × Globals L)
  unfolding irpc_recv_usb_open irpc_send_usb_open
  irpc_usb_open ci context_server u g handle dev = do
    g' ← irpc_send_usb_open ci u g
    done ((irpc_success, handle), g')
  irpc_usb_open ci context_client u g handle dev = do r ← irpc_recv_usb_open ci dev; done (r, g)
