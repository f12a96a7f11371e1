-- ===== src/Rpc/Context.antt =====
-- libirpc.c: `libusb_init` and `libusb_exit`.
use libirpc.Prelude.{none, ℤ}
use libirpc.Types.{
  IrpcConnectionInfo, IrpcContext, context_client, context_server, usb_init, usb_exit, irpc_success,
}
use libirpc.Tpl.Formats.{int_fmt}
use libirpc.Usb.{Libusb}
use libirpc.Proc.{Proc, done, tpl_write, tpl_read, ◌>>=◌, ◌>>◌}
use libirpc.Rpc.Base.{Globals, irpc_send_func}

module _ (L : Libusb) where
  unfoldable pub irpc_recv_usb_init : IrpcConnectionInfo → Proc ℤ
  unfolding irpc_send_func
  irpc_recv_usb_init ci = do
    irpc_send_func usb_init ci.server_sock
    v ← tpl_read ci.server_sock int_fmt
    done v.0

  unfoldable pub irpc_send_usb_init : IrpcConnectionInfo → Globals L → Proc (Globals L)
  irpc_send_usb_init ci g = do
    let r = L.init g.irpc_ctx g.usb
    tpl_write ci.client_sock int_fmt (r.0.0, tt)
    done (record g { irpc_ctx = r.0.1; usb = r.1 })

  unfoldable pub irpc_usb_init : IrpcConnectionInfo → IrpcContext → Globals L → Proc (ℤ × Globals L)
  unfolding irpc_recv_usb_init irpc_send_usb_init
  irpc_usb_init ci context_server g = do g' ← irpc_send_usb_init ci g; done (irpc_success, g')
  irpc_usb_init ci context_client g = do retval ← irpc_recv_usb_init ci; done (retval, g)

  unfoldable pub irpc_usb_exit : IrpcConnectionInfo → IrpcContext → Globals L → Proc (Globals L)
  unfolding irpc_send_func
  irpc_usb_exit ci context_server g = done (record g { usb = L.exit g.irpc_ctx g.usb })
  irpc_usb_exit ci context_client g = do
    irpc_send_func usb_exit ci.server_sock
    done (record g { irpc_ctx = none })
