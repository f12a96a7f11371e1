-- ===== src/Rpc/Interface.antt =====
-- libirpc.c: claiming and releasing an interface, and its alternate setting. The handle that the client
-- sends is read and not used: each call goes to the server's `irpc_handle`.
use libirpc.Prelude.{ℤ}
use libirpc.Types.{
  IrpcConnectionInfo, IrpcContext, context_client, context_server, usb_claim_interface,
  usb_release_interface, usb_set_interface_alt_setting, IrpcDeviceHandle, irpc_success,
}
use libirpc.Tpl.Formats.{int_fmt, dev_handle_int_fmt, dev_handle_int_int_fmt}
use libirpc.Usb.{Libusb}
use libirpc.Proc.{Proc, done, tpl_write, tpl_read, ◌>>=◌, ◌>>◌}
use libirpc.Rpc.Base.{Globals, zero_or_failure, irpc_send_func}

module _ (L : Libusb) where
  unfoldable pub irpc_recv_usb_claim_interface : IrpcConnectionInfo → IrpcDeviceHandle → ℤ → Proc ℤ
  unfolding irpc_send_func
  irpc_recv_usb_claim_interface ci handle intf = do
    irpc_send_func usb_claim_interface ci.server_sock
    tpl_write ci.server_sock dev_handle_int_fmt (handle, (intf, tt))
    v ← tpl_read ci.server_sock int_fmt
    done v.0

  unfoldable pub irpc_send_usb_claim_interface : IrpcConnectionInfo → Globals L → Proc (Globals L)
  irpc_send_usb_claim_interface ci g = do
    v ← tpl_read ci.client_sock dev_handle_int_fmt
    let r = L.claim_interface g.irpc_handle v.1.0 g.usb
    tpl_write ci.client_sock int_fmt (zero_or_failure r.0, tt)
    done (record g { usb = r.1 })

  unfoldable pub irpc_usb_claim_interface :
      IrpcConnectionInfo → IrpcContext → Globals L → IrpcDeviceHandle → ℤ → Proc (ℤ × Globals L)
  unfolding irpc_recv_usb_claim_interface irpc_send_usb_claim_interface
  irpc_usb_claim_interface ci context_server g handle intf = do
    g' ← irpc_send_usb_claim_interface ci g
    done (irpc_success, g')
  irpc_usb_claim_interface ci context_client g handle intf = do
    retval ← irpc_recv_usb_claim_interface ci handle intf
    done (retval, g)

  unfoldable pub irpc_recv_usb_release_interface :
      IrpcConnectionInfo → IrpcDeviceHandle → ℤ → Proc ℤ
  unfolding irpc_send_func
  irpc_recv_usb_release_interface ci handle intf = do
    irpc_send_func usb_release_interface ci.server_sock
    tpl_write ci.server_sock dev_handle_int_fmt (handle, (intf, tt))
    v ← tpl_read ci.server_sock int_fmt
    done v.0

  unfoldable pub irpc_send_usb_release_interface : IrpcConnectionInfo → Globals L → Proc (Globals L)
  irpc_send_usb_release_interface ci g = do
    v ← tpl_read ci.client_sock dev_handle_int_fmt
    let r = L.release_interface g.irpc_handle v.1.0 g.usb
    tpl_write ci.client_sock int_fmt (zero_or_failure r.0, tt)
    done (record g { usb = r.1 })

  unfoldable pub irpc_usb_release_interface :
      IrpcConnectionInfo → IrpcContext → Globals L → IrpcDeviceHandle → ℤ → Proc (ℤ × Globals L)
  unfolding irpc_recv_usb_release_interface irpc_send_usb_release_interface
  irpc_usb_release_interface ci context_server g handle intf = do
    g' ← irpc_send_usb_release_interface ci g
    done (irpc_success, g')
  irpc_usb_release_interface ci context_client g handle intf = do
    retval ← irpc_recv_usb_release_interface ci handle intf
    done (retval, g)

  unfoldable pub irpc_recv_usb_set_interface_alt_setting :
      IrpcConnectionInfo → IrpcDeviceHandle → ℤ → ℤ → Proc ℤ
  unfolding irpc_send_func
  irpc_recv_usb_set_interface_alt_setting ci handle intf alt_setting = do
    irpc_send_func usb_set_interface_alt_setting ci.server_sock
    tpl_write ci.server_sock dev_handle_int_int_fmt (handle, (intf, (alt_setting, tt)))
    v ← tpl_read ci.server_sock int_fmt
    done v.0

  unfoldable pub irpc_send_usb_set_interface_alt_setting :
      IrpcConnectionInfo → Globals L → Proc (Globals L)
  irpc_send_usb_set_interface_alt_setting ci g = do
    v ← tpl_read ci.client_sock dev_handle_int_int_fmt
    let r = L.set_interface_alt_setting g.irpc_handle v.1.0 v.1.1.0 g.usb
    tpl_write ci.client_sock int_fmt (zero_or_failure r.0, tt)
    done (record g { usb = r.1 })

  unfoldable pub irpc_usb_set_interface_alt_setting :
      IrpcConnectionInfo → IrpcContext → Globals L → IrpcDeviceHandle → ℤ → ℤ → Proc (ℤ × Globals L)
  unfolding irpc_recv_usb_set_interface_alt_setting irpc_send_usb_set_interface_alt_setting
  irpc_usb_set_interface_alt_setting ci context_server g handle intf alt_setting = do
    g' ← irpc_send_usb_set_interface_alt_setting ci g
    done (irpc_success, g')
  irpc_usb_set_interface_alt_setting ci context_client g handle intf alt_setting = do
    retval ← irpc_recv_usb_set_interface_alt_setting ci handle intf alt_setting
    done (retval, g)
