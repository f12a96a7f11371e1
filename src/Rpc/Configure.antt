-- ===== src/Rpc/Configure.antt =====
-- libirpc.c: the configuration of a device, its reset, and the clearing of a halted endpoint. The
-- configuration that libusb reports overwrites the server's local variable and is not sent.
use libirpc.Prelude.{ℤ, to_unsigned}
use libirpc.Types.{
  IrpcConnectionInfo, IrpcContext, context_client, context_server, usb_get_configuration,
  usb_set_configuration, usb_reset_device, usb_clear_halt, IrpcDeviceHandle, irpc_success,
}
use libirpc.Tpl.Formats.{int_fmt, dev_handle_fmt, dev_handle_int_fmt, clear_halt_fmt}
use libirpc.Usb.{Libusb}
use libirpc.Proc.{Proc, done, tpl_write, tpl_read, ◌>>=◌, ◌>>◌}
use libirpc.Rpc.Base.{Globals, zero_or_failure, irpc_send_func}

module _ (L : Libusb) where
  unfoldable pub irpc_recv_usb_get_configuration :
      IrpcConnectionInfo → IrpcDeviceHandle → ℤ → Proc ℤ
  unfolding irpc_send_func
  irpc_recv_usb_get_configuration ci handle config = do
    irpc_send_func usb_get_configuration ci.server_sock
    tpl_write ci.server_sock dev_handle_int_fmt (handle, (config, tt))
    v ← tpl_read ci.server_sock int_fmt
    done v.0

  unfoldable pub irpc_send_usb_get_configuration : IrpcConnectionInfo → Globals L → Proc (Globals L)
  irpc_send_usb_get_configuration ci g = do
    v ← tpl_read ci.client_sock dev_handle_int_fmt
    let r = L.get_configuration g.irpc_handle g.usb
    tpl_write ci.client_sock int_fmt (zero_or_failure r.0.0, tt)
    done (record g { usb = r.1 })

  unfoldable pub irpc_usb_get_configuration :
      IrpcConnectionInfo → IrpcContext → Globals L → IrpcDeviceHandle → ℤ → Proc (ℤ × Globals L)
  unfolding irpc_recv_usb_get_configuration irpc_send_usb_get_configuration
  irpc_usb_get_configuration ci context_server g handle config = do
    g' ← irpc_send_usb_get_configuration ci g
    done (irpc_success, g')
  irpc_usb_get_configuration ci context_client g handle config = do
    retval ← irpc_recv_usb_get_configuration ci handle config
    done (retval, g)

  unfoldable pub irpc_recv_usb_set_configuration :
      IrpcConnectionInfo → IrpcDeviceHandle → ℤ → Proc ℤ
  unfolding irpc_send_func
  irpc_recv_usb_set_configuration ci handle config = do
    irpc_send_func usb_set_configuration ci.server_sock
    tpl_write ci.server_sock dev_handle_int_fmt (handle, (config, tt))
    v ← tpl_read ci.server_sock int_fmt
    done v.0

  unfoldable pub irpc_send_usb_set_configuration : IrpcConnectionInfo → Globals L → Proc (Globals L)
  irpc_send_usb_set_configuration ci g = do
    v ← tpl_read ci.client_sock dev_handle_int_fmt
    let r = L.set_configuration g.irpc_handle v.1.0 g.usb
    tpl_write ci.client_sock int_fmt (zero_or_failure r.0, tt)
    done (record g { usb = r.1 })

  unfoldable pub irpc_usb_set_configuration :
      IrpcConnectionInfo → IrpcContext → Globals L → IrpcDeviceHandle → ℤ → Proc (ℤ × Globals L)
  unfolding irpc_recv_usb_set_configuration irpc_send_usb_set_configuration
  irpc_usb_set_configuration ci context_server g handle config = do
    g' ← irpc_send_usb_set_configuration ci g
    done (irpc_success, g')
  irpc_usb_set_configuration ci context_client g handle config = do
    retval ← irpc_recv_usb_set_configuration ci handle config
    done (retval, g)

  unfoldable pub irpc_recv_usb_reset_device : IrpcConnectionInfo → IrpcDeviceHandle → Proc ℤ
  unfolding irpc_send_func
  irpc_recv_usb_reset_device ci handle = do
    irpc_send_func usb_reset_device ci.server_sock
    tpl_write ci.server_sock dev_handle_fmt (handle, tt)
    v ← tpl_read ci.server_sock int_fmt
    done v.0

  unfoldable pub irpc_send_usb_reset_device : IrpcConnectionInfo → Globals L → Proc (Globals L)
  irpc_send_usb_reset_device ci g = do
    v ← tpl_read ci.client_sock dev_handle_fmt
    let r = L.reset_device g.irpc_handle g.usb
    tpl_write ci.client_sock int_fmt (zero_or_failure r.0, tt)
    done (record g { usb = r.1 })

  unfoldable pub irpc_usb_reset_device :
      IrpcConnectionInfo → IrpcContext → Globals L → IrpcDeviceHandle → Proc (ℤ × Globals L)
  unfolding irpc_recv_usb_reset_device irpc_send_usb_reset_device
  irpc_usb_reset_device ci context_server g handle = do
    g' ← irpc_send_usb_reset_device ci g
    done (irpc_success, g')
  irpc_usb_reset_device ci context_client g handle = do
    retval ← irpc_recv_usb_reset_device ci handle
    done (retval, g)

  unfoldable pub irpc_recv_usb_clear_halt : IrpcConnectionInfo → IrpcDeviceHandle → ℤ → Proc ℤ
  unfolding irpc_send_func
  irpc_recv_usb_clear_halt ci handle endpoint = do
    irpc_send_func usb_clear_halt ci.server_sock
    tpl_write ci.server_sock clear_halt_fmt (handle, (endpoint, tt))
    v ← tpl_read ci.server_sock int_fmt
    done v.0

  unfoldable pub irpc_send_usb_clear_halt : IrpcConnectionInfo → Globals L → Proc (Globals L)
  irpc_send_usb_clear_halt ci g = do
    v ← tpl_read ci.client_sock clear_halt_fmt
    let r = L.clear_halt g.irpc_handle (to_unsigned 8 v.1.0) g.usb
    tpl_write ci.client_sock int_fmt (zero_or_failure r.0, tt)
    done (record g { usb = r.1 })

  unfoldable pub irpc_usb_clear_halt :
      IrpcConnectionInfo → IrpcContext → Globals L → IrpcDeviceHandle → ℤ → Proc (ℤ × Globals L)
  unfolding irpc_recv_usb_clear_halt irpc_send_usb_clear_halt
  irpc_usb_clear_halt ci context_server g handle endpoint = do
    g' ← irpc_send_usb_clear_halt ci g
    done (irpc_success, g')
  irpc_usb_clear_halt ci context_client g handle endpoint = do
    retval ← irpc_recv_usb_clear_halt ci handle endpoint
    done (retval, g)
