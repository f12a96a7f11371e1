-- ===== src/Rpc/Call.antt =====
-- libirpc.c: `irpc_call`, the public entry of the library.
use libirpc.Prelude.{Option, none, some, ℤ}
use libirpc.Types.{
  IrpcFunc, func_of, IrpcContext, usb_init, usb_exit, usb_get_device_list,
  usb_get_device_descriptor, usb_open_device_with_vid_pid, usb_close, usb_open, usb_claim_interface,
  usb_release_interface, usb_get_configuration, usb_set_configuration,
  usb_set_interface_alt_setting, usb_reset_device, usb_control_transfer, usb_bulk_transfer,
  usb_clear_halt, usb_get_string_descriptor_ascii, IrpcInfo, irpc_success, irpc_failure,
}
use libirpc.Usb.{Libusb}
use libirpc.Proc.{Proc, done, ◌>>=◌}
use libirpc.Rpc.Base.{Globals, Uninit, Called}
use libirpc.Rpc.Context.{irpc_usb_init, irpc_usb_exit}
use libirpc.Rpc.Devices.{irpc_usb_get_device_list, irpc_usb_get_device_descriptor}
use libirpc.Rpc.Open.{irpc_usb_open_device_with_vid_pid, irpc_usb_close, irpc_usb_open}
use libirpc.Rpc.Interface.{
  irpc_usb_claim_interface, irpc_usb_release_interface, irpc_usb_set_interface_alt_setting,
}
use libirpc.Rpc.Configure.{
  irpc_usb_get_configuration, irpc_usb_set_configuration, irpc_usb_reset_device,
  irpc_usb_clear_halt,
}
use libirpc.Rpc.Transfer.{
  irpc_usb_control_transfer, irpc_usb_bulk_transfer, irpc_usb_get_string_descriptor_ascii,
}

module _ (L : Libusb) where
  abbrev returned : IrpcInfo → ℤ × Globals L → Proc (Called L)
  returned i r = done (record { retval = r.0; globals = r.1; info = i })

  -- The branches of the `switch`.
  unfoldable pub irpc_dispatch :
      IrpcFunc → IrpcContext → Uninit → Globals L → IrpcInfo → Proc (Called L)
  unfolding irpc_usb_init irpc_usb_exit irpc_usb_get_device_list irpc_usb_get_device_descriptor
      irpc_usb_open_device_with_vid_pid irpc_usb_close irpc_usb_open irpc_usb_claim_interface
      irpc_usb_release_interface irpc_usb_set_interface_alt_setting irpc_usb_get_configuration
      irpc_usb_set_configuration irpc_usb_reset_device irpc_usb_clear_halt irpc_usb_control_transfer
      irpc_usb_bulk_transfer irpc_usb_get_string_descriptor_ascii
  irpc_dispatch usb_init ctx u g i = do r ← irpc_usb_init L i.ci ctx g; returned i r
  irpc_dispatch usb_exit ctx u g i = do
    g' ← irpc_usb_exit L i.ci ctx g
    returned i (irpc_success, g')
  irpc_dispatch usb_get_device_list ctx u g i = do
    r ← irpc_usb_get_device_list L i.ci ctx g i.devlist
    returned (record i { devlist = r.0 }) (irpc_success, r.1)
  irpc_dispatch usb_get_device_descriptor ctx u g i = do
    r ← irpc_usb_get_device_descriptor L i.ci ctx g i.dev i.desc
    returned (record i { desc = r.0.1 }) (r.0.0, r.1)
  irpc_dispatch usb_open_device_with_vid_pid ctx u g i = do
    r ← irpc_usb_open_device_with_vid_pid L i.ci ctx g i.vendor_id i.product_id i.handle
    returned (record i { handle = r.0 }) (irpc_success, r.1)
  irpc_dispatch usb_close ctx u g i = do
    g' ← irpc_usb_close L i.ci ctx g
    returned i (irpc_success, g')
  irpc_dispatch usb_open ctx u g i = do
    r ← irpc_usb_open L i.ci ctx u g i.handle i.dev
    returned (record i { handle = r.0.1 }) (r.0.0, r.1)
  irpc_dispatch usb_claim_interface ctx u g i = do
    r ← irpc_usb_claim_interface L i.ci ctx g i.handle i.intf
    returned i r
  irpc_dispatch usb_release_interface ctx u g i = do
    r ← irpc_usb_release_interface L i.ci ctx g i.handle i.intf
    returned i r
  irpc_dispatch usb_get_configuration ctx u g i = do
    r ← irpc_usb_get_configuration L i.ci ctx g i.handle i.config
    returned i r
  irpc_dispatch usb_set_configuration ctx u g i = do
    r ← irpc_usb_set_configuration L i.ci ctx g i.handle i.config
    returned i r
  irpc_dispatch usb_set_interface_alt_setting ctx u g i = do
    r ← irpc_usb_set_interface_alt_setting L i.ci ctx g i.handle i.intf i.alt_setting
    returned i r
  irpc_dispatch usb_reset_device ctx u g i = do
    r ← irpc_usb_reset_device L i.ci ctx g i.handle
    returned i r
  irpc_dispatch usb_control_transfer ctx u g i = do
    r ←
        irpc_usb_control_transfer L i.ci ctx u g i.handle i.req_type i.req i.val i.idx i.buffer
          i.length i.timeout i.status
    returned (record i { status = r.0.1; buffer = r.0.2 }) (r.0.0, r.1)
  irpc_dispatch usb_bulk_transfer ctx u g i = do
    r ←
        irpc_usb_bulk_transfer L i.ci ctx u g i.handle i.endpoint i.buffer i.buf i.length
          i.transfered i.timeout
    returned (record i { buffer = r.0.1; buf = r.0.2 }) (r.0.0, r.1)
  irpc_dispatch usb_clear_halt ctx u g i = do
    r ← irpc_usb_clear_halt L i.ci ctx g i.handle i.endpoint
    returned i r
  irpc_dispatch usb_get_string_descriptor_ascii ctx u g i = do
    r ← irpc_usb_get_string_descriptor_ascii L i.ci ctx u g i.handle i.idx i.buffer i.length
    returned (record i { buffer = r.0.1 }) (r.0.0, r.1)

  -- The `switch` on the value of `func`, its `default` included.
  abbrev dispatch_or_fail :
      Option IrpcFunc → IrpcContext → Uninit → Globals L → IrpcInfo → Proc (Called L)
  dispatch_or_fail (some f) ctx u g i = irpc_dispatch f ctx u g i
  dispatch_or_fail none ctx u g i = returned i (irpc_failure, g)

  unfoldable pub irpc_call : ℤ → IrpcContext → Uninit → Globals L → IrpcInfo → Proc (Called L)
  unfolding func_of
  irpc_call func ctx u g i = dispatch_or_fail (func_of func) ctx u g i
