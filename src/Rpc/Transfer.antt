-- ===== src/Rpc/Transfer.antt =====
-- libirpc.c: control and bulk transfers, and string descriptors. The server's buffer is an
-- uninitialised local array of `irpc_max_data` bytes, whatever length the client asks for.
use libirpc.Prelude.{
  Option, none, some, List, ◌++◌, ℤ, pos, length, take, drop, get_or, leb, at_least, to_unsigned,
  if◌then◌else◌,
}
use libirpc.Types.{
  IrpcConnectionInfo, IrpcContext, context_client, context_server, usb_control_transfer,
  usb_bulk_transfer, usb_get_string_descriptor_ascii, IrpcDeviceHandle, irpc_success, irpc_max_data,
}
use libirpc.Tpl.Formats.{
  ctrl_transfer_fmt, ctrl_str_int_int_fmt, bulk_transfer_fmt, str_int_int_fmt, string_desc_fmt,
  str_int_fmt,
}
use libirpc.Usb.{Libusb}
use libirpc.Proc.{Proc, done, tpl_write, tpl_read, stop, buffer_overflow, ◌>>=◌, ◌>>◌}
use libirpc.Rpc.Base.{Globals, Uninit, irpc_send_func}

-- The buffer after bytes were written at its start. The code makes no test of its own: where the bytes
-- go past the end of the array, its behaviour is undefined, and the process stops.
unfoldable pub overwrite : List ℤ → List ℤ → Proc (List ℤ)
overwrite written buffer =
    if leb (length written) (length buffer)
    then done (written ++ drop (length written) buffer)
    else stop buffer_overflow

abbrev pub or_keep : ℤ → Option ℤ → ℤ
or_keep old none = old
or_keep old (some n) = n

-- `if (retval >= 5) status = (int)data[4];`
unfoldable pub status_of : ℤ → List ℤ → ℤ
status_of code buffer = if at_least 5 code then get_or buffer 4 (pos 0) else pos 0

module _ (L : Libusb) where
  -- The result, the status and the contents of `data`.
  unfoldable pub irpc_recv_usb_control_transfer :
      IrpcConnectionInfo → IrpcDeviceHandle → ℤ → ℤ → ℤ → ℤ → ℤ → ℤ → Proc (ℤ × ℤ × List ℤ)
  unfolding irpc_send_func
  irpc_recv_usb_control_transfer ci handle req_type req val idx len timeout = do
    irpc_send_func usb_control_transfer ci.server_sock
    tpl_write ci.server_sock ctrl_transfer_fmt
        (handle, (req_type, (req, (val, (idx, (len, (timeout, tt)))))))
    v ← tpl_read ci.server_sock ctrl_str_int_int_fmt
    done (v.0, v.1.0, v.1.1.0)

  unfoldable pub irpc_send_usb_control_transfer :
      IrpcConnectionInfo → Uninit → Globals L → Proc (Globals L)
  irpc_send_usb_control_transfer ci u g = do
    v ← tpl_read ci.client_sock ctrl_transfer_fmt
    let r =
        L.control_transfer g.irpc_handle (to_unsigned 8 v.1.0) (to_unsigned 8 v.1.1.0)
          (to_unsigned 16 v.1.1.1.0) (to_unsigned 16 v.1.1.1.1.0) u.buffer
          (to_unsigned 16 v.1.1.1.1.1.0) (to_unsigned 32 v.1.1.1.1.1.1.0) g.usb
    buffer ← overwrite r.0.written u.buffer
    tpl_write ci.client_sock ctrl_str_int_int_fmt
        (r.0.code, (status_of r.0.code buffer, (buffer, tt)))
    done (record g { usb = r.1 })

  unfoldable pub irpc_usb_control_transfer :
      IrpcConnectionInfo
      → IrpcContext
      → Uninit
      → Globals L
      → IrpcDeviceHandle
      → ℤ
      → ℤ
      → ℤ
      → ℤ
      → List ℤ
      → ℤ
      → ℤ
      → ℤ
      → Proc ((ℤ × ℤ × List ℤ) × Globals L)
  unfolding irpc_recv_usb_control_transfer irpc_send_usb_control_transfer
  irpc_usb_control_transfer ci context_server u g handle req_type req val idx bytes len timeout
        status =
      do g' ← irpc_send_usb_control_transfer ci u g; done ((irpc_success, status, bytes), g')
  irpc_usb_control_transfer ci context_client u g handle req_type req val idx bytes len timeout
        status =
      do r ← irpc_recv_usb_control_transfer ci handle req_type req val idx len timeout; done (r, g)

  -- The result, and the `4 * irpc_max_data` bytes that are stored from `data` on. The count that
  -- comes back is stored over the pointer `transfered`, not over what it points to.
  unfoldable pub irpc_recv_usb_bulk_transfer :
      IrpcConnectionInfo → IrpcDeviceHandle → ℤ → ℤ → ℤ → ℤ → Proc (ℤ × List ℤ)
  unfolding irpc_send_func
  irpc_recv_usb_bulk_transfer ci handle endpoint len transfered timeout = do
    irpc_send_func usb_bulk_transfer ci.server_sock
    tpl_write ci.server_sock bulk_transfer_fmt
        (handle, (endpoint, (len, (transfered, (timeout, tt)))))
    v ← tpl_read ci.server_sock str_int_int_fmt
    done (v.0, v.1.1.0)

  -- `data` is sent as `irpc_max_data` integers, so the stack memory behind it goes with it.
  unfoldable pub irpc_send_usb_bulk_transfer :
      IrpcConnectionInfo → Uninit → Globals L → Proc (Globals L)
  irpc_send_usb_bulk_transfer ci u g = do
    v ← tpl_read ci.client_sock bulk_transfer_fmt
    let r =
        L.bulk_transfer g.irpc_handle (to_unsigned 8 v.1.0) u.buffer v.1.1.0
          (to_unsigned 32 v.1.1.1.1.0) g.usb
    buffer ← overwrite r.0.written u.buffer
    tpl_write ci.client_sock str_int_int_fmt
        (r.0.code, (or_keep v.1.1.1.0 r.0.count, (buffer ++ u.beyond, tt)))
    done (record g { usb = r.1 })

  -- The result, `data`, and `buf`, the array that follows it in `struct irpc_info`.
  unfoldable pub irpc_usb_bulk_transfer :
      IrpcConnectionInfo
      → IrpcContext
      → Uninit
      → Globals L
      → IrpcDeviceHandle
      → ℤ
      → List ℤ
      → List ℤ
      → ℤ
      → ℤ
      → ℤ
      → Proc ((ℤ × List ℤ × List ℤ) × Globals L)
  unfolding irpc_recv_usb_bulk_transfer irpc_send_usb_bulk_transfer
  irpc_usb_bulk_transfer ci context_server u g handle endpoint bytes buf len transfered timeout = do
    g' ← irpc_send_usb_bulk_transfer ci u g
    done ((irpc_success, bytes, buf), g')
  irpc_usb_bulk_transfer ci context_client u g handle endpoint bytes buf len transfered timeout = do
    r ← irpc_recv_usb_bulk_transfer ci handle endpoint len transfered timeout
    done ((r.0, take irpc_max_data r.1, drop irpc_max_data r.1 ++ drop 3072 buf), g)

  unfoldable pub irpc_recv_usb_get_string_descriptor_ascii :
      IrpcConnectionInfo → IrpcDeviceHandle → ℤ → ℤ → Proc (ℤ × List ℤ)
  unfolding irpc_send_func
  irpc_recv_usb_get_string_descriptor_ascii ci handle idx len = do
    irpc_send_func usb_get_string_descriptor_ascii ci.server_sock
    tpl_write ci.server_sock string_desc_fmt (handle, (idx, (len, tt)))
    v ← tpl_read ci.server_sock str_int_fmt
    done (v.0, v.1.0)

  unfoldable pub irpc_send_usb_get_string_descriptor_ascii :
      IrpcConnectionInfo → Uninit → Globals L → Proc (Globals L)
  irpc_send_usb_get_string_descriptor_ascii ci u g = do
    v ← tpl_read ci.client_sock string_desc_fmt
    let r = L.get_string_descriptor_ascii g.irpc_handle (to_unsigned 8 v.1.0) u.buffer v.1.1.0 g.usb
    buffer ← overwrite r.0.written u.buffer
    tpl_write ci.client_sock str_int_fmt (r.0.code, (buffer, tt))
    done (record g { usb = r.1 })

  unfoldable pub irpc_usb_get_string_descriptor_ascii :
      IrpcConnectionInfo
      → IrpcContext
      → Uninit
      → Globals L
      → IrpcDeviceHandle
      → ℤ
      → List ℤ
      → ℤ
      → Proc ((ℤ × List ℤ) × Globals L)
  unfolding irpc_recv_usb_get_string_descriptor_ascii irpc_send_usb_get_string_descriptor_ascii
  irpc_usb_get_string_descriptor_ascii ci context_server u g handle idx bytes len = do
    g' ← irpc_send_usb_get_string_descriptor_ascii ci u g
    done ((irpc_success, bytes), g')
  irpc_usb_get_string_descriptor_ascii ci context_client u g handle idx bytes len = do
    r ← irpc_recv_usb_get_string_descriptor_ascii ci handle idx len
    done (r, g)
