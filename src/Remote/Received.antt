-- ===== src/Remote/Received.antt =====
-- The client's side of `irpc_call` (libirpc.c) against any server: what it sends, and what it stores
-- from the answers.
use libirpc.Prelude.{
  List, ◌++◌, ℤ, pos, IsChar, take, drop, length-take, length-drop, length-append, All-take,
  All-drop, All-append, arith,
}
use libirpc.Types.{
  IrpcFunc, func_code, usb_init, usb_exit, usb_get_device_list, usb_get_device_descriptor,
  usb_open_device_with_vid_pid, usb_close, usb_open, usb_claim_interface, usb_release_interface,
  usb_get_configuration, usb_set_configuration, usb_set_interface_alt_setting, usb_reset_device,
  usb_control_transfer, usb_bulk_transfer, usb_clear_halt, usb_get_string_descriptor_ascii,
  IrpcInfo, context_client, irpc_max_data,
}
use libirpc.Types.Bounds.{IsInfo, IsBytes}
use libirpc.Types.Codes.{func_of-func_code}
use libirpc.Types.Updates.{
  IsInfo-devlist, IsInfo-desc, IsInfo-handle, IsInfo-status, IsInfo-buf, IsInfo-buffer,
}
use libirpc.Usb.{Libusb}
use libirpc.Proc.Ensures.{Ensures}
use libirpc.Rpc.Base.{Globals, Uninit}
use libirpc.Rpc.Call.{irpc_call, irpc_dispatch}
use libirpc.Local.Keeps.{IsCalled}

taken-IsBytes :
    (bytes : List ℤ) → IsBytes 4096 bytes → IsBytes irpc_max_data (take irpc_max_data bytes)
taken-IsBytes bytes b = record {
  size = omega (arith, length-take irpc_max_data bytes, b.size);
  chars = All-take IsChar irpc_max_data bytes b.chars;
}

behind-IsBytes :
    (bytes buf : List ℤ)
    → IsBytes 4096 bytes
    → IsBytes 4096 buf
    → IsBytes 4096 (drop irpc_max_data bytes ++ drop 3072 buf)
behind-IsBytes bytes buf b c = record {
  size = omega (
    arith,
    length-append (drop irpc_max_data bytes) (drop 3072 buf),
    length-drop irpc_max_data bytes,
    length-drop 3072 buf,
    b.size,
    c.size,
  );
  chars =
      All-append IsChar _ _ (All-drop IsChar irpc_max_data bytes b.chars)
        (All-drop IsChar 3072 buf c.chars);
}

module _ (L : Libusb) (u : Uninit) (g : Globals L) (i : IrpcInfo) (h : IsInfo i) where
  pub dispatch-IsCalled :
      (f : IrpcFunc) → Ensures (IsCalled L) (irpc_dispatch L f context_client u g i)
  unfolding irpc_dispatch func_code
  dispatch-IsCalled usb_init = (omega arith, λ v fits. record { retval = fits.0; info = h })
  dispatch-IsCalled usb_exit = (omega arith, record { retval = omega arith; info = h })
  dispatch-IsCalled usb_get_device_list = (
    omega arith,
    λ v fits. record { retval = omega arith; info = IsInfo-devlist h fits.0 fits.1.0 },
  )
  dispatch-IsCalled usb_get_device_descriptor = (
    omega arith,
    ((h.dev, tt), λ v fits. record { retval = fits.1.0; info = IsInfo-desc h fits.0 }),
  )
  dispatch-IsCalled usb_open_device_with_vid_pid = (
    omega arith,
    (omega arith, λ v fits. record { retval = omega arith; info = IsInfo-handle h fits.0 }),
  )
  dispatch-IsCalled usb_close = (omega arith, record { retval = omega arith; info = h })
  dispatch-IsCalled usb_open = (
    omega arith,
    ((h.dev, tt), λ v fits. record { retval = fits.1.0; info = IsInfo-handle h fits.0 }),
  )
  dispatch-IsCalled usb_control_transfer = (
    omega arith,
    (omega arith, λ v fits. record { retval = fits.0; info = IsInfo-status h fits.1.0 fits.1.1.0 }),
  )
  dispatch-IsCalled usb_bulk_transfer = (
    omega arith,
    (
      omega arith,
      λ v fits. record {
        retval = fits.0;
        info =
            IsInfo-buf h (taken-IsBytes v.1.1.0 fits.1.1.0)
              (behind-IsBytes v.1.1.0 i.buf fits.1.1.0 h.buf);
      },
    ),
  )
  dispatch-IsCalled usb_get_string_descriptor_ascii = (
    omega arith,
    (omega arith, λ v fits. record { retval = fits.0; info = IsInfo-buffer h fits.1.0 }),
  )
  dispatch-IsCalled usb_claim_interface =
      (omega arith, (omega arith, λ v fits. record { retval = fits.0; info = h }))
  dispatch-IsCalled usb_release_interface =
      (omega arith, (omega arith, λ v fits. record { retval = fits.0; info = h }))
  dispatch-IsCalled usb_get_configuration =
      (omega arith, (omega arith, λ v fits. record { retval = fits.0; info = h }))
  dispatch-IsCalled usb_set_configuration =
      (omega arith, (omega arith, λ v fits. record { retval = fits.0; info = h }))
  dispatch-IsCalled usb_set_interface_alt_setting =
      (omega arith, (omega arith, λ v fits. record { retval = fits.0; info = h }))
  dispatch-IsCalled usb_reset_device =
      (omega arith, (omega arith, λ v fits. record { retval = fits.0; info = h }))
  dispatch-IsCalled usb_clear_halt =
      (omega arith, (omega arith, λ v fits. record { retval = fits.0; info = h }))

  pub irpc_call-IsCalled :
      (f : IrpcFunc) → Ensures (IsCalled L) (irpc_call L (pos (func_code f)) context_client u g i)
  unfolding irpc_call
  irpc_call-IsCalled f = rw func_of-func_code (dispatch-IsCalled f)
