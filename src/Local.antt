-- ===== src/Local.antt =====
-- The contract of `irpc_call`: what each call of libirpc.c promises to its caller, as one step of
-- the host that has the devices, with no packet and no second process. A transfer's bytes are
-- assumed to fit the buffer.
pub mod Table
pub mod Keeps
pub mod Lookup
pub mod Handles
pub mod Lists
pub mod Leaks
pub mod Contexts
pub mod Counts
pub mod Reached
pub mod Order
pub mod Opens
pub mod Steady
pub mod Names
use libirpc.Prelude.{ℕ, Option, none, List, ◌++◌, ℤ, pos, length, drop, to_unsigned}
use libirpc.Types.{
  IrpcFunc, usb_init, usb_exit, usb_get_device_list, usb_get_device_descriptor,
  usb_open_device_with_vid_pid, usb_close, usb_open, usb_claim_interface, usb_release_interface,
  usb_get_configuration, usb_set_configuration, usb_set_interface_alt_setting, usb_reset_device,
  usb_control_transfer, usb_bulk_transfer, usb_clear_halt, usb_get_string_descriptor_ascii,
  IrpcInfo, irpc_success,
}
use libirpc.Usb.{Libusb, Transferred}
use libirpc.Rpc.Base.{Globals, Uninit, Called, zero_or_failure}
use libirpc.Rpc.Devices.{find_device, listed, describe}
use libirpc.Rpc.Open.{close_handle, handle_or_zero, open_found}
use libirpc.Rpc.Transfer.{status_of}
use libirpc.Local.Table.{device_table}

-- Bytes written at the start of a buffer that is long enough for them.
abbrev pub overlay : List ℤ → List ℤ → List ℤ
overlay written buffer = written ++ drop (length written) buffer

module _ (L : Libusb) where
  -- A call that returns a code, changes the USB stack, and stores nothing in the caller's info.
  abbrev plain : Globals L → IrpcInfo → ℤ × L.State → Called L
  plain g i r = record { retval = zero_or_failure r.0; globals = record g { usb = r.1 }; info = i }

  abbrev pub control : Uninit → Globals L → IrpcInfo → Transferred × L.State
  control u g i =
      L.control_transfer g.irpc_handle (to_unsigned 8 i.req_type) (to_unsigned 8 i.req)
        (to_unsigned 16 i.val) (to_unsigned 16 i.idx) u.buffer (to_unsigned 16 i.length)
        (to_unsigned 32 i.timeout) g.usb

  abbrev pub bulk : Uninit → Globals L → IrpcInfo → Transferred × L.State
  bulk u g i =
      L.bulk_transfer g.irpc_handle (to_unsigned 8 i.endpoint) u.buffer i.length
        (to_unsigned 32 i.timeout) g.usb

  abbrev pub string : Uninit → Globals L → IrpcInfo → Transferred × L.State
  string u g i =
      L.get_string_descriptor_ascii g.irpc_handle (to_unsigned 8 i.idx) u.buffer i.length g.usb

  unfoldable pub local_call : IrpcFunc → Uninit → Globals L → IrpcInfo → Called L
  local_call usb_init u g i =
      let r = L.init g.irpc_ctx g.usb in
      record { retval = r.0.0; globals = record g { irpc_ctx = r.0.1; usb = r.1 }; info = i }
  local_call usb_exit u g i = record {
    retval = irpc_success;
    globals = record g { usb = L.exit g.irpc_ctx g.usb };
    info = i;
  }
  local_call usb_get_device_list u g i =
      let r = L.get_device_list g.irpc_ctx g.usb in
      record {
        retval = irpc_success;
        globals = record g { usb = L.free_device_list r.0 r.1 };
        info = record i { devlist = device_table L (listed L r.0) };
      }
  local_call usb_get_device_descriptor u g i =
      let r = L.get_device_list g.irpc_ctx g.usb in
      let d = describe L r.0 (find_device L (listed L r.0) i.dev) r.1 in
      record { retval = d.0.0; globals = record g { usb = d.1 }; info = record i { desc = d.0.1 } }
  local_call usb_open_device_with_vid_pid u g i =
      let r =
        L.open_device_with_vid_pid g.irpc_ctx (to_unsigned 16 i.vendor_id)
          (to_unsigned 16 i.product_id) (close_handle L g.irpc_handle g.usb) in
      record {
        retval = irpc_success;
        globals = record g { irpc_handle = r.0; usb = r.1 };
        info = record i { handle = handle_or_zero L r.0 };
      }
  local_call usb_close u g i = record {
    retval = irpc_success;
    globals = record g { irpc_handle = none; usb = close_handle L g.irpc_handle g.usb };
    info = i;
  }
  local_call usb_open u g i =
      let r = L.get_device_list g.irpc_ctx g.usb in
      let o = open_found L u g r.0 (find_device L (listed L r.0) i.dev) r.1 in
      record { retval = o.0.0; globals = o.1; info = record i { handle = o.0.1 } }
  local_call usb_claim_interface u g i = plain g i (L.claim_interface g.irpc_handle i.intf g.usb)
  local_call usb_release_interface u g i =
      plain g i (L.release_interface g.irpc_handle i.intf g.usb)
  local_call usb_get_configuration u g i =
      let r = L.get_configuration g.irpc_handle g.usb in plain g i (r.0.0, r.1)
  local_call usb_set_configuration u g i =
      plain g i (L.set_configuration g.irpc_handle i.config g.usb)
  local_call usb_set_interface_alt_setting u g i =
      plain g i (L.set_interface_alt_setting g.irpc_handle i.intf i.alt_setting g.usb)
  local_call usb_reset_device u g i = plain g i (L.reset_device g.irpc_handle g.usb)
  local_call usb_control_transfer u g i =
      let r = control u g i in
      let bytes = overlay r.0.written u.buffer in
      record {
        retval = r.0.code;
        globals = record g { usb = r.1 };
        info = record i { status = status_of r.0.code bytes; buffer = bytes };
      }
  local_call usb_bulk_transfer u g i =
      let r = bulk u g i in
      record {
        retval = r.0.code;
        globals = record g { usb = r.1 };
        info = record i {
          buffer = overlay r.0.written u.buffer;
          buf = u.beyond ++ drop 3072 i.buf;
        };
      }
  local_call usb_clear_halt u g i =
      plain g i (L.clear_halt g.irpc_handle (to_unsigned 8 i.endpoint) g.usb)
  local_call usb_get_string_descriptor_ascii u g i =
      let r = string u g i in
      record {
        retval = r.0.code;
        globals = record g { usb = r.1 };
        info = record i { buffer = overlay r.0.written u.buffer };
      }
