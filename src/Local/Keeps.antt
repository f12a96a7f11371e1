-- ===== src/Local/Keeps.antt =====
-- The values that a call leaves in the caller's `struct irpc_info`, and its result (libirpc.c).
use libirpc.Prelude.{
  ℕ, ◌≤◌, List, ◌++◌, ℤ, IsInt, IsChar, pos_part, to_unsigned, drop, length-append, length-drop,
  All-append, All-drop, arith,
}
use libirpc.Types.{
  IrpcFunc, irpc_max_data, usb_init, usb_exit, usb_get_device_list, usb_get_device_descriptor,
  usb_open_device_with_vid_pid, usb_close, usb_open, usb_control_transfer, usb_bulk_transfer,
  usb_get_string_descriptor_ascii, IrpcInfo,
}
use libirpc.Types.Bounds.{IsInfo, IsBytes}
use libirpc.Types.Updates.{
  IsInfo-devlist, IsInfo-desc, IsInfo-handle, IsInfo-status, IsInfo-buf, IsInfo-buffer,
}
use libirpc.Usb.{Libusb, IsTyped, IsTransferred, Transferred}
use libirpc.Rpc.Base.{Globals, Uninit, IsUninit, Called}
use libirpc.Local.{local_call, overlay, control, bulk, string}
use libirpc.Remote.Fits.{
  zero_or_failure-IsInt, device_table-n_devs, device_table-IsDevices, describe-Fits,
  handle_or_zero-IsDevice, open_found-Fits, overlay-IsBytes, status_of-IsInt,
}
use libirpc.Remote.Call.{FitsBuffer}

pub record IsCalled (L : Libusb) (c : Called L) : Type 0 where
  pub retval : IsInt c.retval
  pub info : IsInfo c.info

behind-IsBytes :
    (beyond buf : List ℤ)
    → IsBytes 3072 beyond
    → IsBytes 4096 buf
    → IsBytes 4096 (beyond ++ drop 3072 buf)
behind-IsBytes beyond buf b c = record {
  size = omega (arith, length-append beyond (drop 3072 buf), length-drop 3072 buf, b.size, c.size);
  chars = All-append IsChar beyond (drop 3072 buf) b.chars (All-drop IsChar 3072 buf c.chars);
}

module _ (L : Libusb) (typed : IsTyped L) (u : Uninit) (memory : IsUninit u) (g : Globals L)
    (i : IrpcInfo) (h : IsInfo i) where
  transfer-IsBytes :
      (n : ℕ) (t : Transferred)
      → IsTransferred n t
      → n ≤ irpc_max_data
      → IsBytes irpc_max_data (overlay t.written u.buffer)
  transfer-IsBytes n t it small =
      overlay-IsBytes irpc_max_data t.written u.buffer (omega arith) it.chars memory.buffer

  -- Every call returns an `int` and leaves the caller's info with values of its members' types
  -- and arrays of their sizes, if the info had such values before, libusb keeps to its types, the
  -- uninitialised memory holds bytes, and the length of a transfer is at most `IRPC_MAX_DATA`.
  pub local_call-IsCalled : (f : IrpcFunc) → FitsBuffer f i → IsCalled L (local_call L f u g i)
  unfolding local_call
  local_call-IsCalled usb_init fits = record { retval = typed.init g.irpc_ctx g.usb; info = h }
  local_call-IsCalled usb_exit fits = record { retval = omega arith; info = h }
  local_call-IsCalled usb_get_device_list fits = record {
    retval = omega arith;
    info = IsInfo-devlist h (device_table-n_devs L typed _) (device_table-IsDevices L typed _);
  }
  local_call-IsCalled usb_get_device_descriptor fits =
      let d = describe-Fits L typed _ _ _ in record { retval = d.1; info = IsInfo-desc h d.0 }
  local_call-IsCalled usb_open_device_with_vid_pid fits = record {
    retval = omega arith;
    info = IsInfo-handle h (handle_or_zero-IsDevice L typed _);
  }
  local_call-IsCalled usb_close fits = record { retval = omega arith; info = h }
  local_call-IsCalled usb_open fits =
      let o = open_found-Fits L typed _ _ _ _ _ memory in
      record { retval = o.1; info = IsInfo-handle h o.0 }
  local_call-IsCalled usb_control_transfer fits =
      let r = (control L u g i).0 in
      let t : IsTransferred (to_unsigned 16 i.length) r = typed.control _ _ _ _ _ _ _ _ _ in
      let bytes = transfer-IsBytes _ r t fits in
      record {
        retval = t.code;
        info = IsInfo-status h (status_of-IsInt _ irpc_max_data _ bytes) bytes;
      }
  local_call-IsCalled usb_bulk_transfer fits =
      let r = (bulk L u g i).0 in
      let t : IsTransferred (pos_part i.length) r = typed.bulk _ _ _ _ _ _ in
      record {
        retval = t.code;
        info = IsInfo-buf h (transfer-IsBytes _ r t fits) (behind-IsBytes _ _ memory.beyond h.buf);
      }
  local_call-IsCalled usb_get_string_descriptor_ascii fits =
      let r = (string L u g i).0 in
      let t : IsTransferred (pos_part i.length) r = typed.string _ _ _ _ _ in
      record { retval = t.code; info = IsInfo-buffer h (transfer-IsBytes _ r t fits) }
  local_call-IsCalled _ fits = record { retval = zero_or_failure-IsInt _; info = h }
