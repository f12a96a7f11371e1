-- ===== src/Rpc/Base.antt =====
-- libirpc.c: the global variables, the packets, and the call identification.
use libirpc.Prelude.{none, Option, List, ℤ, pos, eq_ℤ, if◌then◌else◌}
use libirpc.Types.{
  IrpcFunc, func_code, IrpcDeviceHandle, IrpcInfo, irpc_failure, irpc_success, irpc_max_data,
}
use libirpc.Types.Bounds.{IsDevice, IsBytes}
use libirpc.Tpl.Formats.{int_fmt}
use libirpc.Usb.{Libusb}
use libirpc.Proc.{Proc, done, tpl_write, tpl_read, ◌>>=◌}

-- The static variables `irpc_ctx` and `irpc_handle`, and the USB stack of the host.
pub record Globals (L : Libusb) : Type 0 where
  pub irpc_ctx : Option L.Context
  pub irpc_handle : Option L.Handle
  pub usb : L.State

-- The static variables of libirpc.c as a program starts, on a host with this USB stack.
abbrev pub started : (L : Libusb) → L.State → Globals L
started L s = record { irpc_ctx = none; irpc_handle = none; usb = s }

-- What uninitialised local variables hold: a handle, a transfer buffer, and the stack memory that
-- follows the buffer, as far as an array of `irpc_max_data` integers would reach.
pub record Uninit : Type 0 where
  pub handle : IrpcDeviceHandle
  pub buffer : List ℤ
  pub beyond : List ℤ

pub record IsUninit (u : Uninit) : Type 0 where
  pub handle : IsDevice u.handle.dev
  pub buffer : IsBytes irpc_max_data u.buffer
  pub beyond : IsBytes 3072 u.beyond

-- What a call leaves behind: its result, the globals, and the caller's `struct irpc_info`.
pub record Called (L : Libusb) : Type 0 where
  pub retval : ℤ
  pub globals : Globals L
  pub info : IrpcInfo

-- `if (… != 0) retval = IRPC_FAILURE`
unfoldable pub zero_or_failure : ℤ → ℤ
zero_or_failure code = if eq_ℤ code (pos 0) then irpc_success else irpc_failure

unfoldable pub irpc_send_func : IrpcFunc → ℤ → Proc (Unit {0})
unfolding func_code
irpc_send_func f sock = tpl_write sock int_fmt (pos (func_code f), tt)

unfoldable pub irpc_read_func : ℤ → Proc ℤ
irpc_read_func sock = do v ← tpl_read sock int_fmt; done v.0
