-- ===== src/Remote/Call.antt =====
-- `irpc_call` over the socket (libirpc.c), for every function, and what the server's loop
-- (irpc_server.c) does with numbers that name no function.
use libirpc.Prelude.{
  zero, suc, ◌≤◌, ◌≡◌, ◌≢◌, refl, ◌∙◌, false, none, List, [], ◌∷◌, ℤ, pos, negsuc, IsInt, pos_part,
  eq_ℤ, to_unsigned, arith,
}
use libirpc.Types.{
  IrpcFunc, IrpcInfo, func_of, func_code, IrpcContext, context_client, context_server,
  irpc_max_data, irpc_failure, usb_init, usb_exit, usb_get_device_list, usb_get_device_descriptor,
  usb_open_device_with_vid_pid, usb_close, usb_open, usb_claim_interface, usb_release_interface,
  usb_get_configuration, usb_set_configuration, usb_set_interface_alt_setting, usb_reset_device,
  usb_control_transfer, usb_bulk_transfer, usb_clear_halt, usb_get_string_descriptor_ascii,
}
use libirpc.Types.Bounds.{IsInfo}
use libirpc.Tpl.{Tpl}
use libirpc.Tpl.Formats.{int_fmt}
use libirpc.Usb.{Libusb, IsTyped}
use libirpc.Proc.{Proc, done, send, ◌>>=◌}
use libirpc.Proc.Run.{run, run-send}
use libirpc.Rpc.Base.{Globals, Uninit, IsUninit, Called}
use libirpc.Rpc.Call.{irpc_call, irpc_dispatch}
use libirpc.Server.{server_loop}
use libirpc.Local.{local_call}
use libirpc.Remote.Setup.{Setting, before, after}
use libirpc.Remote.Plain.{
  init-Agrees, claim_interface-Agrees, release_interface-Agrees, get_configuration-Agrees,
  set_configuration-Agrees, set_interface_alt_setting-Agrees, reset_device-Agrees,
  clear_halt-Agrees,
}
use libirpc.Remote.Devices.{
  get_device_list-Agrees, get_device_descriptor-Agrees, open_device_with_vid_pid-Agrees,
  close-Agrees, open-Agrees,
}
use libirpc.Remote.Transfer.{
  control_transfer-Agrees, bulk_transfer-Agrees, get_string_descriptor_ascii-Agrees,
}

-- The length that a call asks for is within `IRPC_MAX_DATA`.
abbrev pub FitsBuffer : IrpcFunc → IrpcInfo → Type 0
FitsBuffer usb_control_transfer i = to_unsigned 16 i.length ≤ irpc_max_data
FitsBuffer usb_bulk_transfer i = pos_part i.length ≤ irpc_max_data
FitsBuffer usb_get_string_descriptor_ascii i = pos_part i.length ≤ irpc_max_data
FitsBuffer _ i = Unit

module _ (T : Tpl) (L : Libusb) (typed : IsTyped L) {B : Type 0} (x : Setting L B)
    (info : IsInfo x.info) (memory : IsUninit x.memory) where
  -- For every function but `IRPC_USB_EXIT`: when a client calls `irpc_call` and the server waits
  -- in its loop, the run goes on with the client at the result and the info of the local call on
  -- the server's host, the client's globals unchanged, the server waiting again with the globals
  -- that the local call leaves, and no packet on its way. Assumed: libusb keeps to its types, the
  -- caller's info and the server's uninitialised memory hold values of their types, and the
  -- length of a transfer is at most `IRPC_MAX_DATA`.
  pub irpc_call-local_call :
      (f : IrpcFunc)
      → f ≢ usb_exit
      → FitsBuffer f x.info
      → before T L x f ≡ after T L x (local_call L f x.memory x.server x.info)
  irpc_call-local_call usb_init ne fits = init-Agrees T L typed x
  irpc_call-local_call usb_exit ne fits = absurd (ne refl)
  irpc_call-local_call usb_get_device_list ne fits = get_device_list-Agrees T L typed x
  irpc_call-local_call usb_get_device_descriptor ne fits =
      get_device_descriptor-Agrees T L typed x info
  irpc_call-local_call usb_open_device_with_vid_pid ne fits =
      open_device_with_vid_pid-Agrees T L typed x info
  irpc_call-local_call usb_close ne fits = close-Agrees T L typed x
  irpc_call-local_call usb_open ne fits = open-Agrees T L typed x info memory
  irpc_call-local_call usb_claim_interface ne fits = claim_interface-Agrees T L typed x info
  irpc_call-local_call usb_release_interface ne fits = release_interface-Agrees T L typed x info
  irpc_call-local_call usb_get_configuration ne fits = get_configuration-Agrees T L typed x info
  irpc_call-local_call usb_set_configuration ne fits = set_configuration-Agrees T L typed x info
  irpc_call-local_call usb_set_interface_alt_setting ne fits =
      set_interface_alt_setting-Agrees T L typed x info
  irpc_call-local_call usb_reset_device ne fits = reset_device-Agrees T L typed x info
  irpc_call-local_call usb_control_transfer ne fits =
      control_transfer-Agrees T L typed x info memory fits
  irpc_call-local_call usb_bulk_transfer ne fits = bulk_transfer-Agrees T L typed x info memory fits
  irpc_call-local_call usb_clear_halt ne fits = clear_halt-Agrees T L typed x info
  irpc_call-local_call usb_get_string_descriptor_ascii ne fits =
      get_string_descriptor_ascii-Agrees T L typed x info memory fits

module _ (T : Tpl) (L : Libusb) {B : Type 0} (k : Called L → Proc B) (u₀ u : Uninit)
    (us : List Uninit) (gc g : Globals L) (i si : IrpcInfo) where
  -- A client's `irpc_call` of `IRPC_USB_EXIT`, received by a server with a round left, ends the
  -- server's loop after `libusb_exit`, with the server's handle and context left as they were;
  -- the client goes on without waiting for an answer, its info unchanged and its own context
  -- cleared.
  pub irpc_call-exit :
      run T
        (irpc_call L (pos (func_code usb_exit)) context_client u₀ gc i >>= k)
        []
        (server_loop L (u ∷ us) g si)
        []
      ≡ run T
          (k (record { retval = pos 0; globals = record gc { irpc_ctx = none }; info = i }))
          []
          (done (record g { usb = L.exit g.irpc_ctx g.usb }))
          []
  unfolding irpc_call irpc_dispatch server_loop func_code
  irpc_call-exit = run-send T _ _ _ _ _ _ (omega arith)

unknown-ne-exit : (func : ℤ) → func_of func ≡ none → eq_ℤ func (pos 1) ≡ false
unfolding func_of
unknown-ne-exit (pos zero) h = cc
unknown-ne-exit (pos (suc zero)) h = cc
unknown-ne-exit (pos (suc (suc n))) h = ground arith
unknown-ne-exit (negsuc n) h = ground arith

-- `irpc_call` answers a number that names no function with `IRPC_FAILURE`, and does nothing else.
pub irpc_call_unknown :
    (L : Libusb) (func : ℤ) (ctx : IrpcContext) (u : Uninit) (g : Globals L) (i : IrpcInfo)
    → func_of func ≡ none
    → irpc_call L func ctx u g i ≡ done (record { retval = irpc_failure; globals = g; info = i })
unfolding irpc_call
irpc_call_unknown L func ctx u g i unknown = rw unknown

module _ (T : Tpl) (L : Libusb) {B : Type 0} (c : Proc B) (u : Uninit) (us : List Uninit)
    (g : Globals L) (si : IrpcInfo) where
  -- A number that is an `int` and names no function uses up one round of the server's loop and
  -- changes nothing else, whatever socket the client names: no answer is sent, and the server's
  -- globals and info stay as they were.
  pub server_loop_unknown :
      (sock func : ℤ)
      → IsInt func
      → func_of func ≡ none
      → run T (send sock int_fmt (func, tt) c) [] (server_loop L (u ∷ us) g si) []
        ≡ run T c [] (server_loop L us g si) []
  unfolding server_loop func_code
  server_loop_unknown sock func fits unknown =
      run-send T _ _ _ _ _ _ (fits, tt)
      ∙ rw (irpc_call_unknown L func context_server u g si unknown, unknown-ne-exit func unknown)
