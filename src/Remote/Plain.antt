-- ===== src/Remote/Plain.antt =====
-- The calls that answer with a code alone: `libusb_init`, the calls on interfaces and
-- configurations, `libusb_reset_device` and `libusb_clear_halt` (libirpc.c).
use libirpc.Prelude.{◌∙◌, refl, arith}
use libirpc.Types.{
  func_code, usb_init, usb_claim_interface, usb_release_interface, usb_get_configuration,
  usb_set_configuration, usb_set_interface_alt_setting, usb_reset_device, usb_clear_halt,
}
use libirpc.Types.Bounds.{IsInfo}
use libirpc.Tpl.{Tpl}
use libirpc.Usb.{Libusb, IsTyped}
use libirpc.Proc.Run.{run-send, run-reply, run-request}
use libirpc.Rpc.Call.{irpc_call, irpc_dispatch}
use libirpc.Server.{server_loop}
use libirpc.Local.{local_call}
use libirpc.Remote.Setup.{Setting, Agrees}
use libirpc.Remote.Fits.{zero_or_failure-IsInt}

module _ (T : Tpl) (L : Libusb) (typed : IsTyped L) {B : Type 0} (x : Setting L B) where
  pub init-Agrees : Agrees T L x usb_init
  unfolding irpc_call irpc_dispatch server_loop local_call func_code
  init-Agrees =
      run-send T _ _ _ _ _ _ (omega arith)
      ∙ run-reply T _ _ _ _ _ _ _ _ (typed.init x.server.irpc_ctx x.server.usb, tt)

  module _ (info : IsInfo x.info) where
    pub claim_interface-Agrees : Agrees T L x usb_claim_interface
    unfolding irpc_call irpc_dispatch server_loop local_call func_code
    claim_interface-Agrees =
        run-request T _ _ _ _ _ _ _ _ _ refl refl (omega arith) (omega arith)
          (zero_or_failure-IsInt _, tt)

    pub release_interface-Agrees : Agrees T L x usb_release_interface
    unfolding irpc_call irpc_dispatch server_loop local_call func_code
    release_interface-Agrees =
        run-request T _ _ _ _ _ _ _ _ _ refl refl (omega arith) (omega arith)
          (zero_or_failure-IsInt _, tt)

    pub get_configuration-Agrees : Agrees T L x usb_get_configuration
    unfolding irpc_call irpc_dispatch server_loop local_call func_code
    get_configuration-Agrees =
        run-request T _ _ _ _ _ _ _ _ _ refl refl (omega arith) (omega arith)
          (zero_or_failure-IsInt _, tt)

    pub set_configuration-Agrees : Agrees T L x usb_set_configuration
    unfolding irpc_call irpc_dispatch server_loop local_call func_code
    set_configuration-Agrees =
        run-request T _ _ _ _ _ _ _ _ _ refl refl (omega arith) (omega arith)
          (zero_or_failure-IsInt _, tt)

    pub set_interface_alt_setting-Agrees : Agrees T L x usb_set_interface_alt_setting
    unfolding irpc_call irpc_dispatch server_loop local_call func_code
    set_interface_alt_setting-Agrees =
        run-request T _ _ _ _ _ _ _ _ _ refl refl (omega arith) (omega arith)
          (zero_or_failure-IsInt _, tt)

    pub reset_device-Agrees : Agrees T L x usb_reset_device
    unfolding irpc_call irpc_dispatch server_loop local_call func_code
    reset_device-Agrees =
        run-request T _ _ _ _ _ _ _ _ _ refl refl (omega arith) (omega arith)
          (zero_or_failure-IsInt _, tt)

    pub clear_halt-Agrees : Agrees T L x usb_clear_halt
    unfolding irpc_call irpc_dispatch server_loop local_call func_code
    clear_halt-Agrees =
        run-request T _ _ _ _ _ _ _ _ _ refl refl (omega arith) (omega arith)
          (zero_or_failure-IsInt _, tt)
