-- ===== src/Remote/Devices.antt =====
-- The device list, the device descriptors, and opening and closing a device (libirpc.c).
use libirpc.Prelude.{◌∙◌, refl, arith}
use libirpc.Types.{
  func_code, usb_get_device_list, usb_get_device_descriptor, usb_open_device_with_vid_pid,
  usb_close, usb_open,
}
use libirpc.Types.Bounds.{IsInfo}
use libirpc.Tpl.{Tpl}
use libirpc.Usb.{Libusb, IsTyped}
use libirpc.Proc.Run.{run-send, run-reply, run-request}
use libirpc.Rpc.Base.{IsUninit}
use libirpc.Rpc.Call.{irpc_call, irpc_dispatch}
use libirpc.Server.{server_loop}
use libirpc.Local.{local_call}
use libirpc.Local.Table.{copy_devices-device_table}
use libirpc.Remote.Setup.{Setting, Agrees}
use libirpc.Remote.Fits.{
  device_table-n_devs, device_table-IsDevices, describe-Fits, handle_or_zero-IsDevice,
  open_found-Fits,
}

module _ (T : Tpl) (L : Libusb) (typed : IsTyped L) {B : Type 0} (x : Setting L B) where
  pub get_device_list-Agrees : Agrees T L x usb_get_device_list
  unfolding irpc_call irpc_dispatch server_loop local_call func_code
  get_device_list-Agrees =
      run-send T _ _ _ _ _ _ (omega arith)
      ∙ rw copy_devices-device_table (
          run-reply T _ _ _ _ _ _ _ _
            (device_table-n_devs L typed _, (device_table-IsDevices L typed _, tt)))

  pub close-Agrees : Agrees T L x usb_close
  unfolding irpc_call irpc_dispatch server_loop local_call func_code
  close-Agrees = run-send T _ _ _ _ _ _ (omega arith)

  module _ (info : IsInfo x.info) where
    pub get_device_descriptor-Agrees : Agrees T L x usb_get_device_descriptor
    unfolding irpc_call irpc_dispatch server_loop local_call func_code
    get_device_descriptor-Agrees =
        let fits = describe-Fits L typed _ _ _ in
        run-request T _ _ _ _ _ _ _ _ _ refl refl (omega arith) (info.dev, tt)
          (fits.0, (fits.1, tt))

    pub open_device_with_vid_pid-Agrees : Agrees T L x usb_open_device_with_vid_pid
    unfolding irpc_call irpc_dispatch server_loop local_call func_code
    open_device_with_vid_pid-Agrees =
        run-request T _ _ _ _ _ _ _ _ _ refl refl (omega arith) (omega arith)
          (handle_or_zero-IsDevice L typed _, tt)

    pub open-Agrees : IsUninit x.memory → Agrees T L x usb_open
    unfolding irpc_call irpc_dispatch server_loop local_call func_code
    open-Agrees memory =
        let fits = open_found-Fits L typed _ _ _ _ _ memory in
        run-request T _ _ _ _ _ _ _ _ _ refl refl (omega arith) (info.dev, tt)
          (fits.0, (fits.1, tt))
