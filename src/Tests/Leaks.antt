-- ===== src/Tests/Leaks.antt =====
-- A concrete host that counts the device lists that are not freed.
use libirpc.Prelude.{suc, ◌+◌, ◌-◌, ◌≡◌, refl, none, some, arith}
use libirpc.Types.{usb_open}
use libirpc.Types.Zero.{zero_info}
use libirpc.Usb.{Libusb}
use libirpc.Rpc.Base.{Globals}
use libirpc.Local.{local_call}
use libirpc.Local.Handles.{held}
use libirpc.Local.Lists.{IsListCount, leaked, local_call-lists}
use libirpc.Tests.Devices.{sticks, stick_usb, open_sticks, stick_usb-IsCount}
use libirpc.Tests.Host.{memory}

-- A host whose state counts the lists that are not freed.
abbrev lists_usb : Libusb
lists_usb = record stick_usb {
  get_device_list = λ c s. (some sticks, (s.0, suc s.1));
  free_device_list = λ l s. (s.0, s.1 - held l);
  open_device_with_vid_pid = λ c v p s. (none, s);
  open_device = λ d s. (none, s);
  close = λ h s. s;
}

lists_usb-IsListCount : IsListCount lists_usb open_sticks
lists_usb-IsListCount = record {
  kept = record {
    get_device_descriptor = stick_usb-IsCount.kept.get_device_descriptor;
    claim_interface = stick_usb-IsCount.kept.claim_interface;
    release_interface = stick_usb-IsCount.kept.release_interface;
    get_configuration = stick_usb-IsCount.kept.get_configuration;
    set_configuration = stick_usb-IsCount.kept.set_configuration;
    set_interface_alt_setting = stick_usb-IsCount.kept.set_interface_alt_setting;
    reset_device = stick_usb-IsCount.kept.reset_device;
    clear_halt = stick_usb-IsCount.kept.clear_halt;
    control_transfer = stick_usb-IsCount.kept.control_transfer;
    bulk_transfer = stick_usb-IsCount.kept.bulk_transfer;
    get_string_descriptor_ascii = stick_usb-IsCount.kept.get_string_descriptor_ascii;
  };
  init = stick_usb-IsCount.init;
  exit = stick_usb-IsCount.exit;
  get_device_list = λ c s. omega arith;
  free_device_list = λ l s. refl;
  open_device_with_vid_pid = λ c v p s. refl;
  open_device = λ d s. refl;
  close = λ h s. refl;
}

abbrev listing : Globals lists_usb
listing = record { irpc_ctx = some tt; irpc_handle = none; usb = (0, 2) }

local_call-lists_example :
    open_sticks (local_call lists_usb usb_open memory listing zero_info).globals.usb
    ≡ open_sticks listing.usb
      + leaked usb_open
          (lists_usb.get_device_list listing.irpc_ctx listing.usb).0
          (local_call lists_usb usb_open memory listing zero_info).retval
local_call-lists_example =
    local_call-lists lists_usb open_sticks lists_usb-IsListCount usb_open memory listing zero_info
