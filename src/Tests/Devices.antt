-- ===== src/Tests/Devices.antt =====
-- A concrete libusb (which stays a parameter of the model): three kinds of device, of which one is
-- an Apple device in recovery mode and one has session data of 32 bits; eight are listed. The state counts the calls that may
-- still initialise the library, and the open handles.
use libirpc.Prelude.{
  ℕ, zero, suc, ◌-◌, ◌≡◌, refl, ◌++◌, ◌<◌, Option, none, some, List, [], ◌∷◌, ℤ, pos, negsuc, IsInt,
  IsChar, pos_part, to_int, to_int-IsInt, length-replicate, All-replicate, replicate, arith,
}
use libirpc.Usb.{
  LibusbDeviceDescriptor, Transferred, Libusb, IsTransferred, IsLibusbDescriptor, IsTyped,
}
use libirpc.Local.Handles.{IsCount}

pub data Stick : Type 0 where
  hub phone disk : Stick

abbrev pub address : Stick → ℕ
address hub = 1
address phone = 5
address disk = 9

abbrev pub session : Stick → ℕ
session hub = 257
session phone = 261
session disk = 2147483657

abbrev pub vendor : Stick → ℕ
vendor hub = 0x1D6B
vendor phone = 0x05AC
vendor disk = 0x0781

abbrev pub product : Stick → ℕ
product hub = 2
product phone = 0x1281
product disk = 0x5567

abbrev pub describe_stick : Stick → LibusbDeviceDescriptor
describe_stick d = record {
  b_length = 18;
  b_descriptor_type = 1;
  bcd_usb = 0x0200;
  b_device_class = 0;
  b_device_sub_class = 0;
  b_device_protocol = 0;
  b_max_packet_size0 = 64;
  id_vendor = vendor d;
  id_product = product d;
  bcd_device = 0x0100;
  i_manufacturer = 1;
  i_product = 2;
  i_serial_number = 3;
  b_num_configurations = 1;
}

abbrev pub sticks : List Stick
sticks = replicate 7 hub ++ phone ∷ []

abbrev pub init_sticks : Option (Unit {0}) → ℕ × ℕ → (ℤ × Option (Unit {0})) × (ℕ × ℕ)
init_sticks c (zero, k) = ((negsuc 98, none), (zero, k))
init_sticks c (suc n, k) = ((pos 0, some tt), (n, k))

-- Every transfer brings as many bytes 7 as it is asked for.
abbrev pub sevens : ℕ → Transferred
sevens n = record { code = to_int n; written = replicate n (pos 7); count = none }

abbrev pub stick_usb : Libusb
stick_usb = record {
  State = ℕ × ℕ;
  Context = Unit {0};
  Device = Stick;
  Handle = Stick;
  bus_number = λ d. 1;
  device_address = address;
  num_configurations = λ d. 1;
  session_data = session;
  handle_dev = λ h. h;
  init = init_sticks;
  exit = λ c s. s;
  get_device_list = λ c s. (some sticks, s);
  free_device_list = λ l s. s;
  get_device_descriptor = λ d s. ((pos 0, describe_stick d), s);
  open_device_with_vid_pid = λ c v p s. (some phone, (s.0, suc s.1));
  open_device = λ d s. (some d, (s.0, suc s.1));
  close = λ h s. (s.0, s.1 - 1);
  claim_interface = λ h n s. (pos 0, s);
  release_interface = λ h n s. (pos 0, s);
  get_configuration = λ h s. ((pos 0, pos 1), s);
  set_configuration = λ h c s. (pos 0, s);
  set_interface_alt_setting = λ h n a s. (pos 0, s);
  reset_device = λ h s. (pos 0, s);
  clear_halt = λ h e s. (pos 0, s);
  control_transfer = λ h a b c d buffer n t s. (sevens n, s);
  bulk_transfer = λ h e buffer n t s. (sevens (pos_part n), s);
  get_string_descriptor_ascii = λ h i buffer n s. (sevens (pos_part n), s);
}

session-lt : (d : Stick) → session d < 18446744073709551616
session-lt hub = omega arith
session-lt phone = omega arith
session-lt disk = omega arith

address-lt : (d : Stick) → address d < 256
address-lt hub = omega arith
address-lt phone = omega arith
address-lt disk = omega arith

init_sticks-IsInt : (c : Option (Unit {0})) (s : ℕ × ℕ) → IsInt (init_sticks c s).0.0
init_sticks-IsInt c (zero, k) = omega arith
init_sticks-IsInt c (suc n, k) = omega arith

describe_stick-IsLibusbDescriptor : (d : Stick) → IsLibusbDescriptor (describe_stick d)
describe_stick-IsLibusbDescriptor hub = omega arith
describe_stick-IsLibusbDescriptor phone = omega arith
describe_stick-IsLibusbDescriptor disk = omega arith

sevens-IsTransferred : (n : ℕ) → IsTransferred n (sevens n)
sevens-IsTransferred n = record {
  code = to_int-IsInt n;
  size = omega (arith, length-replicate n (pos 7));
  chars = All-replicate IsChar n (pos 7) (omega arith);
  count = λ k e. absurd (cc);
}

pub stick_usb-IsTyped : IsTyped stick_usb
stick_usb-IsTyped = record {
  bus_number = λ d. omega arith;
  device_address = address-lt;
  num_configurations = λ d. omega arith;
  session_data = session-lt;
  init = init_sticks-IsInt;
  descriptor = λ d s. describe_stick-IsLibusbDescriptor d;
  control = λ h a b c d buffer n t s. sevens-IsTransferred n;
  bulk = λ h e buffer n t s. sevens-IsTransferred (pos_part n);
  string = λ h i buffer n s. sevens-IsTransferred (pos_part n);
}

abbrev pub open_sticks : ℕ × ℕ → ℕ
open_sticks s = s.1

init_sticks-open_sticks :
    (c : Option (Unit {0})) (s : ℕ × ℕ) → open_sticks (init_sticks c s).1 ≡ open_sticks s
init_sticks-open_sticks c (zero, k) = refl
init_sticks-open_sticks c (suc n, k) = refl

pub stick_usb-IsCount : IsCount stick_usb open_sticks
stick_usb-IsCount = record {
  kept = record {
    get_device_descriptor = λ d s. refl;
    claim_interface = λ h n s. refl;
    release_interface = λ h n s. refl;
    get_configuration = λ h s. refl;
    set_configuration = λ h n s. refl;
    set_interface_alt_setting = λ h n a s. refl;
    reset_device = λ h s. refl;
    clear_halt = λ h e s. refl;
    control_transfer = λ h a b c d buffer n t s. refl;
    bulk_transfer = λ h e buffer n t s. refl;
    get_string_descriptor_ascii = λ h i buffer n s. refl;
  };
  init = init_sticks-open_sticks;
  exit = λ c s. refl;
  get_device_list = λ c s. refl;
  free_device_list = λ l s. refl;
  open_device_with_vid_pid = λ c v p s. omega arith;
  open_device = λ d s. omega arith;
  close = λ h s. refl;
}
