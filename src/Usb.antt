-- ===== src/Usb.antt =====
-- libusb as libirpc.c calls it: an interface that stands for the library, which is not modelled.
-- Every call may change the state of the USB stack, `State`.
use libirpc.Prelude.{
  ℕ, ◌≤◌, ◌<◌, ◌^◌, ◌≡◌, Option, some, List, ℤ, IsInt, IsChar, pos_part, length, All,
}

-- `struct libusb_device_descriptor`; each member is a `uint8_t` or a `uint16_t`.
pub record LibusbDeviceDescriptor : Type 0 where
  pub b_length : ℕ
  pub b_descriptor_type : ℕ
  pub bcd_usb : ℕ
  pub b_device_class : ℕ
  pub b_device_sub_class : ℕ
  pub b_device_protocol : ℕ
  pub b_max_packet_size0 : ℕ
  pub id_vendor : ℕ
  pub id_product : ℕ
  pub bcd_device : ℕ
  pub i_manufacturer : ℕ
  pub i_product : ℕ
  pub i_serial_number : ℕ
  pub b_num_configurations : ℕ

-- What a transfer into a buffer did: its return code, the bytes that it wrote at the start of the
-- buffer, and the count that it stored, if it stored one.
pub record Transferred : Type 0 where
  pub code : ℤ
  pub written : List ℤ
  pub count : Option ℤ

-- A pointer that may be NULL is an `Option`. `get_device_list` gives `none` where libusb returns a
-- negative count; `open` gives `none` where it returns another code than 0, and stores no handle.
pub record Libusb : Type 1 where
  pub State : Type 0
  pub Context : Type 0
  pub Device : Type 0
  pub Handle : Type 0
  pub bus_number : Device → ℕ
  pub device_address : Device → ℕ
  pub num_configurations : Device → ℕ
  pub session_data : Device → ℕ
  pub handle_dev : Handle → Device
  pub init : Option Context → State → (ℤ × Option Context) × State
  pub exit : Option Context → State → State
  pub get_device_list : Option Context → State → Option (List Device) × State
  pub free_device_list : Option (List Device) → State → State
  pub get_device_descriptor : Device → State → (ℤ × LibusbDeviceDescriptor) × State
  pub open_device_with_vid_pid : Option Context → ℕ → ℕ → State → Option Handle × State
  pub open_device : Device → State → Option Handle × State
  pub close : Handle → State → State
  pub claim_interface : Option Handle → ℤ → State → ℤ × State
  pub release_interface : Option Handle → ℤ → State → ℤ × State
  pub get_configuration : Option Handle → State → (ℤ × ℤ) × State
  pub set_configuration : Option Handle → ℤ → State → ℤ × State
  pub set_interface_alt_setting : Option Handle → ℤ → ℤ → State → ℤ × State
  pub reset_device : Option Handle → State → ℤ × State
  pub clear_halt : Option Handle → ℕ → State → ℤ × State
  pub control_transfer :
      Option Handle → ℕ → ℕ → ℕ → ℕ → List ℤ → ℕ → ℕ → State → Transferred × State
  pub bulk_transfer : Option Handle → ℕ → List ℤ → ℤ → ℕ → State → Transferred × State
  pub get_string_descriptor_ascii : Option Handle → ℕ → List ℤ → ℤ → State → Transferred × State

pub record IsTransferred (most : ℕ) (t : Transferred) : Type 0 where
  pub code : IsInt t.code
  pub size : length t.written ≤ most
  pub chars : All IsChar t.written
  pub count : (n : ℤ) → t.count ≡ some n → IsInt n

pub record IsLibusbDescriptor (d : LibusbDeviceDescriptor) : Type 0 where
  pub b_length : d.b_length < 2 ^ 8
  pub b_descriptor_type : d.b_descriptor_type < 2 ^ 8
  pub bcd_usb : d.bcd_usb < 2 ^ 16
  pub b_device_class : d.b_device_class < 2 ^ 8
  pub b_device_sub_class : d.b_device_sub_class < 2 ^ 8
  pub b_device_protocol : d.b_device_protocol < 2 ^ 8
  pub b_max_packet_size0 : d.b_max_packet_size0 < 2 ^ 8
  pub id_vendor : d.id_vendor < 2 ^ 16
  pub id_product : d.id_product < 2 ^ 16
  pub bcd_device : d.bcd_device < 2 ^ 16
  pub i_manufacturer : d.i_manufacturer < 2 ^ 8
  pub i_product : d.i_product < 2 ^ 8
  pub i_serial_number : d.i_serial_number < 2 ^ 8
  pub b_num_configurations : d.b_num_configurations < 2 ^ 8

-- libusb's declared types, and that a transfer writes at most the bytes that it was asked for
-- (none, where the `int` asked for is negative).
pub record IsTyped (L : Libusb) : Type 0 where
  pub bus_number : (d : L.Device) → L.bus_number d < 2 ^ 8
  pub device_address : (d : L.Device) → L.device_address d < 2 ^ 8
  pub num_configurations : (d : L.Device) → L.num_configurations d < 2 ^ 8
  pub session_data : (d : L.Device) → L.session_data d < 2 ^ 64
  pub init : (c : Option L.Context) (s : L.State) → IsInt (L.init c s).0.0
  pub descriptor :
      (d : L.Device) (s : L.State) → IsLibusbDescriptor (L.get_device_descriptor d s).0.1
  pub control :
      (h : Option L.Handle) (a b c d : ℕ) (buffer : List ℤ) (n t : ℕ) (s : L.State)
      → IsTransferred n (L.control_transfer h a b c d buffer n t s).0
  pub bulk :
      (h : Option L.Handle) (e : ℕ) (buffer : List ℤ) (n : ℤ) (t : ℕ) (s : L.State)
      → IsTransferred (pos_part n) (L.bulk_transfer h e buffer n t s).0
  pub string :
      (h : Option L.Handle) (i : ℕ) (buffer : List ℤ) (n : ℤ) (s : L.State)
      → IsTransferred (pos_part n) (L.get_string_descriptor_ascii h i buffer n s).0
