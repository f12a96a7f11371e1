-- ===== src/Tests/Books.antt =====
-- A concrete host that counts its open handles, its contexts and its device lists, and the theorems
-- on what the clients leave behind.
use libirpc.Prelude.{
  to_unsigned, ℕ, suc, ◌-◌, refl, none, some, [], ◌∷◌, pos, pos_part, replicate, length-replicate,
  arith,
}
use libirpc.Usb.{Libusb, IsTyped}
use libirpc.Server.{server_loop}
use libirpc.Server.Main.{main}
use libirpc.Server.Program as Server
use libirpc.Server.Program.{accepted_info}
use libirpc.Rpc.Base.{started}
use libirpc.Local.Handles.{held, IsKept}
use libirpc.Local.Counts.{Counts}
use libirpc.Session.{remote}
use libirpc.IrpcClient
use libirpc.IrpcClient.Connect.{connect_main}
use libirpc.IrpcClient.Program as Client
use libirpc.IrpcClient.Program.{connected_info, connect_and_talk}
use libirpc.IrpcClient.Whole
use libirpc.IrpcClient.Whole.{client-Whole}
use libirpc.FindIdevice
use libirpc.FindIdevice.Program as Search
use libirpc.FindIdevice.Completes
use libirpc.FindIdevice.Completes.{search-Completes}
use libirpc.Tests.Codec.{codec}
use libirpc.Tests.Devices.{
  Stick, address, session, describe_stick, sticks, sevens, stick_usb-IsTyped,
}
use libirpc.Tests.Host.{ip, memory, memories-IsUninit}
use libirpc.Tests.Network.{desk, quiet, connected_desk, serving_desk}

pub record Books : Type 0 where
  pub handles : ℕ
  pub contexts : ℕ
  pub lists : ℕ

abbrev books_usb : Libusb
books_usb = record {
  State = Books;
  Context = Unit {0};
  Device = Stick;
  Handle = Stick;
  bus_number = λ d. 1;
  device_address = address;
  num_configurations = λ d. 1;
  session_data = session;
  handle_dev = λ h. h;
  init = λ c s. ((pos 0, some tt), record s { contexts = suc s.contexts });
  exit = λ c s. record s { contexts = s.contexts - 1 };
  get_device_list = λ c s. (some sticks, record s { lists = suc s.lists });
  free_device_list = λ l s. record s { lists = s.lists - held l };
  get_device_descriptor = λ d s. ((pos 0, describe_stick d), s);
  open_device_with_vid_pid = λ c v p s. (none, s);
  open_device = λ d s. (some d, record s { handles = suc s.handles });
  close = λ h s. record s { handles = s.handles - 1 };
  claim_interface = λ h n s. (pos 0, s);
  release_interface = λ h n s. (pos 0, s);
  get_configuration = λ h s. ((pos 0, pos 1), s);
  set_configuration = λ h c s. (pos 0, s);
  set_interface_alt_setting = λ h n a s. (pos 0, s);
  reset_device = λ h s. (pos 0, s);
  clear_halt = λ h e s. (pos 0, s);
  control_transfer = λ h a b c d buffer n t s. (sevens n, s);
  bulk_transfer = λ h e buffer n t s. (sevens (pos_part n), s);
  get_string_descriptor_ascii = λ h i buffer n s. (sevens (pos_part n), s);
}

books_usb-IsTyped : IsTyped books_usb
books_usb-IsTyped = record {
  bus_number = stick_usb-IsTyped.bus_number;
  device_address = stick_usb-IsTyped.device_address;
  num_configurations = stick_usb-IsTyped.num_configurations;
  session_data = stick_usb-IsTyped.session_data;
  init = λ c s. omega arith;
  descriptor = λ d s. stick_usb-IsTyped.descriptor d (0, 0);
  control = λ h a b c d buffer n t s. stick_usb-IsTyped.control h a b c d buffer n t (0, 0);
  bulk = λ h e buffer n t s. stick_usb-IsTyped.bulk h e buffer n t (0, 0);
  string = λ h i buffer n s. stick_usb-IsTyped.string h i buffer n (0, 0);
}

-- The calls that are counted by no number leave all three as they are.
books_usb-IsKept : (count : Books → ℕ) → IsKept books_usb count
books_usb-IsKept count = record {
  get_device_descriptor = λ d s. refl;
  claim_interface = λ h n s. refl;
  release_interface = λ h n s. refl;
  get_configuration = λ h s. refl;
  set_configuration = λ h n s. refl;
  set_interface_alt_setting = λ h n a s. refl;
  reset_device = λ h s. refl;
  clear_halt = λ h e s. refl;
  control_transfer = λ h a b c d buffer n t s. refl;
  bulk_transfer = λ h e buffer n t s. refl;
  get_string_descriptor_ascii = λ h i buffer n s. refl;
}

abbrev books : Counts books_usb
books = record {
  handles = λ s. s.handles;
  contexts = λ s. s.contexts;
  lists = λ s. s.lists;
  handles-IsCount = record {
    kept = books_usb-IsKept _;
    init = λ c s. refl;
    exit = λ c s. refl;
    get_device_list = λ c s. refl;
    free_device_list = λ l s. refl;
    open_device_with_vid_pid = λ c v p s. omega arith;
    open_device = λ d s. omega arith;
    close = λ h s. refl;
  };
  contexts-IsContextCount = record {
    kept = books_usb-IsKept _;
    init = λ c s. refl;
    exit = λ c s. refl;
    get_device_list = λ c s. refl;
    free_device_list = λ l s. refl;
    open_device_with_vid_pid = λ c v p s. refl;
    open_device = λ d s. refl;
    close = λ h s. refl;
  };
  lists-IsListCount = record {
    kept = books_usb-IsKept _;
    init = λ c s. refl;
    exit = λ c s. refl;
    get_device_list = λ c s. omega arith;
    free_device_list = λ l s. refl;
    open_device_with_vid_pid = λ c v p s. refl;
    open_device = λ d s. refl;
    close = λ h s. refl;
  };
}

abbrev no_books : Books
no_books = record { handles = 0; contexts = 0; lists = 0 }

client-Whole_example :
    Whole.Completes codec books_usb books_usb-IsTyped books memory memory
      (replicate 7 memory)
      (memories-IsUninit 8)
      no_books
      (remote books_usb memory
        (started books_usb no_books)
        (IrpcClient.main books_usb (connected_info (pos 3))))
      (server_loop books_usb
        (memory ∷ replicate 7 memory)
        (started books_usb no_books)
        (accepted_info (pos 4)))
unfolding Client.program connect_and_talk connect_main Server.program main to_unsigned
client-Whole_example =
    client-Whole codec books_usb books_usb-IsTyped books memory memory (replicate 7 memory)
      (memories-IsUninit 8) desk desk no_books no_books (pos 0) (ip ∷ "4242" ∷ []) (quiet 0)
      connected_desk _ (pos 0) (pos 0) ("4242" ∷ []) (quiet 0) serving_desk _ refl refl refl refl
      (omega arith)

search-Completes_example :
    Completes.Completes codec books_usb books_usb-IsTyped books memory memory
      (replicate 258 memory)
      (memories-IsUninit 259)
      no_books
      no_books
      (remote books_usb memory
        (started books_usb no_books)
        (FindIdevice.main books_usb ip (connected_info (pos 3))))
      (server_loop books_usb
        (memory ∷ replicate 258 memory)
        (started books_usb no_books)
        (accepted_info (pos 4)))
unfolding Search.program connect_and_talk connect_main Server.program main to_unsigned
search-Completes_example =
    search-Completes codec books_usb books_usb-IsTyped books memory memory (replicate 258 memory)
      (memories-IsUninit 259) no_books no_books desk desk (pos 0) (ip ∷ "4242" ∷ []) (quiet 0)
      connected_desk _ (pos 0) (pos 0) ("4242" ∷ []) (quiet 0) serving_desk _ refl refl refl refl
      (omega (arith, length-replicate 258 memory))
