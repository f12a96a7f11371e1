-- ===== src/Tests/Eight.antt =====
-- A concrete host with eight different devices, and what irpc_client.c reports about it.
use mathlib.Core.List.Permᴰ
use libirpc.Prelude.{
  to_unsigned, ℕ, suc, ◌-◌, ◌%◌, ◌≡◌, ◌≢◌, refl, some, List, [], ◌∷◌, pos, All, replicate, arith,
}
use libirpc.Usb.{Libusb, IsTyped}
use libirpc.Proc.Steps.{config}
use libirpc.Proc.Settles.{Settles}
use libirpc.Rpc.Base.{Globals}
use libirpc.Server.{server_loop}
use libirpc.Session.{remote}
use libirpc.Local.Steady.{IsSteady, Distinct}
use libirpc.IrpcClient
use libirpc.IrpcClient.Steady.{IsCalm}
use libirpc.IrpcClient.Outcome.{client_report}
use libirpc.IrpcClient.WholeReport.{program-client_report}
use libirpc.IrpcClient.Program as Client
use libirpc.Server.Program as Server
use libirpc.Server.Program.{accepted_info}
use libirpc.Server.Main.{main}
use libirpc.IrpcClient.Connect.{connect_main}
use libirpc.IrpcClient.Program.{connected_info, connect_and_talk}
use libirpc.Tests.Network.{desk, quiet, connected_desk, serving_desk}
use libirpc.Rpc.Base.{started}
use libirpc.Tests.Codec.{codec}
use libirpc.Tests.Devices.{phone, describe_stick, stick_usb, stick_usb-IsTyped}
use libirpc.Tests.Host.{ip, memory, memories-IsUninit}

abbrev eight : List ℕ
eight = 1 ∷ 2 ∷ 3 ∷ 4 ∷ 5 ∷ 6 ∷ 7 ∷ 8 ∷ []

-- A device is a number; its interface 0 can be claimed, and not released.
abbrev hub_usb : Libusb
hub_usb = record stick_usb {
  Device = ℕ;
  Handle = ℕ;
  bus_number = λ d. 1;
  device_address = λ d. d % 128;
  num_configurations = λ d. 1;
  session_data = λ d. d % 65536;
  handle_dev = λ h. h;
  get_device_list = λ c s. (some eight, s);
  free_device_list = λ l s. s;
  get_device_descriptor = λ d s. ((pos 0, describe_stick phone), s);
  open_device_with_vid_pid = λ c v p s. (some 1, (s.0, suc s.1));
  open_device = λ d s. (some d, (s.0, suc s.1));
  close = λ h s. (s.0, s.1 - 1);
  claim_interface = λ h n s. (pos 0, s);
  release_interface = λ h n s. (pos 7, s);
  get_configuration = λ h s. ((pos 0, pos 1), s);
  set_configuration = λ h c s. (pos 0, s);
  set_interface_alt_setting = λ h n a s. (pos 0, s);
  reset_device = λ h s. (pos 0, s);
  clear_halt = λ h e s. (pos 0, s);
  control_transfer =
      λ h a b c d buffer n t s. stick_usb.control_transfer (some phone) a b c d buffer n t s;
  bulk_transfer = λ h e buffer n t s. stick_usb.bulk_transfer (some phone) e buffer n t s;
  get_string_descriptor_ascii =
      λ h i buffer n s. stick_usb.get_string_descriptor_ascii (some phone) i buffer n s;
}

hub_usb-IsTyped : IsTyped hub_usb
hub_usb-IsTyped = record {
  bus_number = λ d. omega arith;
  device_address = λ d. omega arith;
  num_configurations = λ d. omega arith;
  session_data = λ d. omega arith;
  init = stick_usb-IsTyped.init;
  descriptor = λ d s. stick_usb-IsTyped.descriptor phone s;
  control = λ h. stick_usb-IsTyped.control (some phone);
  bulk = λ h. stick_usb-IsTyped.bulk (some phone);
  string = λ h. stick_usb-IsTyped.string (some phone);
}

hub_usb-IsSteady : IsSteady hub_usb eight (λ d. some (describe_stick phone))
hub_usb-IsSteady = record {
  list = λ c s. (eight, refl, Permᴰ.refl eight);
  descriptor = λ d s. (refl, refl);
}

hub_usb-IsCalm : IsCalm hub_usb (λ d. some d) (pos 0) (pos 7)
hub_usb-IsCalm = record {
  open_device = λ d s. refl;
  claim_interface = λ h s. refl;
  release_interface = λ h s. refl;
}

eight-Distinct : Distinct hub_usb eight
eight-Distinct = ground arith

eight_used : All (λ (d : ℕ). hub_usb.session_data d ≢ 0) eight
eight_used = ground arith

program-client_report_example :
    (xs : List ℕ) × ((hub_usb.get_device_list (some tt) (0, 0)).0 ≡ some xs)
    × (h' : Globals hub_usb) × Settles codec
        (config codec
          (remote hub_usb memory
            (started hub_usb (0, 0))
            (IrpcClient.main hub_usb (connected_info (pos 3))))
          []
          (server_loop hub_usb
            (memory ∷ replicate 7 memory)
            (started hub_usb (1, 0))
            (accepted_info (pos 4)))
          [])
        (client_report hub_usb
          (λ (d : ℕ). some (describe_stick phone))
          (λ (d : ℕ). some d)
          (pos 0)
          (pos 7)
          xs)
        h'
unfolding Client.program connect_and_talk connect_main Server.program main to_unsigned
program-client_report_example =
    program-client_report codec hub_usb hub_usb-IsTyped memory memory (replicate 7 memory)
      (memories-IsUninit 8) eight (λ d. some (describe_stick phone)) (λ d. some d) (pos 0) (pos 7)
      desk desk (0, 0) (1, 0) (pos 0) (ip ∷ "4242" ∷ []) (quiet 0) connected_desk _ (pos 0) (pos 0)
      ("4242" ∷ []) (quiet 0) serving_desk _ refl refl hub_usb-IsSteady hub_usb-IsCalm
      eight-Distinct eight_used refl (omega arith)
