-- ===== src/Tests/Search.antt =====
-- The search of irpc_find_idevice.c, on a concrete host.
use mathlib.Core.List.{Permᴰ}
use mathlib.Core.List.Permᴰ
use libirpc.Prelude.{
  pos, to_unsigned, ℕ, zero, suc, ◌≡◌, refl, some, List, [], ◌∷◌, map, replicate, length-replicate,
  take, get_elem?, arith,
}
use libirpc.Types.{irpc_max_devs, IrpcDevice, usb_get_device_list}
use libirpc.Types.Zero.{zero_info}
use libirpc.Local.{local_call}
use libirpc.Local.Names.{IsName, list-IsName}
use libirpc.Usb.{Libusb, IsTyped}
use libirpc.Proc.Steps.{config}
use libirpc.Proc.Settles.{Settles}
use libirpc.Rpc.Base.{Globals}
use libirpc.Server.{server_loop}
use libirpc.Session.{remote}
use libirpc.FindIdevice
use libirpc.FindIdevice.Whole.{search-Whole}
use libirpc.FindIdevice.Program as Client
use libirpc.Server.Program as Server
use libirpc.Server.Program.{accepted_info}
use libirpc.Server.Main.{main}
use libirpc.IrpcClient.Connect.{connect_main}
use libirpc.IrpcClient.Program.{connected_info, connect_and_talk}
use libirpc.Tests.Network.{desk, quiet, connected_desk, serving_desk}
use libirpc.Local.Steady.{IsSteady, Distinct}
use libirpc.FindIdevice.First.{first_found, reported}
use libirpc.Local.Order.{find_device-Perm}
use libirpc.Rpc.Devices.{find_device, reflect_device}
use libirpc.Rpc.Base.{started}
use libirpc.Tests.Codec.{codec}
use libirpc.Tests.Devices.{Stick, hub, phone, describe_stick, stick_usb, stick_usb-IsTyped}
use libirpc.Tests.Host.{ip, memory, memories-IsUninit}

-- A host with one hub and one phone, which lists them in one order first and then in the other.
abbrev pair : ℕ → List Stick
pair zero = hub ∷ phone ∷ []
pair (suc n) = phone ∷ hub ∷ []

abbrev pair_usb : Libusb
pair_usb = record stick_usb { get_device_list = λ c s. (some (pair s.1), (s.0, suc s.1)) }

pair_usb-IsTyped : IsTyped pair_usb
pair_usb-IsTyped = record {
  bus_number = stick_usb-IsTyped.bus_number;
  device_address = stick_usb-IsTyped.device_address;
  num_configurations = stick_usb-IsTyped.num_configurations;
  session_data = stick_usb-IsTyped.session_data;
  init = stick_usb-IsTyped.init;
  descriptor = stick_usb-IsTyped.descriptor;
  control = stick_usb-IsTyped.control;
  bulk = stick_usb-IsTyped.bulk;
  string = stick_usb-IsTyped.string;
}

pair-Permᴰ : (n : ℕ) → Permᴰ (hub ∷ phone ∷ []) (pair n)
pair-Permᴰ zero = Permᴰ.refl _
pair-Permᴰ (suc n) = Permᴰ.swap refl refl

pair_usb-IsSteady : IsSteady pair_usb (hub ∷ phone ∷ []) (λ d. some (describe_stick d))
pair_usb-IsSteady = record {
  list = λ c s. (pair s.1, refl, pair-Permᴰ s.1);
  descriptor = λ d s. (refl, refl);
}

pair-Distinct : Distinct pair_usb (hub ∷ phone ∷ [])
pair-Distinct = ((omega arith, (omega arith, tt)), (((λ e. absurd (omega arith)), tt), (tt, tt)))

search-Whole_example :
    (xs : List Stick) × ((pair_usb.get_device_list (some tt) (0, 0)).0 ≡ some xs)
    × (h' : Globals pair_usb) × Settles codec
        (config codec
          (remote pair_usb memory
            (started pair_usb (0, 0))
            (FindIdevice.main pair_usb ip (connected_info (pos 3))))
          []
          (server_loop pair_usb
            (memory ∷ replicate 258 memory)
            (started pair_usb (1, 0))
            (accepted_info (pos 4)))
          [])
        (reported ip
          (first_found (map (λ (d : Stick). some (describe_stick d)) (take irpc_max_devs xs))))
        h'
unfolding Client.program connect_and_talk connect_main Server.program main to_unsigned
search-Whole_example =
    search-Whole codec pair_usb pair_usb-IsTyped memory memory (replicate 258 memory)
      (memories-IsUninit 259) (hub ∷ phone ∷ []) (λ d. some (describe_stick d)) desk desk (0, 0)
      (1, 0) (pos 0) (ip ∷ "4242" ∷ []) (quiet 0) connected_desk _ (pos 0) (pos 0) ("4242" ∷ [])
      (quiet 0) serving_desk _ refl refl pair_usb-IsSteady pair-Distinct refl
      (omega (arith, length-replicate 258 memory))

Stick-IsSet : IsSet Stick
Stick-IsSet = hlevel

find_device-Perm_example :
    find_device pair_usb (hub ∷ phone ∷ []) (reflect_device pair_usb phone)
    ≡ find_device pair_usb (phone ∷ hub ∷ []) (reflect_device pair_usb phone)
find_device-Perm_example =
    find_device-Perm pair_usb Stick-IsSet (reflect_device pair_usb phone) ∣ pair-Permᴰ 1 ∣₁
      pair-Distinct.1

list-IsName_example :
    (e : IrpcDevice) × (get_elem?
        (local_call pair_usb usb_get_device_list memory
          (started pair_usb (1, 0))
          zero_info).info.devlist.devs
        1
      ≡ some e)
    × IsName pair_usb (λ (d : Stick). some (describe_stick d)) (λ (d : Stick). some d) e phone
list-IsName_example =
    list-IsName pair_usb (hub ∷ phone ∷ []) (λ d. some (describe_stick d)) (λ d. some d) memory
      (started pair_usb (1, 0)) zero_info (hub ∷ phone ∷ []) 1 phone pair_usb-IsSteady pair-Distinct
      (λ x s. refl) refl refl (omega arith)
