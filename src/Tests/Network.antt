-- ===== src/Tests/Network.antt =====
-- A concrete system of sockets, and the theorems on whole programs applied to it.
use Prim.Native.String.{String}
use libirpc.Prelude.{List, ℕ, suc, ◌-◌, refl, Option, none, some, [], ◌∷◌, inr, ℤ, pos}
use libirpc.Net.{Net, IsPeer, IsBound}
use libirpc.IrpcClient.Connect.{usage_line}
use libirpc.FindIdevice.Connect
use libirpc.IrpcClient.Program as Client
use libirpc.IrpcClient.Program.{connected_info, connect_and_talk}
use libirpc.IrpcClient.Talks.{Talks, program-Talks}
use libirpc.FindIdevice.Program as Search
use libirpc.FindIdevice.Talks.{search-Talks}
use libirpc.Server.Program as Server
use libirpc.Server.Program.{accepted_info}
use libirpc.Server.Serves.{Serves, program-Serves}
use libirpc.Tests.Devices.{stick_usb}
use libirpc.Tests.Host.{ip, memory, fresh}

-- The number of open sockets, the last connection, the last port that was bound, and
-- what was printed.
pub record Desk : Type 0 where
  pub sockets : ℕ
  pub peer : Option (ℕ × ℕ)
  pub port : Option ℕ
  pub output : List String

-- Every call succeeds.
abbrev pub desk : Net
desk = record {
  State = Desk;
  socket = λ s. (pos 3, record s { sockets = suc s.sockets });
  bind = λ k p s. (pos 0, record s { port = some p });
  listen = λ k n s. (pos 0, s);
  setsockopt = λ k v s. (pos 0, s);
  select = λ k t s. (pos 1, s);
  accept = λ k s. (pos 4, record s { sockets = suc s.sockets });
  connect = λ k a p s. (pos 0, record s { peer = some (a, p) });
  close = λ k s. record s { sockets = s.sockets - 1 };
  inet_aton = λ ip. some 2130706433;
  scan_int = λ text. some (pos 4242);
  print = λ text s. record s { output = text ∷ s.output };
}

abbrev pub quiet : ℕ → Desk
quiet n = record { sockets = n; peer = none; port = none; output = [] }

-- After a client has connected, and after a server has accepted one.
abbrev pub connected_desk : Desk
connected_desk = record (quiet 1) { peer = some (2130706433, 4242) }

abbrev pub serving_desk : Desk
serving_desk = record (quiet 2) { port = some 4242 }

abbrev last_peer : Desk → ℤ → Option (ℕ × ℕ)
last_peer s k = s.peer

desk-IsPeer : IsPeer desk last_peer
desk-IsPeer = record { connect = λ k a p s. inr refl }

abbrev last_port : Desk → ℤ → Option ℕ
last_port s k = s.port

desk-IsBound : IsBound desk last_port
desk-IsBound = record {
  bind = λ k p s. inr refl;
  accept = λ k s. inr refl;
  listen = λ k n s j. refl;
  setsockopt = λ k v s j. refl;
  select = λ k t s j. refl;
}

program-Talks_example :
    Talks desk last_peer desk-IsPeer usage_line
      (pos 0)
      (ip ∷ "4242" ∷ [])
      (quiet 0)
      (Client.program desk stick_usb memory (fresh 0) (pos 0) (ip ∷ "4242" ∷ []) (quiet 0))
program-Talks_example =
    program-Talks desk last_peer desk-IsPeer stick_usb memory (fresh 0) (pos 0) (ip ∷ "4242" ∷ [])
      (quiet 0)

search-Talks_example :
    Talks desk last_peer desk-IsPeer Connect.usage_line
      (pos 0)
      (ip ∷ "4242" ∷ [])
      (quiet 0)
      (Search.program desk stick_usb memory (fresh 0) (pos 0) (ip ∷ "4242" ∷ []) (quiet 0))
search-Talks_example =
    search-Talks desk last_peer desk-IsPeer stick_usb memory (fresh 0) (pos 0) (ip ∷ "4242" ∷ [])
      (quiet 0)

program-Serves_example :
    Serves desk last_port desk-IsBound (pos 0) ("4242" ∷ []) (quiet 0) (
      Server.program desk stick_usb (memory ∷ []) (fresh 1) (pos 0) (pos 0) ("4242" ∷ []) (quiet 0))
program-Serves_example =
    program-Serves desk last_port desk-IsBound stick_usb (memory ∷ []) (fresh 1) (pos 0) (pos 0)
      ("4242" ∷ []) (quiet 0)
