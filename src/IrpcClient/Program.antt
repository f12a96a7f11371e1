-- ===== src/IrpcClient/Program.antt =====
-- irpc_client.c as a whole: `main` connects, and talks over the socket that it has stored in its
-- `struct irpc_info`.
use Prim.Native.String.{String}
use libirpc.Prelude.{◌≡◌, List, [], ◌∷◌, ℤ}
use libirpc.Types.{IrpcInfo}
use libirpc.Types.Bounds.{IsInfo}
use libirpc.Types.Updates.{IsInfo-ci}
use libirpc.Types.Zero.{zero_info, zero_info-IsInfo}
use libirpc.Usb.{Libusb}
use libirpc.Proc.{Proc, Program, over, running}
use libirpc.Net.{Net, Ran, returns, exits, Sys, ran, pure, ◌>>=◌}
use libirpc.Rpc.Base.{Globals, Uninit}
use libirpc.Session.{Script, remote}
use libirpc.IrpcClient.{Report, main}
use libirpc.IrpcClient.Connect.{Connected, ended, talking, connect_main, usage_line}

-- `argv[1]`, which is read where there are two arguments.
abbrev pub first_arg : List String → String
first_arg [] = ""
first_arg (ip ∷ argv) = ip

-- `info.ci.server_sock = …` after the `bzero`.
unfoldable pub connected_info : ℤ → IrpcInfo
connected_info sock = record zero_info { ci = record zero_info.ci { server_sock = sock } }

pub connected_info-IsInfo : (sock : ℤ) → IsInfo (connected_info sock)
unfolding connected_info
connected_info-IsInfo sock = IsInfo-ci zero_info-IsInfo

module _ (N : Net) (L : Libusb) {A : Type 0} (talk : String → IrpcInfo → Script L A) (u : Uninit)
    (g : Globals L) where
  -- What a client that talks like this does once it is connected.
  abbrev pub goes_on : String → Connected → Program A
  goes_on ip (ended n) = over n
  goes_on ip (talking sock) = running (remote L u g (talk ip (connected_info sock)))

  unfoldable pub connect_and_talk : String → ℤ → List String → Sys N (Program A)
  connect_and_talk usage port argv = do
    connected ← connect_main N usage port argv
    pure N (goes_on (first_arg argv) connected)

  goes_on-running :
      (ip : String) (r : Ran N Connected) (p : Proc A) (s t : N.State)
      → (ran r >>= λ c. pure N (goes_on ip c)) s ≡ returns (running p) t
      → (sock : ℤ) × (p ≡ remote L u g (talk ip (connected_info sock)))
  goes_on-running ip (returns (ended n) t') p s t e = absurd (cc)
  goes_on-running ip (returns (talking sock) t') p s t e = (sock, cc)
  goes_on-running ip (exits n t') p s t e = absurd (cc)

  pub connect_and_talk-running :
      (usage : String) (port : ℤ) (argv : List String) (p : Proc A) (s t : N.State)
      → connect_and_talk usage port argv s ≡ returns (running p) t
      → (sock : ℤ) × (p ≡ remote L u g (talk (first_arg argv) (connected_info sock)))
  unfolding connect_and_talk
  connect_and_talk-running usage port argv p s t e =
      goes_on-running (first_arg argv) (connect_main N usage port argv s) p s t e

module _ (N : Net) (L : Libusb) where
  unfoldable pub program : Uninit → Globals L → ℤ → List String → Sys N (Program Report)
  unfolding connect_and_talk
  program u g = connect_and_talk N L (λ ip. main L) u g usage_line
