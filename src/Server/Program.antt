-- ===== src/Server/Program.antt =====
-- irpc_server.c as a whole: `main` sets up its socket, and `server_loop` serves the client whose
-- socket it has stored in its `struct irpc_info`.
use Prim.Native.String.{String}
use libirpc.Prelude.{◌≡◌, List, ℤ}
use libirpc.Types.{IrpcInfo}
use libirpc.Types.Bounds.{IsInfo}
use libirpc.Types.Updates.{IsInfo-ci}
use libirpc.Types.Zero.{zero_info, zero_info-IsInfo}
use libirpc.Usb.{Libusb}
use libirpc.Proc.{Proc, Program, over, running}
use libirpc.Net.{Net, Ran, returns, exits, Sys, ran, pure, ◌>>=◌}
use libirpc.Rpc.Base.{Globals, Uninit}
use libirpc.Server.{server_loop}
use libirpc.Server.Main.{Started, ended, serving, main}

-- `info.ci.client_sock = accept(…)` after the `bzero`.
unfoldable pub accepted_info : ℤ → IrpcInfo
accepted_info sock = record zero_info { ci = record zero_info.ci { client_sock = sock } }

pub accepted_info-IsInfo : (sock : ℤ) → IsInfo (accepted_info sock)
unfolding accepted_info
accepted_info-IsInfo sock = IsInfo-ci zero_info-IsInfo

module _ (N : Net) (L : Libusb) (us : List Uninit) (g : Globals L) where
  -- What the program does once it is set up. The process ends where the loop does; `hang_up` of
  -- Server/Main is what follows it.
  abbrev pub goes_on : Started → Program (Globals L)
  goes_on (ended n) = over n
  goes_on (serving sock client_sock) = running (server_loop L us g (accepted_info client_sock))

  unfoldable pub program : ℤ → ℤ → List String → Sys N (Program (Globals L))
  program tmp port argv = do started ← main N tmp port argv; pure N (goes_on started)

  goes_on-running :
      (r : Ran N Started) (q : Proc (Globals L)) (s t : N.State)
      → (ran r >>= λ c. pure N (goes_on c)) s ≡ returns (running q) t
      → (sock : ℤ) × (q ≡ server_loop L us g (accepted_info sock))
  goes_on-running (returns (ended n) t') q s t e = absurd (cc)
  goes_on-running (returns (serving sock k) t') q s t e = (k, cc)
  goes_on-running (exits n t') q s t e = absurd (cc)

  pub program-running :
      (tmp port : ℤ) (argv : List String) (q : Proc (Globals L)) (s t : N.State)
      → program tmp port argv s ≡ returns (running q) t
      → (sock : ℤ) × (q ≡ server_loop L us g (accepted_info sock))
  unfolding program
  program-running tmp port argv q s t e = goes_on-running (main N tmp port argv s) q s t e
