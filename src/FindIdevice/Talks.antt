-- ===== src/FindIdevice/Talks.antt =====
-- Whom irpc_find_idevice.c talks to: the sockets of the whole program.
use Prim.Native.String.{String}
use libirpc.Prelude.{
  ℕ, zero, suc, ◌≡◌, Option, none, some, List, ℤ, eq_ℤ, is_negative, get_elem?, pos_part,
}
use libirpc.Types.{IrpcDevice, IrpcInfo, irpc_failure}
use libirpc.Usb.{Libusb}
use libirpc.Net.{Net, IsPeer}
use libirpc.Rpc.Base.{Globals, Uninit, Called}
use libirpc.Session.{Script}
use libirpc.Session.Sockets.{Through, Through-if}
use libirpc.IrpcClient.Talks.{Talks, connect_and_talk-Talks}
use libirpc.FindIdevice.{
  Report, apple_vendor_id, is_recovery_product, inspect, visit, find_loop, report, main,
}
use libirpc.FindIdevice.Connect.{usage_line}
use libirpc.FindIdevice.Program.{program}

module _ (L : Libusb) (sock : ℤ) (ip : String) where
  inspect-Through :
      (c : Called L) (rest : IrpcInfo → Script L Report)
      → c.info.ci.server_sock ≡ sock
      → ((i : IrpcInfo) → i.ci.server_sock ≡ sock → Through L sock (rest i))
      → Through L sock (inspect L c rest (report L ip))
  unfolding main
  inspect-Through c rest h next = Through-if L sock (eq_ℤ c.retval irpc_failure) _ _ h (
      Through-if L sock (eq_ℤ c.info.desc.id_vendor apple_vendor_id) _ _
        (Through-if L sock (is_recovery_product c.info.desc.id_product) _ _ h (next c.info h))
        (next c.info h))

  visit-Through :
      (o : Option IrpcDevice) (i : IrpcInfo) (rest : IrpcInfo → Script L Report)
      → i.ci.server_sock ≡ sock
      → ((j : IrpcInfo) → j.ci.server_sock ≡ sock → Through L sock (rest j))
      → Through L sock (visit L o i rest (report L ip))
  visit-Through none i rest h next = tt
  visit-Through (some d) i rest h next = (h, λ c e. inspect-Through c rest e next)

  find_loop-Through :
      (left n : ℕ) (devs : List IrpcDevice) (i : IrpcInfo)
      → i.ci.server_sock ≡ sock
      → Through L sock (find_loop L left n devs i (report L ip))
  unfolding find_loop main
  find_loop-Through zero n devs i h = h
  find_loop-Through (suc left) n devs i h =
      visit-Through (get_elem? devs n) i _ h (λ j. find_loop-Through left (suc n) devs j)

  main-Through : (i : IrpcInfo) → i.ci.server_sock ≡ sock → Through L sock (main L ip i)
  unfolding main
  main-Through i h = (
    h,
    λ c e. Through-if L sock (is_negative c.retval) _ _ tt (
      e,
      λ d e'. find_loop-Through (pos_part d.info.devlist.n_devs) 0 d.info.devlist.devs d.info e',
    ),
  )

-- With an address and a port among its arguments, irpc_find_idevice.c comes to talk only over one
-- socket, connected to the address that `inet_aton` reads and to the port that `sscanf` reads
-- (the uninitialised variable's value where it reads none), modulo 2^16: whatever it receives,
-- every packet that it sends or reads goes over that socket. Otherwise it exits with status 1.
-- With fewer arguments it prints its usage and returns `IRPC_FAILURE`, before any other call of
-- the system. Assumed: `connect` fails with -1, or connects the socket to the address and the
-- port that it is given.
pub search-Talks :
    (N : Net) (peer : N.State → ℤ → Option (ℕ × ℕ)) (law : IsPeer N peer) (L : Libusb) (u : Uninit)
    (g : Globals L) (port : ℤ) (argv : List String) (s : N.State)
    → Talks N peer law usage_line port argv s (program N L u g port argv s)
unfolding program
search-Talks N peer law L u g =
    connect_and_talk-Talks N peer law L (main L) (λ ip sock. main-Through L sock ip) u g usage_line
