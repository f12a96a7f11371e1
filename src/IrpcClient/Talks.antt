-- ===== src/IrpcClient/Talks.antt =====
-- Whom irpc_client.c talks to: the sockets of the whole program.
use Prim.Native.String.{String}
use libirpc.Prelude.{
  ℕ, ◌≡◌, refl, Option, none, some, List, [], ◌∷◌, ◌++◌, ℤ, pos, to_unsigned, eq_ℤ, is_negative,
  if◌then◌else◌,
}
use libirpc.Types.{IrpcInfo, irpc_failure}
use libirpc.Usb.{Libusb}
use libirpc.Proc.{Program, over, running}
use libirpc.Proc.Sockets.{Over}
use libirpc.Net.{Net, Ran, returns, exits, scanned, IsPeer}
use libirpc.Rpc.Base.{Globals, Uninit, Called}
use libirpc.Session.{Script}
use libirpc.Session.Sockets.{Through, Through-if, remote-Over}
use libirpc.IrpcClient.{
  n_devs, ids, usb_claim_interface_failed, usb_release_interface_failed, Line, main, printed,
  after_ids, close_and_exit, claim_and_release, print_ids_and_open,
}
use libirpc.IrpcClient.Connect.{
  Connected, ended, talking, connect_main, usage_line, Connects, connect_main-Connects,
}
use libirpc.IrpcClient.Program.{connected_info, goes_on, connect_and_talk, program}

module _ (N : Net) (peer : N.State → ℤ → Option (ℕ × ℕ)) (law : IsPeer N peer) where
  -- What a client's whole program does, by its arguments: it talks over one socket, connected to
  -- the address and the port that they name, or ends before it talks.
  abbrev pub Talks : {A : Type 0} → String → ℤ → List String → N.State → Ran N (Program A) → Type 0
  Talks usage port (ip ∷ arg ∷ argv) s (returns (over n) s') = ⊥
  Talks usage port (ip ∷ arg ∷ argv) s (returns (running p) s') =
      (sock : ℤ) × (a : ℕ) × (N.inet_aton ip ≡ some a)
      × (peer s' sock ≡ some (a, to_unsigned 16 (scanned (N.scan_int arg) port)))
      × Over sock (λ _. Unit) p
  Talks usage port (ip ∷ arg ∷ argv) s (exits n s') = n ≡ pos 1
  Talks usage port (ip ∷ []) s r = r ≡ returns (over irpc_failure) (N.print usage s)
  Talks usage port [] s r = r ≡ returns (over irpc_failure) (N.print usage s)

  module _ (L : Libusb) {A : Type 0} (talk : String → IrpcInfo → Script L A)
      (through : (ip : String) (sock : ℤ) (i : IrpcInfo)
        → i.ci.server_sock ≡ sock
        → Through L sock (talk ip i))
      (u : Uninit) (g : Globals L) where
    goes_on-Talks :
        (usage : String) (port : ℤ) (ip arg : String) (argv : List String) (s : N.State)
        (r : Ran N Connected)
        → Connects N peer law usage port (ip ∷ arg ∷ argv) s r
        → Talks usage port (ip ∷ arg ∷ argv) s (elim r [
          | returns c s' ↦ returns (goes_on N L talk u g ip c) s'
          | exits n s' ↦ exits n s'
        ])
    unfolding connected_info
    goes_on-Talks usage port ip arg argv s (returns (ended n) s') h = h
    goes_on-Talks usage port ip arg argv s (returns (talking sock) s') (a, named, joined) = (
      sock,
      a,
      named,
      joined,
      remote-Over L sock u g (talk ip (connected_info sock))
          (through ip sock (connected_info sock) refl),
    )
    goes_on-Talks usage port ip arg argv s (exits n s') h = h

    pub connect_and_talk-Talks :
        (usage : String) (port : ℤ) (argv : List String) (s : N.State)
        → Talks usage port argv s (connect_and_talk N L talk u g usage port argv s)
    unfolding connect_and_talk connect_main
    connect_and_talk-Talks usage port [] s = refl
    connect_and_talk-Talks usage port (ip ∷ []) s = refl
    connect_and_talk-Talks usage port (ip ∷ arg ∷ argv) s =
        goes_on-Talks usage port ip arg argv s _
          (connect_main-Connects N peer law usage port (ip ∷ arg ∷ argv) s)

module _ (L : Libusb) (sock : ℤ) where
  close_and_exit-Through :
      (retval : ℤ) (lines : List Line) (i : IrpcInfo)
      → i.ci.server_sock ≡ sock
      → Through L sock (close_and_exit L retval lines i)
  unfolding main
  close_and_exit-Through retval lines i h = (h, λ c e. e)

  claim_and_release-Through :
      (lines : List Line) (i : IrpcInfo)
      → i.ci.server_sock ≡ sock
      → Through L sock (claim_and_release L lines i)
  unfolding main
  claim_and_release-Through lines i h = (
    h,
    λ c e.
        Through-if L sock (is_negative c.retval) _ _
          (close_and_exit-Through c.retval (lines ++ usb_claim_interface_failed ∷ []) c.info e)
          (
            e,
            λ d e'.
                close_and_exit-Through d.retval
                  (if is_negative d.retval
                    then lines ++ usb_release_interface_failed ∷ []
                    else lines)
                  d.info e',
          ),
  )

  after_ids-Through :
      (lines : List Line) (c : Called L) (more : List Line)
      → c.info.ci.server_sock ≡ sock
      → Through L sock (after_ids L lines c more)
  unfolding main
  after_ids-Through lines c more h = Through-if L sock (is_negative c.retval) _ _ h (
    h,
    λ d e.
        Through-if L sock (is_negative d.retval) _ _ e
          (claim_and_release-Through (lines ++ more) d.info e),
  )

  printed-Through :
      (c : Called L) (lines : Option (List Line))
      → c.info.ci.server_sock ≡ sock
      → Through L sock (printed L c lines (print_ids_and_open L))
  unfolding main
  printed-Through c none h = tt
  printed-Through c (some ls) h = (
    h,
    λ d e.
        Through-if L sock (eq_ℤ d.retval irpc_failure) _ _
          (after_ids-Through (n_devs c.info.devlist.n_devs ∷ ls) d [] e)
          (after_ids-Through (n_devs c.info.devlist.n_devs ∷ ls) d
            (ids d.info.desc.id_vendor d.info.desc.id_product ∷ []) e),
  )

  main-Through : (i : IrpcInfo) → i.ci.server_sock ≡ sock → Through L sock (main L i)
  unfolding main
  main-Through i h = (
    h,
    λ c e. Through-if L sock (is_negative c.retval) _ _ tt (e, λ d e'. printed-Through d _ e'),
  )

-- With an address and a port among its arguments, irpc_client.c comes to talk only over one
-- socket, connected to the address that `inet_aton` reads and to the port that `sscanf` reads
-- (the uninitialised variable's value where it reads none), modulo 2^16: whatever it receives,
-- every packet that it sends or reads goes over that socket. Otherwise it exits with status 1.
-- With fewer arguments it prints its usage and returns `IRPC_FAILURE`, before any other call of
-- the system. Assumed: `connect` fails with -1, or connects the socket to the address and the
-- port that it is given.
pub program-Talks :
    (N : Net) (peer : N.State → ℤ → Option (ℕ × ℕ)) (law : IsPeer N peer) (L : Libusb) (u : Uninit)
    (g : Globals L) (port : ℤ) (argv : List String) (s : N.State)
    → Talks N peer law usage_line port argv s (program N L u g port argv s)
unfolding program
program-Talks N peer law L u g =
    connect_and_talk-Talks N peer law L (λ ip. main L) (λ ip. main-Through L) u g usage_line
