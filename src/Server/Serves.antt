-- ===== src/Server/Serves.antt =====
-- Whom irpc_server.c serves: the port and the socket of the whole program.
use Prim.Native.String.{String}
use libirpc.Prelude.{
  ℕ, ◌≡◌, refl, ◌∙◌, false, Bool-cases, Option, none, some, List, [], ◌∷◌, inl, inr, ℤ, pos, negsuc,
  eq_ℤ, to_unsigned, arith,
}
use libirpc.Usb.{Libusb}
use libirpc.Proc.{Program, over, running}
use libirpc.Proc.Sockets.{Over}
use libirpc.Net.{Net, Ran, returns, exits, scanned, IsBound, ran, pure, ◌>>=◌}
use libirpc.Rpc.Base.{Globals, Uninit}
use libirpc.Session.Sockets.{server_loop-Over}
use libirpc.Server.Main.{usage_line, init_connection_or_die, accept_client, served_or_closed, main}
use libirpc.Server.Program.{accepted_info, goes_on, program}

module _ (N : Net) (bound : N.State → ℤ → Option ℕ) (law : IsBound N bound) where
  -- A set-up that goes on does so with a socket bound to the port.
  abbrev Listens : ℕ → Ran N ℤ → Type 0
  Listens p (returns sock s) = bound s sock ≡ some p
  Listens p (exits n s) = n ≡ pos 1

  init_connection_or_die-Listens :
      (tmp port : ℤ) (s : N.State)
      → Listens (to_unsigned 16 port) (init_connection_or_die N tmp port s)
  unfolding init_connection_or_die
  init_connection_or_die-Listens tmp port s =
      let s1 : N.State = (N.socket s).1 in
      let k : ℤ = (N.socket s).0 in
      let s2 : N.State = (N.bind k (to_unsigned 16 port) s1).1 in
      let s3 : N.State = (N.listen k (pos 20) s2).1 in
      ground (
        arith,
        law.bind k (to_unsigned 16 port) s1,
        law.listen k (pos 20) s2 k,
        law.setsockopt k tmp s3 k,
      )

  -- The client that `accept_client` gives, if it gives one, came to the port.
  abbrev OfPort : ℕ → Ran N (Option ℤ) → Type 0
  OfPort p (returns none s) = Unit
  OfPort p (returns (some k) s) = bound s k ≡ some p
  OfPort p (exits n s) = ⊥

  accepted-OfPort :
      (p : ℕ) (k : ℤ) (s : N.State)
      → bound s k ≡ some p
      → eq_ℤ (N.accept k s).0 (negsuc 0) ≡ false
      → bound (N.accept k s).1 (N.accept k s).0 ≡ some p
  accepted-OfPort p k s h e = elim (law.accept k s) [
    | inl failed ↦ absurd (ground (arith, failed))
    | inr same ↦ same ∙ h
  ]

  accept_client-OfPort :
      (p : ℕ) (sock : ℤ) (s : N.State) → bound s sock ≡ some p → OfPort p (accept_client N sock s)
  unfolding accept_client
  accept_client-OfPort p sock s h =
      let s1 : N.State = (N.select sock 10 s).1 in
      elim (Bool-cases (eq_ℤ (N.select sock 10 s).0 (negsuc 0))) [
        | inl failed ↦ rw failed tt
        | inr ready ↦ rw ready (elim (Bool-cases (eq_ℤ (N.accept sock s1).0 (negsuc 0))) [
          | inl failed ↦ rw failed tt
          | inr ok ↦ rw ok (accepted-OfPort p sock s1 (law.select sock 10 s sock ∙ h) ok)
        ])
      ]

  -- What the whole program does, by its arguments: it serves one client, over a socket of the port
  -- that they name and over no other, or ends before it serves anyone.
  abbrev pub Serves : {A : Type 0} → ℤ → List String → N.State → Ran N (Program A) → Type 0
  Serves port (arg ∷ argv) s (returns (over n) s') = n ≡ pos 0
  Serves port (arg ∷ argv) s (returns (running p) s') =
      (sock : ℤ) × (bound s' sock ≡ some (to_unsigned 16 (scanned (N.scan_int arg) port)))
      × Over sock (λ _. Unit) p
  Serves port (arg ∷ argv) s (exits n s') = n ≡ pos 1
  Serves port [] s r = r ≡ returns (over (pos 1)) (N.print usage_line s)

  module _ (L : Libusb) (us : List Uninit) (g : Globals L) where
    served-Serves :
        (port : ℤ) (arg : String) (argv : List String) (s : N.State) (sock : ℤ)
        (r : Ran N (Option ℤ))
        → OfPort (to_unsigned 16 (scanned (N.scan_int arg) port)) r
        → Serves port
            (arg ∷ argv)
            s
            ((ran r >>= served_or_closed N sock >>= λ c. pure N (goes_on N L us g c)) s)
    unfolding accepted_info
    served-Serves port arg argv s sock (returns none s') h = refl
    served-Serves port arg argv s sock (returns (some k) s') h =
        (k, h, server_loop-Over L k us g (accepted_info k) refl)
    served-Serves port arg argv s sock (exits n s') h = absurd h

    set_up-Serves :
        (port : ℤ) (arg : String) (argv : List String) (s : N.State) (r : Ran N ℤ)
        → Listens (to_unsigned 16 (scanned (N.scan_int arg) port)) r
        → Serves port (arg ∷ argv) s (
            (ran r >>= (λ sock. accept_client N sock >>= served_or_closed N sock) >>= λ c.
            pure N (goes_on N L us g c))
              s)
    set_up-Serves port arg argv s (returns sock s') h =
        served-Serves port arg argv s sock (accept_client N sock s')
          (accept_client-OfPort _ sock s' h)
    set_up-Serves port arg argv s (exits n s') h = h

    -- With a port among its arguments, irpc_server.c comes to serve only over one socket, which
    -- is bound to the port that `sscanf` reads (the uninitialised variable's value where it reads
    -- none), modulo 2^16: whatever it receives, every packet that it sends or reads goes over
    -- that socket. Otherwise it exits with status 1, where the set-up fails, or returns 0, where
    -- no client is accepted. Without arguments it prints its usage and returns 1, before any
    -- other call of the system. Assumed: `bind` returns another value than 0 or binds the socket
    -- to the port, a socket that `accept` gives is bound to the port of the one that listens, and
    -- the other calls bind no socket.
    pub program-Serves :
        (tmp port : ℤ) (argv : List String) (s : N.State)
        → Serves port argv s (program N L us g tmp port argv s)
    unfolding program main
    program-Serves tmp port [] s = refl
    program-Serves tmp port (arg ∷ argv) s =
        set_up-Serves port arg argv s
          (init_connection_or_die N tmp (scanned (N.scan_int arg) port) s)
          (init_connection_or_die-Listens tmp (scanned (N.scan_int arg) port) s)
