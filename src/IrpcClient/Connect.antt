-- ===== src/IrpcClient/Connect.antt =====
-- irpc_client.c: how the client connects, up to `usb_init` in `main`.
use Prim.Native.String.{String, ◌++◌ as ◌<>◌}
use libirpc.Prelude.{
  ℕ, ◌≡◌, refl, false, Bool-cases, Option-cases, Option, none, some, List, [], ◌∷◌, inl, inr, ℤ,
  pos, negsuc, eq_ℤ, to_unsigned, if◌then◌else◌, arith,
}
use libirpc.Types.{irpc_failure}
use libirpc.Net.{
  Net, Ran, returns, exits, Sys, pure, ask, say, die_saying, scanned, IsPeer, ◌>>=◌, ◌>>◌,
}

-- `main` returns a status, or is connected.
pub data Connected : Type 0 where
  ended : ℤ → Connected
  talking : ℤ → Connected

abbrev no_socket : String → String
no_socket ip = "Error! Failed to create a client socket: " <> ip <> "\n"

abbrev unreachable : String → String
unreachable ip = "Error! Failed to connect to a server at: " <> ip <> "\n"

abbrev pub usage_line : String
usage_line = "irpc_client: ip port\n"

module _ (N : Net) where
  unfoldable pub create_client_socket : Sys N ℤ
  create_client_socket = do
    sock ← ask N N.socket
    pure N (if eq_ℤ sock (negsuc 0) then negsuc 0 else sock)

  -- `try_connect` after `inet_aton`.
  abbrev pub connect_to : ℤ → ℤ → Option ℕ → Sys N ℤ
  connect_to sock port none = pure N (negsuc 0)
  connect_to sock port (some a) = ask N (N.connect sock a (to_unsigned 16 port))

  unfoldable pub try_connect : ℤ → String → ℤ → Sys N ℤ
  try_connect sock ip port = connect_to sock port (N.inet_aton ip)

  unfoldable pub connect_or_die : String → ℤ → Sys N ℤ
  unfolding create_client_socket try_connect
  connect_or_die ip port = do
    sock ← create_client_socket
    die_saying N (eq_ℤ sock (negsuc 0)) (no_socket ip)
    connected ← try_connect sock ip port
    die_saying N (eq_ℤ connected (negsuc 0)) (unreachable ip)
    pure N sock

  abbrev usage_and_end : String → Sys N Connected
  usage_and_end usage = do say N usage; pure N (ended irpc_failure)

  -- `argv` is given without the program's name, `usage` is the line printed where it is too short;
  -- `port` is an uninitialised variable.
  unfoldable pub connect_main : String → ℤ → List String → Sys N Connected
  unfolding connect_or_die
  connect_main usage port [] = usage_and_end usage
  connect_main usage port (ip ∷ []) = usage_and_end usage
  connect_main usage port (ip ∷ arg ∷ argv) = do
    sock ← connect_or_die ip (scanned (N.scan_int arg) port)
    pure N (talking sock)

module _ (N : Net) (peer : N.State → ℤ → Option (ℕ × ℕ)) (law : IsPeer N peer) where
  -- The client talks to the address and the port that its arguments name.
  abbrev pub TalksTo : String → ℤ → Ran N ℤ → Type 0
  TalksTo ip port (returns sock s) =
      (a : ℕ) × (N.inet_aton ip ≡ some a) × (peer s sock ≡ some (a, to_unsigned 16 port))
  TalksTo ip port (exits n s) = n ≡ pos 1

  -- `connect_or_die` after the socket is there.
  abbrev connect_on : String → ℤ → ℤ → Sys N ℤ
  connect_on ip port sock = do
    connected ← try_connect N sock ip port
    die_saying N (eq_ℤ connected (negsuc 0)) (unreachable ip)
    pure N sock

  connected :
      (k : ℤ) (a p : ℕ) (s : N.State)
      → eq_ℤ (N.connect k a p s).0 (negsuc 0) ≡ false
      → peer (N.connect k a p s).1 k ≡ some (a, p)
  connected k a p s e = elim (law.connect k a p s) [
    | inl failed ↦ absurd (ground (arith, failed))
    | inr fine ↦ fine
  ]

  connect_on-TalksTo :
      (ip : String) (port sock : ℤ) (s : N.State) → TalksTo ip port (connect_on ip port sock s)
  unfolding try_connect
  connect_on-TalksTo ip port sock s = elim (Option-cases (N.inet_aton ip)) [
    | inl e ↦ rw e refl
    | inr (a, e) ↦
        rw e (elim (Bool-cases (eq_ℤ (N.connect sock a (to_unsigned 16 port) s).0 (negsuc 0))) [
          | inl failed ↦ rw failed refl
          | inr ok ↦ rw ok (a, e, connected sock a (to_unsigned 16 port) s ok)
        ])
  ]

  connect_or_die-TalksTo :
      (ip : String) (port : ℤ) (s : N.State) → TalksTo ip port (connect_or_die N ip port s)
  unfolding connect_or_die create_client_socket
  connect_or_die-TalksTo ip port s = elim (Bool-cases (eq_ℤ (N.socket s).0 (negsuc 0))) [
    | inl failed ↦ rw failed refl
    | inr ok ↦ rw (ok, ok) (connect_on-TalksTo ip port (N.socket s).0 (N.socket s).1)
  ]

  -- What `main` reaches before it talks to the server, by its arguments.
  abbrev pub Connects : String → ℤ → List String → N.State → Ran N Connected → Type 0
  Connects usage port (ip ∷ arg ∷ argv) s (returns (ended n) s') = ⊥
  Connects usage port (ip ∷ arg ∷ argv) s (returns (talking sock) s') =
      TalksTo ip (scanned (N.scan_int arg) port) (returns sock s')
  Connects usage port (ip ∷ arg ∷ argv) s (exits n s') = n ≡ pos 1
  Connects usage port (ip ∷ []) s r = r ≡ returns (ended irpc_failure) (N.print usage s)
  Connects usage port [] s r = r ≡ returns (ended irpc_failure) (N.print usage s)

  talking-Connects :
      (usage : String) (port : ℤ) (ip arg : String) (argv : List String) (s : N.State) (r : Ran N ℤ)
      → TalksTo ip (scanned (N.scan_int arg) port) r
      → Connects usage port
          (ip ∷ arg ∷ argv)
          s
          (elim r [ returns sock s' ↦ returns (talking sock) s' | exits n s' ↦ exits n s' ])
  talking-Connects usage port ip arg argv s (returns sock s') h = h
  talking-Connects usage port ip arg argv s (exits n s') h = h

  -- With an address and a port among its arguments, `main` of irpc_client.c comes to talk to the
  -- server only over a socket that is connected to the address that `inet_aton` reads and to the
  -- port that `sscanf` reads (the uninitialised variable's value where it reads none), modulo
  -- 2^16, and exits with status 1 otherwise. With fewer arguments it prints its
  -- usage and returns `IRPC_FAILURE`, before any other call of the system. Assumed: `connect` fails with -1, or connects the socket to
  -- the address and the port that it is given.
  pub connect_main-Connects :
      (usage : String) (port : ℤ) (argv : List String) (s : N.State)
      → Connects usage port argv s (connect_main N usage port argv s)
  unfolding connect_main
  connect_main-Connects usage port [] s = refl
  connect_main-Connects usage port (ip ∷ []) s = refl
  connect_main-Connects usage port (ip ∷ arg ∷ argv) s =
      talking-Connects usage port ip arg argv s _
        (connect_or_die-TalksTo ip (scanned (N.scan_int arg) port) s)
