-- ===== src/Server/Main.antt =====
-- irpc_server.c: the set-up of the server's socket, and `main`.
use Prim.Native.String.{String}
use libirpc.Prelude.{
  not, Option, none, some, List, [], ◌∷◌, ℤ, pos, negsuc, eq_ℤ, is_negative, to_unsigned,
  if◌then◌else◌,
}
use libirpc.Net.{Net, returns, Sys, pure, ask, say, die_if, scanned, ◌>>=◌, ◌>>◌}

-- `main` returns a status before it has served anyone, or serves a client, given by the sockets.
pub data Started : Type 0 where
  ended : ℤ → Started
  serving : ℤ → ℤ → Started

abbrev pub select_failed : String
select_failed = "Error! select()\n"

abbrev pub accept_failed : String
accept_failed = "Error! Failed to accept an incoming connection.\n"

abbrev pub usage_line : String
usage_line = "irpc_server: port\n"

module _ (N : Net) where
  -- `tmp` is an uninitialised variable.
  unfoldable pub init_connection_or_die : ℤ → ℤ → Sys N ℤ
  init_connection_or_die tmp port = do
    sockfd ← ask N N.socket
    die_if N (is_negative sockfd)
    bound ← ask N (N.bind sockfd (to_unsigned 16 port))
    die_if N (not (eq_ℤ bound (pos 0)))
    listening ← ask N (N.listen sockfd (pos 20))
    die_if N (not (eq_ℤ listening (pos 0)))
    set ← ask N (N.setsockopt sockfd tmp)
    die_if N (not (eq_ℤ set (pos 0)))
    pure N sockfd

  -- `fprintf(stderr, …); return;`
  abbrev refuse : String → Sys N (Option ℤ)
  refuse text = do say N text; pure N none

  -- `server_loop` before its `while (1)`: the client's socket, or an early return. That `select`
  -- returns 0 after 10 seconds is not told from a client that waits.
  unfoldable pub accept_client : ℤ → Sys N (Option ℤ)
  accept_client sock = do
    ready ← ask N (N.select sock 10)
    let go_on = do
      client_sock ← ask N (N.accept sock)
      let accepted = pure N (some client_sock)
      if eq_ℤ client_sock (negsuc 0) then refuse accept_failed else accepted
    if eq_ℤ ready (negsuc 0) then refuse select_failed else go_on

  -- `close(sock)` at the end of `main`, where `server_loop` returned early.
  abbrev pub served_or_closed : ℤ → Option ℤ → Sys N Started
  served_or_closed sock none s = returns (ended (pos 0)) (N.close sock s)
  served_or_closed sock (some client_sock) s = returns (serving sock client_sock) s

  -- `main`, up to the loop. `argv` is given without the program's name; `port` and `tmp` are
  -- uninitialised variables.
  unfoldable pub main : ℤ → ℤ → List String → Sys N Started
  unfolding init_connection_or_die accept_client
  main tmp port [] = do say N usage_line; pure N (ended (pos 1))
  main tmp port (arg ∷ argv) = do
    sock ← init_connection_or_die tmp (scanned (N.scan_int arg) port)
    client ← accept_client sock
    served_or_closed sock client

  -- The ends of `server_loop` and of `main`, after the loop.
  unfoldable pub hang_up : ℤ → ℤ → N.State → N.State
  hang_up sock client_sock s = N.close sock (N.close client_sock s)
