-- ===== src/FindIdevice/Connect.antt =====
-- irpc_find_idevice.c: how the search connects, up to `usb_init` in `main`. The functions have, word
-- for word, the text of those of irpc_client.c, and are declared as such; the line that `main`
-- prints for too few arguments is another.
use Prim.Native.String.{String}
use libirpc.Prelude.{List, ℤ}
use libirpc.Net.{Net, Sys}
use libirpc.IrpcClient.Connect
use libirpc.IrpcClient.Connect.{Connected}

abbrev pub create_client_socket : (N : Net) → Sys N ℤ
create_client_socket = Connect.create_client_socket

abbrev pub try_connect : (N : Net) → ℤ → String → ℤ → Sys N ℤ
try_connect = Connect.try_connect

abbrev pub connect_or_die : (N : Net) → String → ℤ → Sys N ℤ
connect_or_die = Connect.connect_or_die

abbrev pub usage_line : String
usage_line = "irpc_find_idevice: ip port\n"

abbrev pub connect_main : (N : Net) → ℤ → List String → Sys N Connected
connect_main N = Connect.connect_main N usage_line
