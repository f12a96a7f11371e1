-- ===== src/FindIdevice/Program.antt =====
-- irpc_find_idevice.c as a whole: `main` connects as irpc_client.c does, and searches over the
-- socket that it has stored in its `struct irpc_info`.
use Prim.Native.String.{String}
use libirpc.Prelude.{List, ℤ}
use libirpc.Usb.{Libusb}
use libirpc.Proc.{Program}
use libirpc.Net.{Net, Sys}
use libirpc.Rpc.Base.{Globals, Uninit}
use libirpc.IrpcClient.Program.{connect_and_talk}
use libirpc.FindIdevice.{Report, main}
use libirpc.FindIdevice.Connect.{usage_line}

module _ (N : Net) (L : Libusb) where
  unfoldable pub program : Uninit → Globals L → ℤ → List String → Sys N (Program Report)
  unfolding connect_and_talk
  program u g = connect_and_talk N L (main L) u g usage_line
