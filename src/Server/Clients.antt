-- ===== src/Server/Clients.antt =====
-- irpc_server.c with any client at all: what its end state can be.
use libirpc.Prelude.{ℕ, ◌≡◌, List, All}
use libirpc.Types.{IrpcInfo}
use libirpc.Tpl.{Tpl}
use libirpc.Usb.{Libusb, IsTyped}
use libirpc.Proc.{Proc}
use libirpc.Proc.Ensures.{run-Ensures}
use libirpc.Proc.Run.{run, finished}
use libirpc.Rpc.Base.{Globals, Uninit, IsUninit}
use libirpc.Server.{server_loop}
use libirpc.Server.Answers.{server_loop-Ensures}
use libirpc.Local.Handles.{IsCount, HoldsAll}
use libirpc.Local.Reached.{Reached, start, step, Reached-HoldsAll}

module _ (T : Tpl) (L : Libusb) (typed : IsTyped L) {A : Type 0} where
  -- With any client process at all, also one that is no libirpc client, and any packets already
  -- on their way: if client and server both return, some sequence of local calls leads from the
  -- server's globals before to those after. Assumed: libusb keeps to its types, and the
  -- uninitialised memory holds values of its types.
  pub server_loop-Reached :
      (c : Proc A) (up down : List T.Image) (us : List Uninit) (g h : Globals L) (si : IrpcInfo)
      (a : A)
      → All IsUninit us
      → run T c up (server_loop L us g si) down ≡ finished a h
      → Reached L g h
  server_loop-Reached c up down us g h si a memory e =
      run-Ensures T (Reached L g) c up (server_loop L us g si) down a h
        (server_loop-Ensures L typed (Reached L g) (λ f u k i before. step before f u i) us g si
          memory start)
        e

  -- With any client process at all: if client and server both return and the open handles of
  -- libusb were the one in the server's `irpc_handle`, or none where that is NULL, they are so
  -- after the conversation. Assumed: libusb keeps to its types and counts its handles, and the
  -- uninitialised memory holds values of its types.
  pub server_loop-HoldsAll :
      (handles : L.State → ℕ) (count : IsCount L handles) (c : Proc A) (up down : List T.Image)
      (us : List Uninit) (g h : Globals L) (si : IrpcInfo) (a : A)
      → All IsUninit us
      → HoldsAll L handles count g
      → run T c up (server_loop L us g si) down ≡ finished a h
      → HoldsAll L handles count h
  server_loop-HoldsAll handles count c up down us g h si a memory all e =
      Reached-HoldsAll L handles count g h (server_loop-Reached c up down us g h si a memory e) all
