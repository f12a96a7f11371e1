-- ===== src/Session/Schedules.antt =====
-- A conversation of a client with irpc_server.c, in any order of their steps.
use libirpc.Prelude.{◌≡◌, refl, sym, ◌∙◌, List, [], All}
use libirpc.Types.{IrpcInfo}
use libirpc.Tpl.{Tpl}
use libirpc.Usb.{Libusb, IsTyped}
use libirpc.Proc.{done}
use libirpc.Proc.Run.{run, finished}
use libirpc.Proc.Steps.{config, Steps, Steps-finished}
use libirpc.Proc.Settles.{Settles, finished-Settles}
use libirpc.Rpc.Base.{Globals, Uninit, IsUninit}
use libirpc.Server.{server_loop}
use libirpc.Session.{Script, remote, local, Ready}
use libirpc.Session.Refines.{session-local}

module _ (T : Tpl) (L : Libusb) (typed : IsTyped L) (u : Uninit) (si : IrpcInfo) {A : Type 0} where
  -- In whatever order the client and the server take their steps: if both processes come to their
  -- ends, the client's result and the server's final globals are those of the client's program
  -- run on the server's host. Assumed: libusb keeps to its types, the client passes valid infos
  -- and lengths, and the uninitialised memory holds bytes.
  pub Steps-local :
      (s : Script L A) (us : List Uninit) (h g : Globals L) (a : A) (h' : Globals L)
      (up down : List T.Image)
      → Ready L s
      → All IsUninit us
      → Steps T
          (config T (remote L u g s) [] (server_loop L us h si) [])
          (config T (done a) up (done h') down)
      → local L us h g s ≡ finished a h'
  unfolding run
  Steps-local s us h g a h' up down ready memory steps =
      sym (session-local T L typed u si s us h g ready memory) ∙ Steps-finished T a h' steps refl

  -- However the steps of a client and the server are interleaved, every schedule comes to an end,
  -- and at its end both processes have returned, with the results of the client's program run on
  -- the server's host, if that program finishes there. Assumed: libusb keeps to its types, the
  -- client passes valid infos and lengths, and the uninitialised memory holds bytes.
  pub session-Settles :
      (s : Script L A) (us : List Uninit) (h g : Globals L) (a : A) (h' : Globals L)
      → Ready L s
      → All IsUninit us
      → local L us h g s ≡ finished a h'
      → Settles T (config T (remote L u g s) [] (server_loop L us h si) []) a h'
  unfolding run
  session-Settles s us h g a h' ready memory e =
      finished-Settles T _ a h' (session-local T L typed u si s us h g ready memory ∙ e)
