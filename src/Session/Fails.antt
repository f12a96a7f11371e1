-- ===== src/Session/Fails.antt =====
-- A client that gives up after a failed initialisation, in any order of its steps and those of
-- irpc_server.c.
use libirpc.Prelude.{◌≡◌, true, List, [], ◌∷◌, pos, is_negative, if◌then◌else◌, arith}
use libirpc.Types.{usb_init, IrpcInfo, func_of, func_code}
use libirpc.Tpl.{Tpl}
use libirpc.Tpl.Formats.{int_fmt}
use libirpc.Usb.{Libusb, IsTyped}
use libirpc.Proc.{done, stop, bad_load}
use libirpc.Proc.Steps.{
  config, Steps, here, step, client_sends, server_loads, server_sends, client_loads, server_eof,
}
use libirpc.Proc.Diamond.{gone-Stuck}
use libirpc.Proc.Settles.{EndsAt, Steps-EndsAt}
use libirpc.Rpc.Base.{Globals, Uninit, Called}
use libirpc.Rpc.Call.{irpc_call, irpc_dispatch}
use libirpc.Local.{local_call}
use libirpc.Server.{server_loop}
use libirpc.Session.{Script, leave, call, remote}

module _ (T : Tpl) (L : Libusb) (typed : IsTyped L) {A : Type 0} (u m : Uninit) (us : List Uninit)
    (h g : Globals L) (si i : IrpcInfo) (a : Called L → A) (k : Called L → Script L A) where
  abbrev giving_up : Script L A
  giving_up = call usb_init i (λ c. if is_negative c.retval then leave (a c) else k c)

  abbrev given_up : Called L
  given_up = record { retval = (L.init h.irpc_ctx h.usb).0.0; globals = g; info = i }

  failed-Steps :
      is_negative (L.init h.irpc_ctx h.usb).0.0 ≡ true
      → Steps T
          (config T (remote L u g giving_up) [] (server_loop L (m ∷ us) h si) [])
          (config T (done (a given_up)) [] (stop bad_load) [])
  unfolding remote server_loop irpc_call irpc_dispatch func_code func_of local_call
  failed-Steps failed = step (client_sends int_fmt (pos 0, tt) _ _ _ _) (
      step
        (server_loads T _ _ _ int_fmt _ (pos 0, tt) _
          (T.load-dump int_fmt (pos 0, tt) (omega arith)))
        (step (server_sends _ _ int_fmt _ _ _) (
          step (client_loads T int_fmt _ _ _ _ _ _ (T.load-dump int_fmt _ (typed.init _ _, tt)))
            (rw failed (step (server_eof (done _) int_fmt _ [] tt) here)))))

  -- Every schedule ends with the client gone, and the server stopped where it read its next call from
  -- the closed connection.
  pub failed-EndsAt :
      is_negative (L.init h.irpc_ctx h.usb).0.0 ≡ true
      → EndsAt T
          (config T (remote L u g giving_up) [] (server_loop L (m ∷ us) h si) [])
          (config T (done (a given_up)) [] (stop bad_load) [])
  unfolding server_loop
  failed-EndsAt failed =
      Steps-EndsAt T (failed-Steps failed) (gone-Stuck T (done _) (stop _) [] [] tt tt)
