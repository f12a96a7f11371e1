-- ===== src/Tests/Schedules.antt =====
-- Schedules of short conversations: one step by step, and how all of them end.
use libirpc.Prelude.{refl, ◌≡◌, none, some, [], ℤ, pos, negsuc, ◌∷◌, replicate, arith}
use libirpc.Types.{usb_init, func_code, func_of}
use libirpc.Types.Zero.{zero_info, zero_info-IsInfo}
use libirpc.Tpl.Formats.{int_fmt}
use libirpc.Proc.{done, stop, bad_load}
use libirpc.Proc.Run.{finished}
use libirpc.Proc.Steps.{
  config, Steps, here, step, server_sends, server_loads, client_sends, client_loads,
}
use libirpc.Rpc.Base.{Globals}
use libirpc.Rpc.Call.{irpc_call, irpc_dispatch}
use libirpc.Server.{server_loop}
use libirpc.Session.{Script, exit, call, remote, local}
use libirpc.Session.Schedules.{Steps-local, session-Settles}
use libirpc.Proc.Settles.{Settles, EndsAt}
use libirpc.IrpcClient
use libirpc.IrpcClient.Finish.{main-EndsAt}
use libirpc.Local.{local_call}
use libirpc.Tests.Codec.{codec}
use libirpc.Tests.Devices.{stick_usb, stick_usb-IsTyped}
use libirpc.Tests.Host.{memory, memories-IsUninit, fresh}

-- A client that initialises libusb and exits.
abbrev greeting : Script stick_usb ℤ
greeting = call usb_init zero_info (λ c. exit c.info c.retval)

abbrev greeted : Globals stick_usb
greeted = record { irpc_ctx = some tt; irpc_handle = none; usb = (0, 0) }

-- The client sends its last number before the server waits for it.
schedule :
    Steps codec
      (config codec
        (remote stick_usb memory (fresh 0) greeting)
        []
        (server_loop stick_usb (replicate 2 memory) (fresh 1) zero_info)
        [])
      (config codec (done (pos 0)) [] (done greeted) [])
unfolding remote server_loop irpc_call irpc_dispatch func_code func_of
schedule = step (client_sends int_fmt (pos 0, tt) _ _ _ _) (
    step
      (server_loads codec _ _ _ int_fmt _ (pos 0, tt) _
        (codec.load-dump int_fmt (pos 0, tt) (omega arith)))
      (step (server_sends _ _ int_fmt (pos 0, tt) _ _) (
        step
          (client_loads codec int_fmt _ (pos 0, tt) _ _ _ _
            (codec.load-dump int_fmt (pos 0, tt) (omega arith)))
          (step (client_sends int_fmt (pos 1, tt) _ _ _ _) (
            step
              (server_loads codec _ _ _ int_fmt _ (pos 1, tt) _
                (codec.load-dump int_fmt (pos 1, tt) (omega arith)))
              here)))))

Steps-local_example :
    local stick_usb (replicate 2 memory) (fresh 1) (fresh 0) greeting ≡ finished (pos 0) greeted
Steps-local_example =
    Steps-local codec stick_usb stick_usb-IsTyped memory zero_info greeting (replicate 2 memory)
      (fresh 1) (fresh 0) (pos 0) greeted [] []
      ((λ e. cc), zero_info-IsInfo, tt, λ c kept. kept.info) (memories-IsUninit 2) schedule

session-Settles_example :
    Settles codec
      (config codec
        (remote stick_usb memory (fresh 0) greeting)
        []
        (server_loop stick_usb (replicate 2 memory) (fresh 1) zero_info)
        [])
      (pos 0)
      greeted
unfolding local local_call
session-Settles_example =
    session-Settles codec stick_usb stick_usb-IsTyped memory zero_info greeting (replicate 2 memory)
      (fresh 1) (fresh 0) (pos 0) greeted ((λ e. cc), zero_info-IsInfo, tt, λ c kept. kept.info)
      (memories-IsUninit 2) refl

main-EndsAt_example :
    EndsAt codec
      (config codec
        (remote stick_usb memory (fresh 0) (IrpcClient.main stick_usb zero_info))
        []
        (server_loop stick_usb (replicate 2 memory) (fresh 0) zero_info)
        [])
      (config codec
        (done (record { retval = negsuc 98; lines = IrpcClient.usb_init_failed ∷ [] }))
        []
        (stop bad_load)
        [])
unfolding local_call
main-EndsAt_example =
    main-EndsAt codec stick_usb stick_usb-IsTyped memory zero_info zero_info memory (memory ∷ [])
      (fresh 0) (fresh 0) refl
