-- ===== src/Tests/Witnesses.antt =====
-- The theorems, applied to the concrete libusb and the concrete tpl.
use libirpc.Prelude.{
  ◌<◌, ◌≢◌, ◌≡◌, ◌↔◌, ◌⊎◌, refl, none, some, [], ◌∷◌, ℤ, pos, replicate, to_unsigned, ◌≤◌, ◌-◌, ◌^◌,
  true, arith,
}
use libirpc.Types.{
  func_code, func_of, usb_init, usb_exit, usb_bulk_transfer, usb_control_transfer, context_client,
}
use libirpc.Types.Zero.{zero_info, zero_info-IsInfo}
use libirpc.Tpl.Formats.{int_fmt}
use libirpc.Proc.{Proc, done, send, buffer_overflow, ◌>>=◌}
use libirpc.Proc.Run.{run, finished, server_stopped}
use libirpc.Rpc.Call.{irpc_call, irpc_dispatch}
use libirpc.Server.Overrun.{Modest, server_loop_fits}
use libirpc.Rpc.Devices.{copy_devices, find_device, same_session, reflect_device, zero_devlist}
use libirpc.Server.{server_loop}
use libirpc.Local.{local_call}
use libirpc.Local.Table.{device_table, copy_devices-device_table}
use libirpc.Local.Keeps.{IsCalled}
use libirpc.Remote.Keeps.{irpc_call-IsCalled}
use libirpc.Rpc.Base.{Called}
use libirpc.Local.Lookup.{same_session-reflect_device, find_device_first, find_device_high}
use libirpc.Rpc.Base.{Globals}
use libirpc.Remote.Setup.{before, after}
use libirpc.Remote.Call.{irpc_call-local_call, irpc_call-exit, server_loop_unknown}
use libirpc.Session.{remote, local, exit, call, Script}
use libirpc.Session.Refines.{session-local}
use libirpc.IrpcClient
use libirpc.IrpcClient.Finish.{main-finished}
use libirpc.Tpl.Equality.{Holds-dump}
use libirpc.Tests.Codec.{codec, codec-Refuses}
use libirpc.Tests.Devices.{hub, phone, disk, sticks, stick_usb, stick_usb-IsTyped}
use libirpc.Tests.Host.{
  memory, memory-IsUninit, memories-IsUninit, fresh, opened_phone, ask, short-IsInfo, asking,
}

copy_devices-device_table_example :
    copy_devices stick_usb 0 sticks zero_devlist ≡ device_table stick_usb sticks
copy_devices-device_table_example = copy_devices-device_table stick_usb sticks

same_session-reflect_device_example :
    (same_session stick_usb phone (reflect_device stick_usb phone) ≡ true)
    ↔ ((stick_usb.session_data phone < 2 ^ 31) ⊎ (2 ^ 64 - 2 ^ 31 ≤ stick_usb.session_data phone))
same_session-reflect_device_example = same_session-reflect_device stick_usb phone (omega arith)

find_device_first_example :
    find_device stick_usb (hub ∷ phone ∷ disk ∷ []) (reflect_device stick_usb phone) ≡ some phone
find_device_first_example =
    find_device_first stick_usb (hub ∷ []) (disk ∷ []) phone (omega arith)
      ((λ e. absurd (omega arith)), tt)

find_device_high_example :
    find_device stick_usb (hub ∷ disk ∷ []) (reflect_device stick_usb disk) ≡ none
find_device_high_example =
    find_device_high stick_usb (hub ∷ disk ∷ []) disk (omega arith) (omega arith) (omega arith)

irpc_call-IsCalled_example :
    (c : Called stick_usb) × (before codec stick_usb (asking (pos 64)) usb_bulk_transfer
      ≡ after codec stick_usb (asking (pos 64)) c)
    × IsCalled stick_usb c
irpc_call-IsCalled_example =
    irpc_call-IsCalled codec stick_usb stick_usb-IsTyped (asking (pos 64)) short-IsInfo
      memory-IsUninit usb_bulk_transfer (λ e. absurd (cc)) (omega arith)

irpc_call-local_call_example :
    before codec stick_usb (asking (pos 64)) usb_bulk_transfer
    ≡ after codec stick_usb
        (asking (pos 64))
        (local_call stick_usb usb_bulk_transfer memory opened_phone (ask (pos 64)))
irpc_call-local_call_example =
    irpc_call-local_call codec stick_usb stick_usb-IsTyped (asking (pos 64)) short-IsInfo
      memory-IsUninit usb_bulk_transfer (λ e. absurd (cc)) (omega arith)

irpc_call-exit_example :
    run codec
      (irpc_call stick_usb (pos (func_code usb_exit)) context_client memory (fresh 0) zero_info
        >>= λ c. done c.retval)
      []
      (server_loop stick_usb (memory ∷ []) opened_phone zero_info)
      []
    ≡ run codec (done (pos 0)) [] (done opened_phone) []
irpc_call-exit_example =
    irpc_call-exit codec stick_usb (λ c. done c.retval) memory memory [] (fresh 0) opened_phone
      zero_info zero_info

server_loop_unknown_example :
    run codec
      (send (pos 5) int_fmt (pos 17, tt) (done tt))
      []
      (server_loop stick_usb (memory ∷ memory ∷ []) (fresh 1) zero_info)
      []
    ≡ run codec (done tt) [] (server_loop stick_usb (memory ∷ []) (fresh 1) zero_info) []
unfolding func_of
server_loop_unknown_example =
    server_loop_unknown codec stick_usb (done tt) memory (memory ∷ []) (fresh 1) zero_info (pos 5)
      (pos 17) (omega arith) refl

-- A client that initialises libusb and exits.
abbrev hello : Script stick_usb ℤ
hello = call usb_init zero_info (λ c. exit c.info c.retval)

session-local_example :
    run codec
      (remote stick_usb memory (fresh 0) hello)
      []
      (server_loop stick_usb (replicate 2 memory) (fresh 1) zero_info)
      []
    ≡ local stick_usb (replicate 2 memory) (fresh 1) (fresh 0) hello
session-local_example =
    session-local codec stick_usb stick_usb-IsTyped memory zero_info hello (replicate 2 memory)
      (fresh 1) (fresh 0) ((λ e. cc), zero_info-IsInfo, tt, λ c kept. kept.info)
      (memories-IsUninit 2)

main-finished_example :
    (r : IrpcClient.Report) × (h' : Globals stick_usb) × (run codec
        (remote stick_usb memory (fresh 0) (IrpcClient.main stick_usb zero_info))
        []
        (server_loop stick_usb (memory ∷ replicate 7 memory) (fresh 1) zero_info)
        []
      ≡ finished r h')
main-finished_example =
    main-finished codec stick_usb stick_usb-IsTyped memory zero_info zero_info zero_info-IsInfo
      memory (replicate 7 memory) (fresh 1) (fresh 0) (memories-IsUninit 8) refl (omega arith)

-- A client that asks for a control transfer of 64 bytes, and returns its result.
abbrev asker : Proc ℤ
asker =
    irpc_call stick_usb (pos (func_code usb_control_transfer)) context_client memory (fresh 0)
      (ask (pos 64))
    >>= λ c. done c.retval

server_loop_fits_example :
    run codec asker [] (server_loop stick_usb (replicate 2 memory) opened_phone zero_info) []
    ≢ server_stopped buffer_overflow
unfolding irpc_call irpc_dispatch func_of func_code zero_info to_unsigned
server_loop_fits_example =
    server_loop_fits stick_usb stick_usb-IsTyped codec asker (replicate 2 memory) opened_phone
      zero_info (memories-IsUninit 2)
      (
        Holds-dump codec Modest codec-Refuses _ _ (omega arith) tt,
        (Holds-dump codec Modest codec-Refuses _ _ (omega arith) (omega arith), λ v fits. tt),
      )
