-- ===== src/Tests/Clients.antt =====
-- The theorems on any client and on any server, applied to concrete ones.
use libirpc.Prelude.{
  ◌<◌, ◌≡◌, ◌↔◌, refl, ◌∙◌, [], ◌∷◌, ℤ, pos, replicate, All-replicate, arith, pos_part,
}
use libirpc.Types.{usb_open, irpc_max_devs, func_code, usb_exit, func_of}
use libirpc.Types.Bounds.{IsInfo}
use libirpc.Types.Updates.{IsInfo-devlist}
use libirpc.Types.Zero.{zero_info, zero_info-IsInfo}
use libirpc.Tpl.Formats.{int_fmt}
use libirpc.Proc.{Proc, done, send, buffer_overflow}
use libirpc.Proc.Ensures.{Ensures}
use libirpc.Proc.Run.{run, finished, run-send, run-finish}
use libirpc.Rpc.Base.{Called, IsUninit}
use libirpc.Rpc.Call.{irpc_call, irpc_dispatch}
use libirpc.Remote.Call.{server_loop_unknown}
use libirpc.Server.{server_loop}
use libirpc.Server.Answers.{server_loop-Ensures}
use libirpc.Server.Clients.{server_loop-HoldsAll}
use libirpc.Remote.Opens.{irpc_call-OpensOrFails}
use libirpc.Remote.Setup.{before, after}
use libirpc.Local.Opens.{OpensOrFails}
use libirpc.Local.Handles.{HoldsAll, local_call-HoldsAll}
use libirpc.Session.{fault, remote}
use libirpc.IrpcClient
use libirpc.IrpcClient.Answers.{answer, usb_print_device_list-overrun}
use libirpc.IrpcClient.{print_ids_and_open}
use libirpc.IrpcClient.Blind.{main_memory}
use libirpc.FindIdevice.Blind.{search_memory}
use libirpc.FindIdevice
use libirpc.FindIdevice.Recovery.{Recovery, search-Ensures}
use libirpc.Tests.Codec.{codec}
use libirpc.Tests.Devices.{stick_usb, stick_usb-IsTyped, open_sticks, stick_usb-IsCount}
use libirpc.Tests.Host.{
  ip, other_memory, other_memory-IsUninit, memory, memories-IsUninit, memory-IsUninit, short-IsInfo,
  asking, fresh, opened_phone,
}

server_loop-Ensures_example :
    Ensures
      (HoldsAll stick_usb open_sticks stick_usb-IsCount)
      (server_loop stick_usb (replicate 2 memory) opened_phone zero_info)
server_loop-Ensures_example =
    server_loop-Ensures stick_usb stick_usb-IsTyped
      (HoldsAll stick_usb open_sticks stick_usb-IsCount)
      (local_call-HoldsAll stick_usb open_sticks stick_usb-IsCount) (replicate 2 memory)
      opened_phone zero_info (memories-IsUninit 2) refl

-- A client that sends the number of no function, and then exits.
abbrev stranger : Proc ℤ
stranger =
    send (pos 5) int_fmt (pos 99, tt)
      (send (pos 5) int_fmt (pos (func_code usb_exit), tt) (done (pos 0)))

run-stranger :
    run codec stranger [] (server_loop stick_usb (replicate 2 memory) opened_phone zero_info) []
    ≡ finished (pos 0) opened_phone
unfolding func_of server_loop irpc_call irpc_dispatch func_code
run-stranger =
    server_loop_unknown codec stick_usb
      (send (pos 5) int_fmt (pos (func_code usb_exit), tt) (done (pos 0))) memory (memory ∷ [])
      opened_phone zero_info (pos 5) (pos 99) (omega arith) refl
    ∙ run-send codec (pos 5) _ int_fmt (pos (func_code usb_exit), tt) (done (pos 0)) _ (omega arith)
    ∙ run-finish codec (pos 0) _

server_loop-HoldsAll_example : HoldsAll stick_usb open_sticks stick_usb-IsCount opened_phone
server_loop-HoldsAll_example =
    server_loop-HoldsAll codec stick_usb stick_usb-IsTyped open_sticks stick_usb-IsCount stranger []
      [] (replicate 2 memory) opened_phone opened_phone zero_info (pos 0) (memories-IsUninit 2) refl
      run-stranger

search-Ensures_example :
    Ensures Recovery (remote stick_usb memory (fresh 0) (FindIdevice.main stick_usb ip zero_info))
search-Ensures_example = search-Ensures stick_usb ip memory (fresh 0) zero_info zero_info-IsInfo

-- What a server sends that says it has 300 devices.
abbrev boast : Called stick_usb
boast = record {
  retval = pos 0;
  globals = fresh 0;
  info = record zero_info { devlist = record { n_devs = pos 300; devs = zero_info.devlist.devs } };
}

boast-IsInfo : IsInfo boast.info
boast-IsInfo = IsInfo-devlist zero_info-IsInfo (omega arith) zero_info-IsInfo.devs

usb_print_device_list-overrun_example :
    (answer stick_usb
        (IrpcClient.usb_print_device_list stick_usb zero_info (print_ids_and_open stick_usb))
        boast
      ≡ fault buffer_overflow)
    ↔ (irpc_max_devs < pos_part boast.info.devlist.n_devs)
usb_print_device_list-overrun_example =
    usb_print_device_list-overrun stick_usb zero_info boast boast-IsInfo

irpc_call-OpensOrFails_example :
    (c : Called stick_usb) × (before codec stick_usb (asking (pos 64)) usb_open
      ≡ after codec stick_usb (asking (pos 64)) c)
    × OpensOrFails stick_usb memory ((c.retval, c.info.handle), c.globals)
irpc_call-OpensOrFails_example =
    irpc_call-OpensOrFails codec stick_usb stick_usb-IsTyped (asking (pos 64)) short-IsInfo
      memory-IsUninit

main_memory_example :
    run codec
      (remote stick_usb memory (fresh 0) (IrpcClient.main stick_usb zero_info))
      []
      (server_loop stick_usb (replicate 8 memory) (fresh 1) zero_info)
      []
    ≡ run codec
        (remote stick_usb other_memory (fresh 0) (IrpcClient.main stick_usb zero_info))
        []
        (server_loop stick_usb (replicate 8 other_memory) (fresh 1) zero_info)
        []
main_memory_example =
    main_memory codec stick_usb stick_usb-IsTyped zero_info zero_info-IsInfo (fresh 1) (fresh 0)
      memory other_memory (replicate 8 memory) (replicate 8 other_memory) zero_info zero_info
      (memories-IsUninit 8) (All-replicate IsUninit 8 other_memory other_memory-IsUninit) refl

search_memory_example :
    run codec
      (remote stick_usb memory (fresh 0) (FindIdevice.main stick_usb ip zero_info))
      []
      (server_loop stick_usb (replicate 9 memory) (fresh 1) zero_info)
      []
    ≡ run codec
        (remote stick_usb other_memory (fresh 0) (FindIdevice.main stick_usb ip zero_info))
        []
        (server_loop stick_usb (replicate 9 other_memory) (fresh 1) zero_info)
        []
search_memory_example =
    search_memory codec stick_usb ip stick_usb-IsTyped zero_info zero_info-IsInfo (fresh 1)
      (fresh 0) memory other_memory (replicate 9 memory) (replicate 9 other_memory) zero_info
      zero_info (memories-IsUninit 9) (All-replicate IsUninit 9 other_memory other_memory-IsUninit)
      refl
