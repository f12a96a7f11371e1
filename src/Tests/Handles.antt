-- ===== src/Tests/Handles.antt =====
-- The theorems on open handles, applied to a concrete client that opens the second device.
use libirpc.Prelude.{to_int, to_unsigned, ℕ, ◌≡◌, refl, ◌∙◌, none, some, [], ◌∷◌, pos, replicate}
use libirpc.Types.Zero.{zero_info, zero_info-IsInfo}
use libirpc.Proc.Run.{finished}
use libirpc.Rpc.Base.{Globals, zero_or_failure}
use libirpc.Rpc.Devices.{find_device, reflect_device, describe, build_descriptor}
use libirpc.Rpc.Open.{open_found}
use libirpc.Local.{local_call}
use libirpc.Local.Table.{device_table}
use libirpc.Session.{local}
use libirpc.IrpcClient
use libirpc.IrpcClient.Ready.{main-local}
use libirpc.IrpcClient.Closes.{IsFree, main-IsFree}
use libirpc.Tests.Codec.{codec}
use libirpc.Tests.Devices.{Stick, hub, phone, stick_usb, stick_usb-IsTyped}
use libirpc.Tests.Host.{memory, memories-IsUninit, fresh}

-- irpc_client.c among the eight devices: it describes, opens and closes the phone.
abbrev seen : ℕ → Stick → IrpcClient.Line
seen i d = IrpcClient.device i (reflect_device stick_usb d)

abbrev listing : IrpcClient.Report
listing = record {
  retval = pos 0;
  lines =
      IrpcClient.n_devs (pos 8)
      ∷ seen 0 hub
      ∷ seen 1 hub
      ∷ seen 2 hub
      ∷ seen 3 hub
      ∷ seen 4 hub
      ∷ seen 5 hub
      ∷ seen 6 hub
      ∷ seen 7 phone
      ∷ IrpcClient.ids (pos 0x05AC) (pos 0x1281)
      ∷ [];
}

abbrev after_listing : Globals stick_usb
after_listing = record { irpc_ctx = some tt; irpc_handle = none; usb = (0, 0) }

local-listing :
    local stick_usb (replicate 8 memory) (fresh 1) (fresh 0) (IrpcClient.main stick_usb zero_info)
    ≡ finished listing after_listing
unfolding local local_call IrpcClient.main device_table zero_info describe find_device
    reflect_device build_descriptor open_found IrpcClient.device_lines to_int to_unsigned
    zero_or_failure
local-listing = refl

main-IsFree_example : IsFree stick_usb after_listing
main-IsFree_example =
    main-IsFree codec stick_usb stick_usb-IsTyped memory zero_info zero_info zero_info-IsInfo
      (replicate 8 memory) (fresh 1) (fresh 0) (memories-IsUninit 8) listing after_listing refl
      (main-local codec stick_usb stick_usb-IsTyped memory zero_info zero_info zero_info-IsInfo
          (replicate 8 memory) (fresh 1) (fresh 0) (memories-IsUninit 8)
        ∙ local-listing)
