-- ===== src/Tests/Host.antt =====
-- A server and a client process with concrete memory, and infos for concrete calls.
use Prim.Native.String.{String}
use libirpc.Prelude.{
  ℕ, none, some, [], ◌∷◌, ℤ, pos, negsuc, IsChar, All, replicate, length-replicate, All-replicate,
  arith,
}
use libirpc.Types.{IrpcInfo, irpc_max_data}
use libirpc.Types.Bounds.{zero_device, IsBytes, IsInfo}
use libirpc.Types.Updates.{IsInfo-length}
use libirpc.Types.Zero.{zero_info, zero_info-IsInfo}
use libirpc.Proc.{done}
use libirpc.Rpc.Base.{Globals, Uninit, IsUninit, Called}
use libirpc.Remote.Setup.{Setting}
use libirpc.Tests.Devices.{stick_usb, phone}

-- The address of the server.
abbrev pub ip : String
ip = "127.0.0.1"

abbrev pub memory : Uninit
memory = record {
  handle = record { dev = zero_device };
  buffer = replicate irpc_max_data (pos 1);
  beyond = replicate 3072 (negsuc 1);
}

replicate-IsBytes : (n : ℕ) (x : ℤ) → IsChar x → IsBytes n (replicate n x)
replicate-IsBytes n x h = record { size = length-replicate n x; chars = All-replicate IsChar n x h }

pub memory-IsUninit : IsUninit memory
memory-IsUninit = record {
  handle = omega arith;
  buffer = replicate-IsBytes irpc_max_data (pos 1) (omega arith);
  beyond = replicate-IsBytes 3072 (negsuc 1) (omega arith);
}

-- Memory with other bytes.
abbrev pub other_memory : Uninit
other_memory = record {
  handle = record { dev = record zero_device { bus_number = pos 7 } };
  buffer = replicate irpc_max_data (pos 9);
  beyond = replicate 3072 (pos 9);
}

pub other_memory-IsUninit : IsUninit other_memory
other_memory-IsUninit = record {
  handle = omega arith;
  buffer = replicate-IsBytes irpc_max_data (pos 9) (omega arith);
  beyond = replicate-IsBytes 3072 (pos 9) (omega arith);
}

pub memories-IsUninit : (n : ℕ) → All IsUninit (replicate n memory)
memories-IsUninit n = All-replicate IsUninit n memory memory-IsUninit

-- Globals at the start, with `n` initialisations that succeed.
abbrev pub fresh : ℕ → Globals stick_usb
fresh n = record { irpc_ctx = none; irpc_handle = none; usb = (n, 0) }

abbrev pub opened_phone : Globals stick_usb
opened_phone = record { irpc_ctx = some tt; irpc_handle = some phone; usb = (0, 1) }

-- A transfer of `n` bytes.
abbrev pub ask : ℤ → IrpcInfo
ask n = record zero_info { length = n }

pub short-IsInfo : IsInfo (ask (pos 64))
short-IsInfo = IsInfo-length zero_info-IsInfo (omega arith)

pub long-IsInfo : IsInfo (ask (pos 2000))
long-IsInfo = IsInfo-length zero_info-IsInfo (omega arith)

-- The client asks for `n` bytes and returns what its call leaves behind.
abbrev pub asking : ℤ → Setting stick_usb (Called stick_usb)
asking n = record {
  k = λ c. done c;
  client_memory = memory;
  memory = memory;
  later_memory = memory ∷ [];
  client = fresh 0;
  server = opened_phone;
  info = ask n;
  server_info = zero_info;
}
