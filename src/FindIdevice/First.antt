-- ===== src/FindIdevice/First.antt =====
-- The search of irpc_find_idevice.c as a function of what the devices answer, without a network.
use Prim.Native.String.{String}
use libirpc.Prelude.{
  ℕ, Bool, leb, ◌==◌, ◌||◌, ◌&&◌, Option, none, some, List, [], ◌∷◌, pos, if◌then◌else◌,
}
use libirpc.Usb.{LibusbDeviceDescriptor}
use libirpc.FindIdevice.{Line, not_found, found, looking, Report}

-- The ids by which an Apple device in recovery or DFU mode is known: Apple's vendor id, and a
-- product id from 0x1280 to 0x1283, the four recovery modes, or 0x1227, DFU mode.
abbrev pub known : ℕ → ℕ → Bool
known v p = (v == 0x05AC) && (leb 0x1280 p && leb p 0x1283 || (p == 0x1227))

-- The tests on one answer, before the search of the others.
abbrev pub first_of : Option LibusbDeviceDescriptor → List Line → List Line
first_of none lines = []
first_of (some x) lines =
    if known x.id_vendor x.id_product
    then found (pos x.id_vendor) (pos x.id_product) ∷ []
    else lines

-- The search without a network, over the answers themselves.
abbrev pub first_found : List (Option LibusbDeviceDescriptor) → List Line
first_found [] = not_found ∷ []
first_found (a ∷ answers) = first_of a (first_found answers)

abbrev pub reported : String → List Line → Report
reported ip lines = record { retval = pos 0; lines = looking ip ∷ lines }
