-- ===== src/Tpl.antt =====
-- The tpl serialisation library (tpl/tpl.c) as the code uses it: format strings, typed values, and
-- the interface that stands for the library itself, which is not modelled.
pub mod Formats
pub mod Equality
use Prim.Native.String.{String, ◌++◌ as ◌<>◌}
use libirpc.Prelude.{ℕ, ◌*◌, ◌≡◌, Option, none, some, List, [], ◌∷◌, ℤ, IsInt, IsChar}
use libirpc.Types.{IrpcDevice, IrpcDeviceHandle, IrpcDeviceDescriptor}
use libirpc.Types.Bounds.{IsDevice, IsDescriptor, IsBytes, IsDevices}

-- The groups of a format string. `words n` is `i#` mapped onto memory whose bytes are read as
-- `n` integers; `chars n` and `devices n` are `c#` and `S(iiii)#` with length `n`.
pub data Field : Type 0 where
  int char : Field
  chars words devices : ℕ → Field
  device device_handle descriptor : Field

abbrev pub Format : Type 0
Format = List Field

-- The text of a group, as it stands in a format string.
unfoldable pub field_text : Field → String
field_text int = "i"
field_text char = "c"
field_text (chars n) = "c#"
field_text (words n) = "i#"
field_text (devices n) = "S(iiii)#"
field_text device = "S(iiii)"
field_text device_handle = "S($(iiii))"
field_text descriptor = "S(iiiiiiiiiiiiii)"

unfoldable pub format_text : Format → String
unfolding field_text
format_text [] = ""
format_text (f ∷ fs) = field_text f <> format_text fs

-- What the variables hold that a group is mapped to.
abbrev pub Elem : Field → Type 0
Elem int = ℤ
Elem char = ℤ
Elem (chars n) = List ℤ
Elem (words n) = List ℤ
Elem (devices n) = List IrpcDevice
Elem device = IrpcDevice
Elem device_handle = IrpcDeviceHandle
Elem descriptor = IrpcDeviceDescriptor

abbrev pub Values : Format → Type 0
Values [] = Unit
Values (f ∷ fs) = Elem f × Values fs

-- The values that variables of the mapped C types can have.
abbrev pub Fits : (f : Field) → Elem f → Type 0
Fits int x = IsInt x
Fits char x = IsChar x
Fits (chars n) xs = IsBytes n xs
Fits (words n) xs = IsBytes (4 * n) xs
Fits (devices n) ds = IsDevices n ds
Fits device d = IsDevice d
Fits device_handle h = IsDevice h.dev
Fits descriptor d = IsDescriptor d

abbrev pub FitsAll : (fs : Format) → Values fs → Type 0
FitsAll [] v = Unit
FitsAll (f ∷ fs) v = Fits f v.0 × FitsAll fs v.1

-- `dump f v` is the image that `tpl_map(f, …)`, `tpl_pack` and `tpl_dump` write for the values
-- `v`. `load f i` is what the mapped variables hold after `tpl_load` and `tpl_unpack` of the image
-- `i` under the format `f`, whether or not `tpl_load` accepted it: the code does not look at its
-- result, and after a refusal for its format `tpl_unpack` copies from the image all the same. It is
-- `none` where `tpl_unpack` has no image to copy from or reads past the end of it. The laws: an
-- image is loaded back under the format that it was written with, and what C variables hold are
-- values of their types; nothing is assumed of other formats. One read takes one whole image off a
-- socket.
pub record Tpl : Type 1 where
  pub Image : Type 0
  pub dump : (f : Format) → Values f → Image
  pub load : (f : Format) → Image → Option (Values f)
  pub load-dump : (f : Format) (v : Values f) → FitsAll f v → load f (dump f v) ≡ some v
  pub load-FitsAll : (f : Format) (i : Image) (v : Values f) → load f i ≡ some v → FitsAll f v
