-- ===== src/Tests/Codec.antt =====
-- A concrete tpl (tpl/tpl.c stays a parameter of the model): an image is a format with its values,
-- and a load under another format, or of values that no C variable of the format holds, is refused.
use mathlib.Core.HLevel.{hedberg}
use mathlib.Core.Path.{subst_refl}
use mathlib.Core.Option.{some-injective}
use native.Mathlib.Decide.{ℕ_discrete}
use libirpc.Prelude.{
  ℕ, ◌≤◌, ◌<◌, ◌≡◌, ◌≢◌, refl, sym, ap, ◌∙◌, subst, inl, inr, Option, none, some, List, [], ◌∷◌, ℤ,
  IsInt, IsChar, pos_part, neg_part, ltb, leb, ltb→lt, leb→le, Bool-cases, length, All, arith,
}
use libirpc.Types.{IrpcDevice, IrpcDeviceDescriptor}
use libirpc.Types.Bounds.{IsDevice, IsDescriptor, IsBytes, IsDevices}
use libirpc.Tpl.Equality.{Refuses}
use libirpc.Tpl.{
  Field, Format, Elem, Values, Fits, FitsAll, Tpl, int, char, chars, words, devices, device,
  device_handle, descriptor,
}

Field-discrete : Discrete Field
Field-discrete = hlevel ℕ_discrete

pub Format-discrete : Discrete Format
Format-discrete = hlevel Field-discrete

dec_lt : (a b : ℕ) → Dec (a < b)
dec_lt a b = elim (Bool-cases (ltb a b)) [ inl h ↦ yes (ltb→lt a b h) | inr h ↦ no (ground arith) ]

dec_le : (a b : ℕ) → Dec (a ≤ b)
dec_le a b = elim (Bool-cases (leb a b)) [ inl h ↦ yes (leb→le a b h) | inr h ↦ no (ground arith) ]

-- Both parts of a conjunction, packed as a proposition of its own.
dec_both {ℓ κ μ} :
    {A : Type ℓ} {B : Type κ} {C : Type μ} → (A → B → C) → (C → A) → (C → B) → Dec A → Dec B → Dec C
dec_both pack left right (yes a) (yes b) = yes (pack a b)
dec_both pack left right (yes a) (no b) = no (λ c. b (right c))
dec_both pack left right (no a) b = no (λ c. a (left c))

dec_int : (x : ℤ) → Dec (IsInt x)
dec_int x =
    dec_both (λ a b. (a, b)) (λ c. c.0) (λ c. c.1) (dec_lt (pos_part x) _) (dec_le (neg_part x) _)

dec_char : (x : ℤ) → Dec (IsChar x)
dec_char x =
    dec_both (λ a b. (a, b)) (λ c. c.0) (λ c. c.1) (dec_lt (pos_part x) _) (dec_le (neg_part x) _)

dec_All {ℓ κ} :
    {A : Type ℓ} (P : A → Type κ) → ((a : A) → Dec (P a)) → (xs : List A) → Dec (All P xs)
dec_All P d [] = yes tt
dec_All P d (x ∷ xs) = dec_both (λ a b. (a, b)) (λ c. c.0) (λ c. c.1) (d x) (dec_All P d xs)

dec_ints : (xs : List ℤ) → Dec (All IsInt xs)
dec_ints xs = dec_All IsInt dec_int xs

dec_two {ℓ} :
    {C : Type ℓ} (xs ys : List ℤ)
    → (All IsInt xs → All IsInt ys → C)
    → (C → All IsInt xs)
    → (C → All IsInt ys)
    → Dec C
dec_two xs ys pack left right = dec_both pack left right (dec_ints xs) (dec_ints ys)

dec_device : (d : IrpcDevice) → Dec (IsDevice d)
dec_device d =
    dec_two (d.bus_number ∷ d.device_address ∷ []) (d.num_configurations ∷ d.session_data ∷ [])
      (λ a b. omega arith) (λ c. omega arith) (λ c. omega arith)

dec_descriptor : (d : IrpcDeviceDescriptor) → Dec (IsDescriptor d)
dec_descriptor d =
    dec_two
      (d.b_length ∷ d.b_descriptor_type ∷ d.bcd_usb ∷ d.b_device_class ∷ d.b_device_sub_class
        ∷ d.b_device_protocol ∷ d.b_max_packet_size0 ∷ [])
      (d.id_vendor ∷ d.id_product ∷ d.bcd_device ∷ d.i_manufacturer ∷ d.i_product
        ∷ d.i_serial_number ∷ d.b_num_configurations ∷ [])
      (λ a b. omega arith) (λ c. omega arith) (λ c. omega arith)

dec_bytes : (n : ℕ) (xs : List ℤ) → Dec (IsBytes n xs)
dec_bytes n xs =
    dec_both (λ a b. record { size = a; chars = b }) (λ c. c.size) (λ c. c.chars)
      (ℕ_discrete (length xs) n) (dec_All IsChar dec_char xs)

dec_devices : (n : ℕ) (ds : List IrpcDevice) → Dec (IsDevices n ds)
dec_devices n ds =
    dec_both (λ a b. record { size = a; each = b }) (λ c. c.size) (λ c. c.each)
      (ℕ_discrete (length ds) n) (dec_All IsDevice dec_device ds)

dec_Fits : (f : Field) (x : Elem f) → Dec (Fits f x)
dec_Fits int x = dec_int x
dec_Fits char x = dec_char x
dec_Fits (chars n) xs = dec_bytes n xs
dec_Fits (words n) xs = dec_bytes _ xs
dec_Fits (devices n) ds = dec_devices n ds
dec_Fits device d = dec_device d
dec_Fits device_handle h = dec_device h.dev
dec_Fits descriptor d = dec_descriptor d

dec_FitsAll : (fs : Format) (v : Values fs) → Dec (FitsAll fs v)
dec_FitsAll [] v = yes tt
dec_FitsAll (f ∷ fs) v =
    dec_both (λ a b. (a, b)) (λ c. c.0) (λ c. c.1) (dec_Fits f v.0) (dec_FitsAll fs v.1)

-- An image.
pub record Packet : Type 0 where
  pub format : Format
  pub values : Values format

checked : (f : Format) (v : Values f) → Dec (FitsAll f v) → Option (Values f)
checked f v (yes h) = some v
checked f v (no h) = none

pub read_as : (f g : Format) → Values g → Dec (g ≡ f) → Option (Values f)
unfolding checked
read_as f g v (yes e) = checked f (subst Values e v) (dec_FitsAll f _)
read_as f g v (no e) = none

checked-yes :
    (f : Format) (v : Values f) (d : Dec (FitsAll f v)) → FitsAll f v → checked f v d ≡ some v
unfolding checked
checked-yes f v (yes h) fits = refl
checked-yes f v (no h) fits = absurd (h fits)

checked-FitsAll :
    (f : Format) (v w : Values f) (d : Dec (FitsAll f v)) → checked f v d ≡ some w → FitsAll f w
unfolding checked
checked-FitsAll f v w (yes h) e = subst (FitsAll f) (some-injective v w e) h
checked-FitsAll f v w (no h) e = absurd (cc)

-- A path from a format to itself moves nothing.
move_here : (f : Format) (v : Values f) (e : f ≡ f) → subst Values e v ≡ v
move_here f v e =
    ap (λ p. subst Values p v) (hedberg Format-discrete f f e refl) ∙ subst_refl Values v

pub read_as-same :
    (f : Format) (v : Values f) (d : Dec (f ≡ f)) → FitsAll f v → read_as f f v d ≡ some v
unfolding read_as
read_as-same f v (yes e) fits = rw (move_here f v e) (checked-yes f v (dec_FitsAll f v) fits)
read_as-same f v (no ne) fits = absurd (ne refl)

pub read_as-other : (f g : Format) (v : Values g) (d : Dec (g ≡ f)) → f ≢ g → read_as f g v d ≡ none
unfolding read_as
read_as-other f g v (yes e) ne = absurd (ne (sym e))
read_as-other f g v (no e) ne = refl

pub read_as-FitsAll :
    (f g : Format) (v : Values g) (w : Values f) (d : Dec (g ≡ f))
    → read_as f g v d ≡ some w
    → FitsAll f w
unfolding read_as
read_as-FitsAll f g v w (yes e) h = checked-FitsAll f _ w _ h
read_as-FitsAll f g v w (no e) h = absurd (cc)

abbrev pub codec : Tpl
codec = record {
  Image = Packet;
  dump = λ f v. record { format = f; values = v };
  load = λ f p. read_as f p.format p.values (Format-discrete p.format f);
  load-dump = λ f v fits. read_as-same f v (Format-discrete f f) fits;
  load-FitsAll = λ f p w e. read_as-FitsAll f p.format p.values w _ e;
}

pub codec-Refuses : Refuses codec
codec-Refuses f g v ne = read_as-other f g v (Format-discrete g f) ne
