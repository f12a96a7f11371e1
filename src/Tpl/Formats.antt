-- ===== src/Tpl/Formats.antt =====
-- The format strings of libirpc.c (`IRPC_*_FMT`).
use libirpc.Prelude.{◌≡◌, refl, [], ◌∷◌}
use libirpc.Types.{irpc_max_devs, irpc_max_data}
use libirpc.Tpl.{
  Format, int, char, chars, words, devices, device, device_handle, descriptor, format_text,
}

abbrev pub int_fmt : Format
int_fmt = int ∷ []

abbrev pub str_int_fmt : Format
str_int_fmt = int ∷ chars irpc_max_data ∷ []

abbrev pub str_int_int_fmt : Format
str_int_int_fmt = int ∷ int ∷ words irpc_max_data ∷ []

abbrev pub dev_fmt : Format
dev_fmt = device ∷ []

abbrev pub devlist_fmt : Format
devlist_fmt = int ∷ devices irpc_max_devs ∷ []

abbrev pub desc_fmt : Format
desc_fmt = descriptor ∷ int ∷ []

abbrev pub prid_veid_fmt : Format
prid_veid_fmt = int ∷ int ∷ []

abbrev pub dev_handle_fmt : Format
dev_handle_fmt = device_handle ∷ []

abbrev pub dev_handle_ret_fmt : Format
dev_handle_ret_fmt = device_handle ∷ int ∷ []

abbrev pub dev_handle_int_fmt : Format
dev_handle_int_fmt = dev_handle_ret_fmt

abbrev pub dev_handle_int_int_fmt : Format
dev_handle_int_int_fmt = device_handle ∷ int ∷ int ∷ []

abbrev pub ctrl_transfer_fmt : Format
ctrl_transfer_fmt = device_handle ∷ int ∷ int ∷ int ∷ int ∷ int ∷ int ∷ []

abbrev pub ctrl_str_int_int_fmt : Format
ctrl_str_int_int_fmt = int ∷ int ∷ chars irpc_max_data ∷ []

abbrev pub bulk_transfer_fmt : Format
bulk_transfer_fmt = device_handle ∷ char ∷ int ∷ int ∷ int ∷ []

abbrev pub clear_halt_fmt : Format
clear_halt_fmt = device_handle ∷ char ∷ []

abbrev pub string_desc_fmt : Format
string_desc_fmt = device_handle ∷ int ∷ int ∷ []

-- The formats, spelled as the macros spell them.
format_texts :
    (format_text int_fmt ≡ "i")
    × (format_text str_int_fmt ≡ "ic#")
    × (format_text str_int_int_fmt ≡ "iii#")
    × (format_text dev_fmt ≡ "S(iiii)")
    × (format_text devlist_fmt ≡ "iS(iiii)#")
    × (format_text desc_fmt ≡ "S(iiiiiiiiiiiiii)i")
    × (format_text prid_veid_fmt ≡ "ii")
    × (format_text dev_handle_fmt ≡ "S($(iiii))")
    × (format_text dev_handle_ret_fmt ≡ "S($(iiii))i")
    × (format_text dev_handle_int_int_fmt ≡ "S($(iiii))ii")
    × (format_text ctrl_transfer_fmt ≡ "S($(iiii))iiiiii")
    × (format_text ctrl_str_int_int_fmt ≡ "iic#")
    × (format_text bulk_transfer_fmt ≡ "S($(iiii))ciii")
    × (format_text clear_halt_fmt ≡ "S($(iiii))c")
    × (format_text string_desc_fmt ≡ "S($(iiii))ii")
unfolding format_text
format_texts =
    (refl, refl, refl, refl, refl, refl, refl, refl, refl, refl, refl, refl, refl, refl, refl)
