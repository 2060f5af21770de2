-- ===== src/Examples/Values.antt =====
-- Runs of the search of GetNextSibling of src/xeniface/wmi.c.
use qubes_vmm_xen_win_pvdriv.Common.{
  Bool, List, [], arith, false, if◌then◌else◌, none, refl, some, ℕ, ◌==◌, ◌∷◌, ◌≡◌,
}
use qubes_vmm_xen_win_pvdriv.Store.Strings.Laws.{encode}
use qubes_vmm_xen_win_pvdriv.Wmi.Unicode.{utf32_from_utf16}
use qubes_vmm_xen_win_pvdriv.Wmi.Buffer.{access_field, access_loop, access_wmi_buffer}
use qubes_vmm_xen_win_pvdriv.Wmi.Text.Conversion.{Decodes, code_point, end_of_string}
use qubes_vmm_xen_win_pvdriv.Wmi.Methods.{InBuffer, units}
use qubes_vmm_xen_win_pvdriv.Wmi.Values.{counted_units, two_strings}
use qubes_vmm_xen_win_pvdriv.Wmi.Siblings.{next_sibling}
use qubes_vmm_xen_win_pvdriv.Wmi.Siblings.Order.{next_sibling_lem, next_sibling_overruns}

-- A request with the path "s" and the value "s".
abbrev pair : InBuffer
pair = record {
  address = 64;
  size = 8;
  word = λ a. if a == 64 then 2 else if a == 68 then 2 else b's';
}

pair_strings : two_strings pair ≡ some (64, 68)
unfolding two_strings access_wmi_buffer access_loop access_field
pair_strings = refl

decodes_s : utf32_from_utf16 (b's' ∷ []) ≡ some (b's', [])
unfolding utf32_from_utf16
decodes_s = refl

pair-Decodes : Decodes (counted_units pair 64) (b's' ∷ [])
unfolding units
pair-Decodes = code_point decodes_s end_of_string

value-Decodes : Decodes (counted_units pair 68) (b's' ∷ [])
unfolding units
value-Decodes = code_point decodes_s end_of_string

-- The names "a", "b" and "c".
abbrev is_b : List ℕ → Bool
is_b (c ∷ []) = c == b'b'
is_b _ = false

next_sibling_example :
    next_sibling is_b (encode ((b'a' ∷ []) ∷ (b'b' ∷ []) ∷ (b'c' ∷ []) ∷ []))
    ≡ some (some (b'c' ∷ []))
next_sibling_example =
    next_sibling_lem is_b ((b'a' ∷ []) ∷ []) (b'b' ∷ []) ((b'c' ∷ []) ∷ [])
      (
        (omega arith, (omega arith, tt)),
        ((omega arith, (omega arith, tt)), ((omega arith, (omega arith, tt)), tt)),
      )
      (refl, tt) refl

next_sibling_overruns_example : next_sibling is_b (encode ((b'a' ∷ []) ∷ [])) ≡ none
next_sibling_overruns_example =
    next_sibling_overruns is_b ((b'a' ∷ []) ∷ []) ((omega arith, (omega arith, tt)), tt) (refl, tt)
