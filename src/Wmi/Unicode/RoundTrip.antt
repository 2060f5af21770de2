-- ===== src/Wmi/Unicode/RoundTrip.antt =====
-- What the conversions of src/xeniface/wmi.c keep of a code point.
use qubes_vmm_xen_win_pvdriv.Common.{
  List, arith, length, some, ℕ, ◌%◌, ◌++◌, ◌/◌, ◌<◌, ◌≡◌, ltb, if◌then◌else◌, ◌-◌, ◌*◌,
}
use qubes_vmm_xen_win_pvdriv.Wmi.Unicode.{
  count_utf16_from_utf32, count_utf8_from_utf32, utf16_from_utf32, utf32_from_utf16,
  utf32_from_utf8, utf8_from_utf32,
}

pub length-utf8_from_utf32 : (u : ℕ) → length (utf8_from_utf32 u) ≡ count_utf8_from_utf32 u
unfolding utf8_from_utf32 count_utf8_from_utf32
length-utf8_from_utf32 u = ground arith

pub length-utf16_from_utf32 : (u : ℕ) → length (utf16_from_utf32 u) ≡ count_utf16_from_utf32 u
unfolding utf16_from_utf32 count_utf16_from_utf32
length-utf16_from_utf32 u = ground arith

-- Utf32FromUtf8 takes back from the front of a string the code point, below 2 ^ 21, that
-- Utf8FromUtf32 has written there.
pub utf8_round_trip :
    (u : ℕ) (rest : List ℕ)
    → u < 0x20_0000
    → utf32_from_utf8 (utf8_from_utf32 u ++ rest) ≡ some (u, rest)
unfolding utf8_from_utf32 utf32_from_utf8
utf8_round_trip u rest h = ground arith

-- What is left of a code point: above the Basic Multilingual Plane, bits 6 to 9 are lost.
abbrev pub kept : ℕ → ℕ
kept u = if ltb 0xffff u then u - u % 1024 / 64 * 64 else u

-- What Utf16FromUtf32 makes of a code point, other than a high surrogate, is read back by
-- Utf32FromUtf16 without the bits 6 to 9 if it is above 0xffff, and as it was if not.
pub utf16_loss :
    (u : ℕ) (rest : List ℕ)
    → u < 0x11_0000
    → ((u / 1024 ≡ 54) → ⊥)
    → utf32_from_utf16 (utf16_from_utf32 u ++ rest) ≡ some (kept u, rest)
unfolding utf16_from_utf32 utf32_from_utf16
utf16_loss u rest h scalar = ground arith
