-- ===== src/Wmi/Unicode.antt =====
-- The conversions of src/xeniface/wmi.c between UTF-8, UTF-16 and code points. A mask of low bits
-- is written `%`, a shift `/` or `*`, and the union of disjoint bits `+`; a string is the list of
-- its units, and a read behind the list is `none`.
use qubes_vmm_xen_win_pvdriv.Common.{
  List, Option, [], if◌then◌else◌, ltb, none, some, ℕ, ◌%◌, ◌*◌, ◌+◌, ◌-◌, ◌/◌, ◌==◌, ◌∷◌,
}
pub mod RoundTrip

-- The code point, and the units after the one or two that are taken.
utf32_from_utf16_pair : ℕ → List ℕ → Option (ℕ × List ℕ)
utf32_from_utf16_pair a [] = none
utf32_from_utf16_pair a (b ∷ rest) =
    some ((a % 1024 / 64 + 1) * 65536 + (a % 64 * 1024 + b % 1024), rest)

unfoldable pub utf32_from_utf16 : List ℕ → Option (ℕ × List ℕ)
unfolding utf32_from_utf16_pair
utf32_from_utf16 [] = none
utf32_from_utf16 (a ∷ rest) =
    if a / 1024 == 54 then utf32_from_utf16_pair a rest else some (a, rest)

utf32_from_utf8_2 : ℕ → List ℕ → Option (ℕ × List ℕ)
utf32_from_utf8_2 a (b ∷ rest) = some (a % 32 * 64 + b % 64, rest)
utf32_from_utf8_2 a _ = none

utf32_from_utf8_3 : ℕ → List ℕ → Option (ℕ × List ℕ)
utf32_from_utf8_3 a (b ∷ c ∷ rest) = some (a % 16 * 4096 + b % 64 * 64 + c % 64, rest)
utf32_from_utf8_3 a _ = none

utf32_from_utf8_4 : ℕ → List ℕ → Option (ℕ × List ℕ)
utf32_from_utf8_4 a (b ∷ c ∷ d ∷ rest) =
    some ((a % 8 * 4 + b % 64 / 16) * 65536 + b % 16 * 4096 + c % 64 * 64 + d % 64, rest)
utf32_from_utf8_4 a _ = none

-- The code point, and the bytes after the one to four that are taken.
unfoldable pub utf32_from_utf8 : List ℕ → Option (ℕ × List ℕ)
unfolding utf32_from_utf8_2 utf32_from_utf8_3 utf32_from_utf8_4
utf32_from_utf8 [] = none
utf32_from_utf8 (a ∷ rest) =
    if a / 128 == 0
    then some (a, rest)
    else if a / 32 == 6
    then utf32_from_utf8_2 a rest
    else if a / 16 == 14
    then utf32_from_utf8_3 a rest
    else utf32_from_utf8_4 a rest

-- Of a number below 2 ^ 21, as the two functions above yield.
unfoldable pub utf16_from_utf32 : ℕ → List ℕ
utf16_from_utf32 u =
    if ltb 0xffff u
    then (0xd800 + (u / 65536 - 1) * 64 + u % 65536 / 1024) ∷ (0xdc00 + u % 64) ∷ []
    else u ∷ []

-- A number below 2 ^ 21 meets UTF8MASK4, UTF8MASK3 or UTF8MASK2 from 2 ^ 16, 2 ^ 11 or 2 ^ 7 on.
unfoldable pub count_utf8_from_utf32 : ℕ → ℕ
count_utf8_from_utf32 u =
    if ltb 0xffff u then 4 else if ltb 0x7ff u then 3 else if ltb 0x7f u then 2 else 1

unfoldable pub count_utf16_from_utf32 : ℕ → ℕ
count_utf16_from_utf32 u = if ltb 0 (u / 65536) then 2 else 1

unfoldable pub utf8_from_utf32 : ℕ → List ℕ
utf8_from_utf32 u =
    if ltb 0xffff u
    then (0xf0 + u / 65536 % 32 / 4)
      ∷ (0x80 + u / 65536 % 4 * 16 + u / 4096 % 16)
      ∷ (0x80 + u / 64 % 64)
      ∷ (0x80 + u % 64)
      ∷ []
    else if ltb 0x7ff u
    then (0xe0 + u / 4096 % 16) ∷ (0x80 + u / 64 % 64) ∷ (0x80 + u % 64) ∷ []
    else if ltb 0x7f u
    then (0xc0 + u / 64 % 64) ∷ (0x80 + u % 64) ∷ []
    else u % 128 ∷ []
