-- ===== src/Ansi.antt =====
-- The byte strings of src/xeniface/util.h, and the ANSI_STRINGs that __FdoMultiSzToUpcaseAnsi of
-- src/xeniface/fdo.c makes of a multi-string.
use qubes_vmm_xen_win_pvdriv.Common.{
  Bool, List, Option, [], false, if◌then◌else◌, leb, length, ltb, none, reverse, some, suc, true,
  zero, ℕ, ◌%◌, ◌&&◌, ◌*◌, ◌++◌, ◌+◌, ◌-◌, ◌==◌, ◌^◌, ◌||◌, ◌∷◌,
}
use qubes_vmm_xen_win_pvdriv.Machine.{
  Cmd, Kernel, acquire, asked, free, history, pool, pure, record_event, undefined, ◌>>=◌, ◌>>◌,
}

abbrev pub isalnum : ℕ → Bool
isalnum c = leb b'0' c && leb c b'9' || leb b'A' c && leb c b'Z' || leb b'a' c && leb c b'z'

-- __toupper and __tolower of src/xeniface/util.h.
abbrev pub toupper : ℕ → ℕ
toupper c = if leb b'a' c && leb c b'z' then c - 32 else c

abbrev pub tolower : ℕ → ℕ
tolower c = if leb b'A' c && leb c b'Z' then c + 32 else c

-- __strtok_r of src/xeniface/util.h with the delimiter " ": the token, and where it goes on.
unfoldable pub token : List ℕ → List ℕ × List ℕ
token [] = ([], [])
token (c ∷ cs) =
    let rest : List ℕ × List ℕ = token cs in if c == b' ' then ([], cs) else (c ∷ rest.0, rest.1)

unfoldable pub strtok_r : List ℕ → Option (List ℕ × List ℕ)
unfolding token
strtok_r [] = none
strtok_r (c ∷ cs) =
    let rest : Option (List ℕ × List ℕ) = strtok_r cs in
    if c == b' ' then rest else some (token (c ∷ cs))

-- `_stricmp(...) == 0`
unfoldable pub stricmp_equal : List ℕ → List ℕ → Bool
stricmp_equal [] [] = true
stricmp_equal (c ∷ cs) (d ∷ ds) = tolower c == tolower d && stricmp_equal cs ds
stricmp_equal _ _ = false

unfoldable pub prepended : List ℕ → Option (List (List ℕ)) → Option (List (List ℕ))
prepended s none = none
prepended s (some l) = some (s ∷ l)

-- The strings of the buffer in upper case, up to a double NUL; `none` is a read behind it.
unfoldable pub upcase_strings : (current : List ℕ) → List ℕ → Option (List (List ℕ))
unfolding prepended
upcase_strings current [] = none
upcase_strings current (suc c ∷ cs) = upcase_strings (current ++ toupper (suc c) ∷ []) cs
upcase_strings current (zero ∷ []) = none
upcase_strings current (zero ∷ zero ∷ cs) = some (current ∷ [])
upcase_strings current (zero ∷ suc c ∷ cs) = prepended current (upcase_strings [] (suc c ∷ cs))

-- An ANSI_STRING: its Buffer, and the bytes there.
abbrev pub AnsiString : Type 0
AnsiString = ℕ × List ℕ

-- Frees the buffers, the last one first.
unfoldable pub free_reversed : List AnsiString → Cmd (Unit {0})
free_reversed [] = pure tt
free_reversed (s ∷ ss) = free s.0 >> free_reversed ss

-- The allocation and the copy of one string, or NULL. A Length that is no USHORT makes the copy
-- longer than its block.
unfoldable pub copy_string : Kernel → List ℕ → Cmd (Option ℕ)
copy_string k s = do
  t ← history
  elim (k.allocate_pool t ((length s + 1) % 2 ^ 16)) [
    | none ↦ do record_event asked; pure none
    | some p ↦ do
      record_event (acquire (pool p))
      if ltb (length s + 1) (2 ^ 16) then pure (some p) else (λ _. undefined)
  ]

-- The second loop of __FdoMultiSzToUpcaseAnsi; `made` has the strings so far, the last one first.
unfoldable pub copy_strings :
    Kernel → (made : List AnsiString) → List (List ℕ) → Cmd (Option (List AnsiString))
unfolding free_reversed copy_string
copy_strings k made [] = pure (some (reverse made))
copy_strings k made (s ∷ ss) = do
  r ← copy_string k s
  elim r [ none ↦ do free_reversed made; pure none | some p ↦ copy_strings k ((p, s) ∷ made) ss ]

-- __FdoMultiSzToUpcaseAnsi: the array and its strings, or NULL.
unfoldable pub fdo_multi_sz_to_upcase_ansi : Kernel → List ℕ → Cmd (Option (ℕ × List AnsiString))
unfolding upcase_strings copy_strings
fdo_multi_sz_to_upcase_ansi k memory = elim (upcase_strings [] memory) [
  | none ↦ λ _. undefined
  | some names ↦ do
    t ← history
    elim (k.allocate_pool t (16 * (length names + 1))) [
      | none ↦ do record_event asked; pure none
      | some array ↦ do
        record_event (acquire (pool array))
        l ← copy_strings k [] names
        elim l [ none ↦ do free array; pure none | some strings ↦ pure (some (array, strings)) ]
    ]
]

-- __FdoFreeAnsi.
unfoldable pub fdo_free_ansi : (array : ℕ) → List AnsiString → Cmd (Unit {0})
fdo_free_ansi array [] = free array
fdo_free_ansi array (s ∷ ss) = free s.0 >> fdo_free_ansi array ss
