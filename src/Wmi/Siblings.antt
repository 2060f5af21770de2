-- ===== src/Wmi/Siblings.antt =====
-- SessionExecuteGetNextSibling of src/xeniface/wmi.c: the path is split at its last '/', and the
-- directory of its parent searched for the name behind its leaf.
use qubes_vmm_xen_win_pvdriv.Common.{
  Bool, List, Option, [], drop, false, if◌then◌else◌, length, ltb, none, some, suc, take, true,
  zero, ℕ, ◌+◌, ◌==◌, ◌∷◌,
}
use qubes_vmm_xen_win_pvdriv.Store.Strings.{c_string}
pub mod Order

-- A byte of the path, with the NUL behind it.
unfoldable pub byte_at : List ℕ → ℕ → ℕ
byte_at [] n = 0
byte_at (c ∷ cs) zero = c
byte_at (c ∷ cs) (suc n) = byte_at cs n

-- `while ((leafoffset!=0) && (path->Buffer[leafoffset] != '/'))`
unfoldable pub leaf_loop : List ℕ → (leafoffset : ℕ) → ℕ
unfolding byte_at
leaf_loop path zero = zero
leaf_loop path (suc n) =
    let rest = leaf_loop path n in if byte_at path (suc n) == b'/' then suc n else rest

unfoldable pub leaf_offset : List ℕ → ℕ
leaf_offset path = if ltb 1 (length path) then leaf_loop path (length path) else 0

-- tmppath and tmpleaf, as bytes before their NULs.
unfoldable pub split_path : List ℕ → List ℕ × List ℕ
unfolding byte_at
split_path path =
    if ltb 0 (leaf_offset path)
    then (take (leaf_offset path) path, drop (leaf_offset path + 1) path)
    else if byte_at path 0 == b'/'
    then (b'/' ∷ [], drop 1 path)
    else ([], path)

-- The first loop: the memory from the name that `equal` accepts, or from the end of the list, on.
-- `none` is a read behind the memory.
unfoldable pub leaf_search : (equal : List ℕ → Bool) → (at_start : Bool) → List ℕ → Option (List ℕ)
unfolding c_string
leaf_search equal at_start [] = none
leaf_search equal true (zero ∷ cs) = some (zero ∷ cs)
leaf_search equal true (suc c ∷ cs) =
    let rest = leaf_search equal false cs in
    if equal (c_string (suc c ∷ cs)) then some (suc c ∷ cs) else rest
leaf_search equal false (zero ∷ cs) = leaf_search equal true cs
leaf_search equal false (suc c ∷ cs) = leaf_search equal false cs

-- The second loop, and the step over the NUL.
unfoldable pub behind_name : List ℕ → Option (List ℕ)
behind_name [] = none
behind_name (zero ∷ cs) = some cs
behind_name (suc c ∷ cs) = behind_name cs

-- attemptstring: no name, or the one that stands there.
unfoldable pub attempt : List ℕ → Option (Option (List ℕ))
unfolding c_string
attempt [] = none
attempt (zero ∷ cs) = some none
attempt (suc c ∷ cs) = some (some (c_string (suc c ∷ cs)))

unfoldable pub attempt_behind : Option (List ℕ) → Option (Option (List ℕ))
unfolding attempt
attempt_behind none = none
attempt_behind (some rest) = attempt rest

unfoldable pub after_leaf : Option (List ℕ) → Option (Option (List ℕ))
after_leaf none = none
after_leaf (some cs) = attempt_behind (behind_name cs)

-- `equal` compares a name with the leaf: RtlEqualString, whatever the case of the letters.
unfoldable pub next_sibling :
    (equal : List ℕ → Bool) → (listresults : List ℕ) → Option (Option (List ℕ))
next_sibling equal listresults = after_leaf (leaf_search equal true listresults)
