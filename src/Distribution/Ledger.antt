-- ===== src/Distribution/Ledger.antt =====
-- FdoClearDistribution gives back every buffer of the store and every block of pool memory.
use qubes_vmm_xen_win_pvdriv.Ansi.{
  upcase_strings, AnsiString, free_reversed, copy_string, copy_strings, fdo_multi_sz_to_upcase_ansi,
  fdo_free_ansi,
}
use qubes_vmm_xen_win_pvdriv.Common.{
  All, List, Option, Option-cases, [], ap, arith, inl, inr, length, none, refl, reverse, some,
  total, total-append, ℕ, ◌+◌, ◌<◌, ◌^◌, ◌∷◌, ◌≡◌,
}
use qubes_vmm_xen_win_pvdriv.Machine.{
  Changes, Goes, Goes-bind, Kernel, Machine, Resource, Trace, acquire, one, pool, store_value,
}
use qubes_vmm_xen_win_pvdriv.Distribution.{
  Build, clear_loop, clear_one, distributions, drivers, fdo_clear_distribution,
}
use mathlib.Core.List.{reverse-cons}

-- The names of a directory fit an ANSI_STRING, and a double NUL ends them.
abbrev pub Fits : Option (List (List ℕ)) → Type 0
Fits none = ⊥
Fits (some l) = All (λ s. length s + 1 < 2 ^ 16) l

pub record DirectoriesFit (k : Kernel) : Type 0 where
  pub fits : (t : Trace) (path : List ℕ) → Fits (upcase_strings [] (k.store_directory t path).out.1)

-- What a list of strings holds of a resource.
abbrev pub owned_strings : Resource → List AnsiString → ℕ
owned_strings r = total λ s. one r (pool s.0)

owned_strings-reverse :
    (r : Resource) (l : List AnsiString) → owned_strings r (reverse l) ≡ owned_strings r l
owned_strings-reverse r [] = refl
owned_strings-reverse r (s ∷ ss) = omega (
  arith,
  ap (owned_strings r) (reverse-cons s ss),
  total-append (λ s'. one r (pool s'.0)) (reverse ss) (s ∷ []),
  owned_strings-reverse r ss,
)

free_reversed-Changes :
    (r : Resource) (l : List AnsiString) (m : Machine)
    → Goes (λ _ n. Changes r 0 (owned_strings r l) m n) (λ _ _. ⊥) (free_reversed l m)
unfolding free_reversed
free_reversed-Changes r [] m = ground arith
free_reversed-Changes r (s ∷ ss) m = grind (arith, free_reversed-Changes r ss)

free_ansi-Changes :
    (r : Resource) (array : ℕ) (l : List AnsiString) (m : Machine)
    → Goes
        (λ _ n. Changes r 0 (one r (pool array) + owned_strings r l) m n)
        (λ _ _. ⊥)
        (fdo_free_ansi array l m)
unfolding fdo_free_ansi
free_ansi-Changes r array [] m = ground arith
free_ansi-Changes r array (s ∷ ss) m = grind (arith, free_ansi-Changes r array ss)

-- What the strings that a function returns hold.
abbrev pub copied : Resource → Option (List AnsiString) → ℕ
copied r none = 0
copied r (some l) = owned_strings r l

abbrev pub block_owned : Resource → Option ℕ → ℕ
block_owned r none = 0
block_owned r (some p) = one r (pool p)

copy_string-Changes :
    (r : Resource) (k : Kernel) (s : List ℕ) (m : Machine)
    → length s + 1 < 2 ^ 16
    → Goes (λ o n. Changes r (block_owned r o) 0 m n) (λ _ _. ⊥) (copy_string k s m)
unfolding copy_string
copy_string-Changes r k s m h = grind (arith, h)

copy_strings-Changes :
    (r : Resource) (k : Kernel) (made : List AnsiString) (names : List (List ℕ)) (m : Machine)
    → All (λ s. length s + 1 < 2 ^ 16) names
    → Goes
        (λ o n. Changes r (copied r o) (owned_strings r made) m n)
        (λ _ _. ⊥)
        (copy_strings k made names m)
unfolding copy_strings
copy_strings-Changes r k made [] m h = ground (arith, owned_strings-reverse r made)
copy_strings-Changes r k made (s ∷ ss) m h =
    Goes-bind (λ o n. Changes r (block_owned r o) 0 m n) (λ _ _. ⊥) (λ _ _. ⊥)
      (λ o n. Changes r (copied r o) (owned_strings r made) m n) (copy_string k s m) _
      (copy_string-Changes r k s m h.0) (λ _ _ e. e)
      (λ o n c. elim (Option-cases o) [
        | inl e ↦ grind (arith, c, e, free_reversed-Changes r made n)
        | inr (p, e) ↦ grind (arith, c, e, copy_strings-Changes r k ((p, s) ∷ made) ss n h.1)
      ])

-- What the array and its strings hold.
abbrev pub array_owned : Resource → Option (ℕ × List AnsiString) → ℕ
array_owned r none = 0
array_owned r (some d) = one r (pool d.0) + owned_strings r d.1

upcase_ansi-Changes :
    (r : Resource) (k : Kernel) (memory : List ℕ) (m : Machine)
    → Fits (upcase_strings [] memory)
    → Goes
        (λ o n. Changes r (array_owned r o) 0 m n)
        (λ _ _. ⊥)
        (fdo_multi_sz_to_upcase_ansi k memory m)
unfolding fdo_multi_sz_to_upcase_ansi
upcase_ansi-Changes r k memory m h = grind (arith, h, copy_strings-Changes r k [])

distributions-Changes :
    (r : Resource) (k : Kernel) (m : Machine)
    → DirectoriesFit k
    → Goes (λ o n. Changes r (array_owned r o) 0 m n) (λ _ _. ⊥) (distributions k m)
unfolding distributions
distributions-Changes r k m h = grind (
  arith,
  upcase_ansi-Changes r k (k.store_directory m.trace drivers).out.1
      (record m {
        trace = acquire (store_value (k.store_directory m.trace drivers).out.0) ∷ m.trace;
      })
      (h.fits m.trace drivers),
)

clear_one-Changes :
    (r : Resource) (k : Kernel) (b : Build) (name : List ℕ) (m : Machine)
    → Goes (λ _ n. Changes r 0 0 m n) (λ _ _. ⊥) (clear_one k b name m)
unfolding clear_one
clear_one-Changes r k b name m = ground arith

clear_loop-Changes :
    (r : Resource) (k : Kernel) (b : Build) (l : List AnsiString) (m : Machine)
    → Goes (λ _ n. Changes r 0 0 m n) (λ _ _. ⊥) (clear_loop k b l m)
unfolding clear_loop
clear_loop-Changes r k b [] m = ground arith
clear_loop-Changes r k b (s ∷ ss) m =
    grind (arith, clear_one-Changes r k b s.1 m, clear_loop-Changes r k b ss)

pub clear_distribution-Changes :
    (r : Resource) (k : Kernel) (b : Build) (m : Machine)
    → DirectoriesFit k
    → Goes (λ _ n. Changes r 0 0 m n) (λ _ _. ⊥) (fdo_clear_distribution k b m)
unfolding fdo_clear_distribution
clear_distribution-Changes r k b m h =
    grind (arith, distributions-Changes r k m h, clear_loop-Changes r k b, free_ansi-Changes r)
