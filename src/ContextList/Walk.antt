-- ===== src/ContextList/Walk.antt =====
-- What the walk finds and unlinks.
use qubes_vmm_xen_win_pvdriv.Common.{
  Bool, List, Option, [], arith, false, keep, none, not, refl, some, total, true, ℕ, ◌&&◌, ◌++◌,
  ◌+◌, ◌==◌, ◌||◌, ◌∷◌, ◌≡◌, ◌≢◌, ◌⊎◌,
}
use qubes_vmm_xen_win_pvdriv.ContextList.{accepted, walk}

module _ {A : Type 0} (address file_object : A → ℕ) where
  abbrev pub has_address : ℕ → List A → Bool
  has_address p [] = false
  has_address p (c ∷ cs) = address c == p || has_address p cs

  -- Each context has its own memory.
  abbrev pub DistinctContexts : List A → Type 0
  DistinctContexts [] = Unit
  DistinctContexts (c ∷ cs) = (has_address (address c) cs ≡ false) × DistinctContexts cs

module _ {A : Type 0} (address file_object : A → ℕ) (target file : ℕ) where
  -- The context that the caller names, and a context of another file object at that address.
  abbrev pub is_own : A → Bool
  is_own c = address c == target && file_object c == file

  abbrev pub has_own : List A → Bool
  has_own [] = false
  has_own (c ∷ cs) = is_own c || has_own cs

  abbrev pub has_foreign : List A → Bool
  has_foreign [] = false
  has_foreign (c ∷ cs) = (address c == target && not (file_object c == file)) || has_foreign cs

  abbrev pub own_weight : (A → ℕ) → Option A → ℕ
  own_weight w none = 0
  own_weight w (some c) = w c

  keep_absent :
      (cs : List A)
      → has_address address file_object target cs ≡ false
      → keep (λ c. not (is_own c)) cs ≡ cs
  keep_absent [] h = refl
  keep_absent (c ∷ cs) h = ground (arith, keep_absent cs)

  -- With no context of another file object at the address, the walk unlinks the caller's context,
  -- accepts it if there is one, and loses nothing.
  pub walk_lem :
      (w : A → ℕ) (last : Option A) (cs : List A)
      → has_foreign cs ≡ false
      → accepted address file_object target file last ≡ none
      → DistinctContexts address file_object cs
      → let found = walk address file_object target file last cs in
        let taken = accepted address file_object target file found.0 in
        (found.1 ≡ keep (λ c. not (is_own c)) cs)
        × (total w cs ≡ total w found.1 + own_weight w taken)
        × (((has_own cs ≡ true) × (taken ≢ none))
            ⊎ ((has_own cs ≡ false) × (taken ≡ none) × (found.1 ≡ cs)))
  unfolding walk
  walk_lem w last [] h l d = ground arith
  walk_lem w last (c ∷ cs) h l d = ground (arith, walk_lem w (some c) cs, keep_absent cs)

  -- A context of another file object that is the last of the list is accepted and stays in it.
  pub walk_foreign_last :
      (last : Option A) (cs : List A) (c : A)
      → address c ≡ target
      → file_object c ≢ file
      → has_own cs ≡ false
      → walk address file_object target file last (cs ++ c ∷ []) ≡ (some c, cs ++ c ∷ [])
  unfolding walk
  walk_foreign_last last [] c a f h = ground arith
  walk_foreign_last last (d ∷ cs) c a f h = ground (arith, walk_foreign_last (some d) cs c)
