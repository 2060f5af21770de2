-- ===== src/Wmi/Session/Finding.antt =====
-- What the look-ups of a session and of a watch find.
use qubes_vmm_xen_win_pvdriv.Common.{
  Bool-cases, Bool, List, [], arith, false, if◌then◌else◌, inl, inr, none, refl, some, true, ℕ,
  ◌++◌, ◌∷◌, ◌≡◌, ap, sym,
}
use qubes_vmm_xen_win_pvdriv.Wmi.Session.{
  Found, XenStoreSession, XenStoreWatch, behind, equal_strings, find_session_by_instance_locked,
  session_find_watch_locked, unless_suspended,
}

pub equal_strings_sound : (s t : List ℕ) → equal_strings s t ≡ true → s ≡ t
unfolding equal_strings
equal_strings_sound [] [] h = refl
equal_strings_sound [] (d ∷ ds) h = cc
equal_strings_sound (c ∷ cs) [] h = cc
equal_strings_sound (c ∷ cs) (d ∷ ds) h = ground (arith, h, equal_strings_sound cs ds)

-- The pieces make up the list.
abbrev pub Splits : {A : Type 0} → List A → Found A → Type 0
Splits l none = Unit
Splits l (some (b, x, a)) = l ≡ b ++ x ∷ a

behind-Splits :
    {A : Type 0} (x : A) (l : List A) (f : Found A) → Splits l f → Splits (x ∷ l) (behind x f)
behind-Splits x l none h = tt
behind-Splits x l (some (b, y, a)) h = ap (λ r. x ∷ r) h

abbrev pub Matching : (List ℕ) → Found XenStoreSession → Type 0
Matching name none = Unit
Matching name (some (b, x, a)) = (x.instancename.text ≡ name) × (x.suspended ≡ false)

behind-Matching :
    (name : List ℕ) (x : XenStoreSession) (f : Found XenStoreSession)
    → Matching name f
    → Matching name (behind x f)
behind-Matching name x none h = tt
behind-Matching name x (some (b, y, a)) h = h

unless_suspended-Splits :
    (s : XenStoreSession) (ss : List XenStoreSession) → Splits (s ∷ ss) (unless_suspended s ss)
unless_suspended-Splits s ss =
    elim s.suspended as (λ b. Splits (s ∷ ss) (if b then none else some ([], s, ss))) [
      | true ↦ tt
      | false ↦ refl
    ]

unless-Matching :
    (name : List ℕ) (s : XenStoreSession) (ss : List XenStoreSession)
    → s.instancename.text ≡ name
    → (b : Bool) → s.suspended ≡ b
    → Matching name (if b then none else some ([], s, ss))
unless-Matching name s ss h true q = tt
unless-Matching name s ss h false q = (h, q)

unless_suspended-Matching :
    (name : List ℕ) (s : XenStoreSession) (ss : List XenStoreSession)
    → s.instancename.text ≡ name
    → Matching name (unless_suspended s ss)
unless_suspended-Matching name s ss h = unless-Matching name s ss h s.suspended refl

pub find_by_instance-Splits :
    (name : List ℕ) (ss : List XenStoreSession)
    → Splits ss (find_session_by_instance_locked name ss)
unfolding find_session_by_instance_locked
find_by_instance-Splits name [] = tt
find_by_instance-Splits name (s ∷ ss) = elim (Bool-cases (equal_strings name s.instancename.text)) [
  | inl e ↦ rw e (unless_suspended-Splits s ss)
  | inr e ↦ rw e (behind-Splits s ss _ (find_by_instance-Splits name ss))
]

-- What is found has the name, and is not suspended.
pub find_by_instance-Matching :
    (name : List ℕ) (ss : List XenStoreSession)
    → Matching name (find_session_by_instance_locked name ss)
unfolding find_session_by_instance_locked
find_by_instance-Matching name [] = tt
find_by_instance-Matching name (s ∷ ss) =
    elim (Bool-cases (equal_strings name s.instancename.text)) [
      | inl e ↦ rw e (unless_suspended-Matching name s ss (sym (equal_strings_sound _ _ e)))
      | inr e ↦ rw e (behind-Matching name s _ (find_by_instance-Matching name ss))
    ]

pub find_watch-Splits :
    (path : List ℕ) (ws : List XenStoreWatch) → Splits ws (session_find_watch_locked path ws)
unfolding session_find_watch_locked
find_watch-Splits path [] = tt
find_watch-Splits path (v ∷ vs) = elim (Bool-cases (equal_strings path v.path.text)) [
  | inl e ↦ rw e refl
  | inr e ↦ rw e (behind-Splits v vs _ (find_watch-Splits path vs))
]
