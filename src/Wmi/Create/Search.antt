-- ===== src/Wmi/Create/Search.antt =====
-- On the search for an id in CreateNewSession (src/xeniface/wmi.c), and on lists with an element
-- taken out.
use qubes_vmm_xen_win_pvdriv.Common.{
  Bool-cases, List, Option, Option-cases, [], ap, arith, inl, inr, length, map, none, refl, some,
  suc, sym, zero, ℕ, ◌%◌, ◌+◌, ◌<◌, ◌==◌, ==_iff, ◌∙◌, ◌∷◌, ◌≡◌, ◌≤◌, ◌⊎◌,
}
use qubes_vmm_xen_win_pvdriv.Wmi.Session.{Found, XenStoreSession, behind, find_session_locked}
use qubes_vmm_xen_win_pvdriv.Wmi.Create.{id_loop, max_sessions, new_session_id}

-- `x` is an element of the list.
abbrev pub In : {A : Type 0} → A → List A → Type 0
In x [] = ⊥
In x (y ∷ ys) = (x ≡ y) ⊎ In x ys

module _ {A : Type 0} where
  -- The list without that element.
  abbrev pub without_element : (x : A) (l : List A) → In x l → List A
  without_element x [] h = []
  without_element x (y ∷ ys) (inl e) = ys
  without_element x (y ∷ ys) (inr h) = y ∷ without_element x ys h

  pub length-without_element :
      (x : A) (l : List A) (h : In x l) → length (without_element x l h) + 1 ≡ length l
  length-without_element x [] h = elim h [ ]
  length-without_element x (y ∷ ys) (inl e) = omega arith
  length-without_element x (y ∷ ys) (inr h) = omega (arith, length-without_element x ys h)

  pub In-without_element :
      (x z : A) (l : List A) (h : In x l) → In z l → ((x ≡ z) → ⊥) → In z (without_element x l h)
  In-without_element x z [] h i d = elim h [ ]
  In-without_element x z (y ∷ ys) (inl e) (inl f) d = absurd (d (e ∙ sym f))
  In-without_element x z (y ∷ ys) (inl e) (inr i) d = i
  In-without_element x z (y ∷ ys) (inr h) (inl f) d = inl f
  In-without_element x z (y ∷ ys) (inr h) (inr i) d = inr (In-without_element x z ys h i d)

abbrev ids : List XenStoreSession → List ℕ
ids = map λ s. s.id

length-ids : (ss : List XenStoreSession) → length (ids ss) ≡ length ss
length-ids [] = refl
length-ids (s ∷ ss) = ap suc (length-ids ss)

some_or_none {ℓ} : {A : Type ℓ} {o : Option A} {a : A} → o ≡ some a → o ≡ none → ⊥
some_or_none h k = cc

behind-none : {A : Type 0} (x : A) (f : Found A) → behind x f ≡ none → f ≡ none
behind-none x none h = refl
behind-none x (some (b, y, a)) h = cc

find_session-In :
    (id : ℕ) (ss : List XenStoreSession) → (find_session_locked id ss ≡ none) ⊎ In id (ids ss)
unfolding find_session_locked
find_session-In id [] = inl refl
find_session-In id (s ∷ ss) = elim (Bool-cases (s.id == id)) [
  | inl e ↦ inr (inl (sym ((==_iff s.id id).0 e)))
  | inr e ↦ elim (find_session-In id ss) [ inl n ↦ inl (rw (e, n) refl) | inr i ↦ inr (inr i) ]
]

-- The ids that the loop tries from `x` on.
abbrev tried : ℕ → ℕ → ℕ
tried x zero = x
tried x (suc j) = tried ((x + 1) % max_sessions) j

tried_lem : (x j : ℕ) → tried x (suc j) ≡ (x + 1 + j) % max_sessions
tried_lem x zero = omega arith
tried_lem x (suc j) = omega (arith, tried_lem ((x + 1) % max_sessions) j)

-- `left` has the ids of sessions that the loop can still meet.
id_loop_ends :
    (fuel : ℕ) (ss : List XenStoreSession) (x : ℕ) (left : List ℕ)
    → fuel ≤ max_sessions
    → length left < fuel
    → ((j : ℕ) → j < fuel → In (tried x j) (ids ss) → In (tried x j) left)
    → (id : ℕ) × (id_loop fuel ss x ≡ some id) × (find_session_locked id ss ≡ none)
unfolding id_loop
id_loop_ends zero ss x left bound short meets = absurd (omega arith)
id_loop_ends (suc fuel) ss x left bound short meets =
    elim (Option-cases (find_session_locked x ss)) [
      | inl e ↦ (x, rw (e, id_loop) refl, e)
      | inr (r, e) ↦ elim (find_session-In x ss) [
        | inl n ↦ absurd (some_or_none e n)
        | inr i ↦
            let here = meets 0 (omega arith) i in
            let later =
              id_loop_ends fuel ss ((x + 1) % max_sessions) (without_element x left here)
                (omega arith) (omega (arith, length-without_element x left here))
                (λ j h k.
                  In-without_element x (tried x (suc j)) left here (meets (suc j) (omega arith) k)
                    (λ q. absurd (omega (arith, q, tried_lem x j)))) in
            (later.0, rw (e, id_loop) later.1, later.2)
      ]
    ]

-- Where there are fewer than 65536 sessions, the search for a session id ends, with an id that
-- FindSessionLocked does not find.
pub new_session_id_lem :
    (ss : List XenStoreSession)
    → length ss < max_sessions
    → (id : ℕ) × (new_session_id ss ≡ some id) × (find_session_locked id ss ≡ none)
unfolding new_session_id
new_session_id_lem [] h = (0, refl, unfold find_session_locked in refl)
new_session_id_lem (s ∷ ss) h =
    id_loop_ends (length (s ∷ ss) + 1) (s ∷ ss) (s.id + 1) (ids (s ∷ ss)) (omega arith)
      (omega (arith, length-ids (s ∷ ss))) (λ j _ i. i)
