-- ===== src/Wmi/Create/Ledger.antt =====
-- On the search for an instance name in CreateNewSession (src/xeniface/wmi.c).
use qubes_vmm_xen_win_pvdriv.Common.{
  Bool-cases, List, Option, Option-cases, [], ap, arith, false, inl, inr, length, map, none, refl,
  some, suc, subst, true, zero, ℕ, ◌+◌, ◌<◌, ◌∙◌, ◌∷◌, ◌≡◌, ◌≤◌, ◌⊎◌,
}
use qubes_vmm_xen_win_pvdriv.Machine.{
  Answer, Changes, Goes, Goes-bind, Goes-mono, Machine, Resource, nt_success, one, pool, release,
}
use qubes_vmm_xen_win_pvdriv.Wmi.Session.{
  equal_strings, UnicodeString, Wmi, XenStoreSession, find_session_by_instance_locked,
}
use qubes_vmm_xen_win_pvdriv.Wmi.Session.Finding.{equal_strings_sound}
use qubes_vmm_xen_win_pvdriv.Wmi.Create.{name_loop, try_name}
use qubes_vmm_xen_win_pvdriv.Wmi.Create.Search.{
  In, In-without_element, length-without_element, without_element,
}
use qubes_vmm_xen_win_pvdriv.Wmi.Create.Names.{
  NameHeld, Named, NamedIf, NamesDiffer, try_name-IsName,
}

abbrev pub names : List XenStoreSession → List (List ℕ)
names = map λ s. s.instancename.text

pub length-names : (ss : List XenStoreSession) → length (names ss) ≡ length ss
length-names [] = refl
length-names (s ∷ ss) = ap suc (length-names ss)

find_by_instance-In :
    (name : List ℕ) (ss : List XenStoreSession)
    → (find_session_by_instance_locked name ss ≡ none) ⊎ In name (names ss)
unfolding find_session_by_instance_locked
find_by_instance-In name [] = inl refl
find_by_instance-In name (s ∷ ss) = elim (Bool-cases (equal_strings name s.instancename.text)) [
  | inl e ↦ inr (inl (equal_strings_sound _ _ e))
  | inr e ↦ elim (find_by_instance-In name ss) [
    | inl n ↦ inl (rw (e, n) refl)
    | inr i ↦ inr (inr i)
  ]
]

-- A name of its own, or a failure.
abbrev pub NewName :
    Resource → List XenStoreSession → Machine → Answer UnicodeString → Machine → Type 0
NewName r ss m a n =
    NameHeld r m a n
    × ((nt_success a.status ≡ false) ⊎ (find_session_by_instance_locked a.out.text ss ≡ none))

pub held_if_success :
    (r : Resource) (m : Machine) (a : Answer UnicodeString) (n : Machine)
    → nt_success a.status ≡ true
    → NameHeld r m a n
    → Changes r (one r (pool a.out.buffer)) 0 m n
held_if_success r m a n e h = ground (arith, e, h)

NamedIf-success :
    (w : Wmi) (ansi : List ℕ) (count : ℕ) (a : Answer UnicodeString) (n : Machine)
    → nt_success a.status ≡ true
    → NamedIf w ansi count a n
    → Named w ansi count a.out.text
NamedIf-success w ansi count a n e (inl f) = cc
NamedIf-success w ansi count a n e (inr h) = h

module _ (r : Resource) (w : Wmi) (ss : List XenStoreSession) (ansi : List ℕ)
    (differ : NamesDiffer w) where
  -- `left` has the names of sessions that the loop can still meet.
  unfoldable pub Meets : ℕ → List (List ℕ) → Type 0
  Meets count left =
      (i : ℕ) (text : List ℕ) → count ≤ i → Named w ansi i text → In text (names ss) → In text left

  some_not_none : {A : Type 0} {o : Option A} {a : A} → o ≡ some a → o ≡ none → ⊥
  some_not_none h k = cc

  -- The name is taken: its block is freed, and the loop goes on.
  next_name :
      (fuel count : ℕ) (left : List (List ℕ)) (m : Machine) (a : Answer UnicodeString) (n : Machine)
      (z : List XenStoreSession × XenStoreSession × List XenStoreSession)
      → length left < suc fuel
      → Meets count left
      → nt_success a.status ≡ true
      → find_session_by_instance_locked a.out.text ss ≡ some z
      → Changes r (one r (pool a.out.buffer)) 0 m n
      → Named w ansi count a.out.text
      → ((left' : List (List ℕ)) (o : Machine)
          → length left' < fuel
          → Meets (count + 1) left'
          → Goes (NewName r ss o) (λ _ _. ⊥) (name_loop w fuel ss ansi (count + 1) o))
      → Goes
          (NewName r ss m)
          (λ _ _. ⊥)
          (name_loop w fuel ss ansi
            (count + 1)
            (record n { trace = release (pool a.out.buffer) ∷ n.trace }))
  unfolding Meets
  next_name fuel count left m a n z short meets e f held named more =
      elim (find_by_instance-In a.out.text ss) [
        | inl k ↦ absurd (some_not_none f k)
        | inr i ↦
            let here = meets count a.out.text (omega arith) named i in
            let freed = record n { trace = release (pool a.out.buffer) ∷ n.trace } in
            let later =
              more (without_element a.out.text left here) freed
                (omega (arith, length-without_element a.out.text left here))
                (λ j text le other k.
                  In-without_element a.out.text text left here (meets j text (omega arith) other k)
                    (λ q. absurd (
                      omega (
                        arith,
                        differ.differ ansi count j text (subst (Named w ansi count) q named) other,
                      )))) in
            Goes-mono (NewName r ss freed) (NewName r ss m)
              (name_loop w fuel ss ansi (count + 1) freed) later
              (λ b o k. ((k.0.0 ∙ held.0, omega (arith, k.0.1, held.1)), k.1))
      ]

  pub name_loop_ends :
      (fuel count : ℕ) (left : List (List ℕ)) (m : Machine)
      → length left < fuel
      → Meets count left
      → Goes (NewName r ss m) (λ _ _. ⊥) (name_loop w fuel ss ansi count m)
  unfolding name_loop Meets
  name_loop_ends zero count left m short meets = absurd (omega arith)
  name_loop_ends (suc fuel) count left m short meets =
      Goes-bind (λ a n. NameHeld r m a n × NamedIf w ansi count a n) (λ _ _. ⊥) (λ _ _. ⊥)
        (NewName r ss m) (try_name w (w.session_name ansi count) m) _
        (try_name-IsName r w ansi count m (differ.sized ansi count)) (λ _ _ z. z)
        (λ a n h. elim (Bool-cases (nt_success a.status)) [
          | inr e ↦ rw e (h.0, inl e)
          | inl e ↦ rw e (elim (Option-cases (find_session_by_instance_locked a.out.text ss)) [
            | inl f ↦ rw f (h.0, inr f)
            | inr (z, f) ↦ rw f (
                next_name fuel count left m a n z short meets e f (held_if_success r m a n e h.0)
                  (NamedIf-success w ansi count a n e h.1) (name_loop_ends fuel (count + 1)))
          ])
        ])
