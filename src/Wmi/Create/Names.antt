-- ===== src/Wmi/Create/Names.antt =====
-- On Xmasprintf and GetInstanceName of src/xeniface/wmi.c: the names that CreateNewSession
-- tries, and what is held for them.
use qubes_vmm_xen_win_pvdriv.Common.{
  Bool-cases, List, Option, Option-cases, arith, false, if◌then◌else◌, inl, inr, length, ltb, none,
  refl, some, suc, true, zero, ℕ, ◌*◌, ◌+◌, ◌<◌, ◌≤◌, ◌∙◌, ◌∷◌, ◌≡◌, ◌⊎◌,
}
use qubes_vmm_xen_win_pvdriv.Machine.{
  acquire, release, Answer, Changes, Goes, Goes-and, Goes-bind, Machine, Resource, Trace,
  nt_success, one, pool,
}
use qubes_vmm_xen_win_pvdriv.Wmi.Session.{UnicodeString, Wmi}
use qubes_vmm_xen_win_pvdriv.Wmi.Create.{
  allocate_or_null, instance_name_of, instance_name_size, get_instance_name, try_name, with_name,
  xmasprintf, xmasprintf_loop,
}

-- `text` is an instance name that the session of this number can get.
pub record Named (w : Wmi) (ansi : List ℕ) (count : ℕ) (text : List ℕ) : Type 0 where
  pub trace : Trace
  pub converted : nt_success (w.ansi_to_unicode trace (w.session_name ansi count)).status ≡ true
  pub named :
      (w.instance_name (w.ansi_to_unicode trace (w.session_name ansi count)).out.1).out ≡ text

-- The block of the instance name of `name` has a unit.
abbrev pub HasSize : Wmi → (name : List ℕ) → Type 0
HasSize w name =
    (t : Trace)
    → nt_success (w.ansi_to_unicode t name).status ≡ true
    → 2 ≤ instance_name_size w (w.ansi_to_unicode t name).out.1

-- Names with different numbers differ, and the size of their blocks does not wrap to 0.
pub record NamesDiffer (w : Wmi) : Type 0 where
  pub differ :
      (ansi : List ℕ) (i j : ℕ) (text : List ℕ) → Named w ansi i text → Named w ansi j text → i ≡ j
  pub sized : (ansi : List ℕ) (i : ℕ) → HasSize w (w.session_name ansi i)

abbrev pub block_owned : Resource → Option ℕ → ℕ
block_owned r none = 0
block_owned r (some p) = one r (pool p)

-- Blocks that double reach every length.
xmasprintf_loop-Changes :
    (r : Resource) (w : Wmi) (fuel basesize n : ℕ) (m : Machine)
    → 0 < basesize
    → 0 < fuel
    → n < basesize + fuel
    → Goes (λ _ o. Changes r 0 0 m o) (λ _ _. ⊥) (xmasprintf_loop w fuel basesize n m)
unfolding xmasprintf_loop allocate_or_null
xmasprintf_loop-Changes r w zero basesize n m pos some_fuel enough = absurd (omega arith)
xmasprintf_loop-Changes r w (suc fuel) basesize n m pos some_fuel enough =
    elim (Bool-cases (ltb n (basesize * 2))) [
      | inl e ↦ ground (arith, e)
      | inr e ↦
          let rest = λ (o : Machine).
            xmasprintf_loop-Changes r w fuel (basesize * 2) n o (omega arith) (ground (arith, e))
              (ground (arith, e)) in
          elim (Option-cases (w.kernel.allocate_pool m.trace (basesize * 2))) [
            | inl q ↦ ground (arith, e, q)
            | inr (p, q) ↦ ground (
              arith,
              e,
              q,
              rest (record m { trace = release (pool p) ∷ acquire (pool p) ∷ m.trace }),
            )
          ]
    ]

xmasprintf-Changes :
    (r : Resource) (w : Wmi) (text : List ℕ) (m : Machine)
    → Goes (λ p o. Changes r (block_owned r p) 0 m o) (λ _ _. ⊥) (xmasprintf w text m)
unfolding xmasprintf allocate_or_null
xmasprintf-Changes r w text m = grind (
  arith,
  xmasprintf_loop-Changes r w (length text + 1) 128 (length text) m (omega arith) (omega arith)
      (omega arith),
)

-- A name that is handed out with its block, or a failure with which nothing is held.
abbrev pub NameHeld : Resource → Machine → Answer UnicodeString → Machine → Type 0
NameHeld r m a n = Changes r (if nt_success a.status then one r (pool a.out.buffer) else 0) 0 m n

get_instance_name-NameHeld :
    (r : Resource) (w : Wmi) (name : List ℕ) (m : Machine)
    → HasSize w name
    → Goes (NameHeld r m) (λ _ _. ⊥) (get_instance_name w name m)
unfolding get_instance_name
get_instance_name-NameHeld r w name m h = ground (arith, h m.trace)

abbrev pub NamedIf : Wmi → List ℕ → ℕ → Answer UnicodeString → Machine → Type 0
NamedIf w ansi i a n = (nt_success a.status ≡ false) ⊎ Named w ansi i a.out.text

-- With the block of the name, or without.
named_of :
    (w : Wmi) (ansi : List ℕ) (i : ℕ) (t : Trace) (size : ℕ) (p : Option ℕ) (m : Machine)
    → 2 ≤ size
    → nt_success (w.ansi_to_unicode t (w.session_name ansi i)).status ≡ true
    → Goes
        (NamedIf w ansi i)
        (λ _ _. ⊥)
        (instance_name_of w size (w.ansi_to_unicode t (w.session_name ansi i)).out.1 p m)
unfolding instance_name_of
named_of w ansi i t size none m u h = inl refl
named_of w ansi i t size (some b) m u h =
    let large : ltb size 2 ≡ false = ground (arith, u) in
    let a = w.instance_name (w.ansi_to_unicode t (w.session_name ansi i)).out.1 in
    elim (Bool-cases (nt_success a.status)) [
      | inl e ↦ rw (large, e) (inr (record { trace = t; converted = h; named = refl }))
      | inr e ↦ rw (large, e) (inl e)
    ]

get_instance_name-NamedIf :
    (w : Wmi) (ansi : List ℕ) (i : ℕ) (m : Machine)
    → HasSize w (w.session_name ansi i)
    → Goes (NamedIf w ansi i) (λ _ _. ⊥) (get_instance_name w (w.session_name ansi i) m)
unfolding get_instance_name
get_instance_name-NamedIf w ansi i m large =
    let a = w.ansi_to_unicode m.trace (w.session_name ansi i) in
    elim (Bool-cases (nt_success a.status)) [
      | inl e ↦ rw e (
          Goes-bind (λ _ _. Unit {0}) (λ _ _. ⊥) (λ _ _. ⊥) (NamedIf w ansi i)
            (allocate_or_null w _ _) _ (ground arith) (λ _ _ z. z)
            (λ p n _.
              Goes-bind (NamedIf w ansi i) (λ _ _. ⊥) (λ _ _. ⊥) (NamedIf w ansi i)
                (instance_name_of w (instance_name_size w a.out.1) a.out.1 p n) _
                (named_of w ansi i m.trace (instance_name_size w a.out.1) p n (large m.trace e) e)
                (λ _ _ z. z) (λ _ _ z. z)))
      | inr e ↦ rw e (inl e)
    ]

named_after :
    (r : Resource) (w : Wmi) (ansi : List ℕ) (i : ℕ) (m : Machine) (p : Option ℕ) (n : Machine)
    → HasSize w (w.session_name ansi i)
    → Changes r (block_owned r p) 0 m n
    → Goes
        (λ a o. NameHeld r m a o × NamedIf w ansi i a o)
        (λ _ _. ⊥)
        (with_name w (w.session_name ansi i) p n)
unfolding with_name
named_after r w ansi i m none n large c = ((c.0, c.1), inl refl)
named_after r w ansi i m (some p) n large c =
    let name = w.session_name ansi i in
    Goes-bind (λ a o. NameHeld r n a o × NamedIf w ansi i a o) (λ _ _. ⊥) (λ _ _. ⊥) _
      (get_instance_name w name n) _
      (Goes-and (NameHeld r n) (NamedIf w ansi i) (get_instance_name w name n)
        (get_instance_name-NameHeld r w name n large) (get_instance_name-NamedIf w ansi i n large))
      (λ _ _ z. z) (λ a o h. ((h.0.0 ∙ c.0, omega (arith, h.0.1, c.1)), h.1))

pub try_name-IsName :
    (r : Resource) (w : Wmi) (ansi : List ℕ) (i : ℕ) (m : Machine)
    → HasSize w (w.session_name ansi i)
    → Goes
        (λ a n. NameHeld r m a n × NamedIf w ansi i a n)
        (λ _ _. ⊥)
        (try_name w (w.session_name ansi i) m)
unfolding try_name
try_name-IsName r w ansi i m large =
    Goes-bind (λ p o. Changes r (block_owned r p) 0 m o) (λ _ _. ⊥) (λ _ _. ⊥) _
      (xmasprintf w (w.session_name ansi i) m) _ (xmasprintf-Changes r w _ m) (λ _ _ z. z)
      (λ p n c. named_after r w ansi i m p n large c)
