-- ===== src/IrpQueue/Order.antt =====
-- The queue as a list: what is found, what is removed, and that request IDs stay unique.
use qubes_vmm_xen_win_pvdriv.Common.{
  Bool, List, Option-cases, [], arith, false, inl, inr, none, refl, some, total, true, ℕ, ◌++◌, ◌+◌,
  ◌==◌, ◌||◌, ◌∷◌, ◌≡◌, ◌⊎◌,
}
use qubes_vmm_xen_win_pvdriv.Machine.{
  ContextId, Irp, Machine, Resource, context_id, ok, owned_irp, status_invalid_parameter,
  status_success,
}
use qubes_vmm_xen_win_pvdriv.IrpQueue.{
  IoCsq, IsDocumented, csq_insert_irp_ex, csq_peek_next_irp, csq_remove_irp, peek_from,
  remove_next_irp, same_id,
}

-- No entry is the IRP `p`; no entry has the ID `id`.
abbrev pub has_irp : ℕ → List Irp → Bool
has_irp p [] = false
has_irp p (i ∷ l) = i.irp == p || has_irp p l

abbrev pub has_id : ContextId → List Irp → Bool
has_id id [] = false
has_id id (i ∷ l) = same_id (context_id i.context) id || has_id id l

-- An IRP is in the queue once, and no two requests of a process share their ID.
abbrev pub DistinctIrps : List Irp → Type 0
DistinctIrps [] = Unit
DistinctIrps (i ∷ l) = (has_irp i.irp l ≡ false) × DistinctIrps l

abbrev pub UniqueIds : List Irp → Type 0
UniqueIds [] = Unit
UniqueIds (i ∷ l) = (has_id (context_id i.context) l ≡ false) × UniqueIds l

peek-none : (l : List Irp) (id : ContextId) → peek_from l (some id) ≡ none → has_id id l ≡ false
unfolding peek_from
peek-none [] id h = refl
peek-none (i ∷ l) id h = ground (arith, peek-none l id)

peek-has_irp :
    (l : List Irp) (id : ContextId) (i : Irp)
    → peek_from l (some id) ≡ some i
    → has_irp i.irp l ≡ true
unfolding peek_from
peek-has_irp [] id i h = cc
peek-has_irp (j ∷ l) id i h = ground (arith, peek-has_irp l id i)

peek-has_id :
    (l : List Irp) (id : ContextId) (i : Irp) → peek_from l (some id) ≡ some i → has_id id l ≡ true
unfolding peek_from
peek-has_id [] id i h = cc
peek-has_id (j ∷ l) id i h = ground (arith, peek-has_id l id i)

-- What is peeked at is what is removed.
pub total-remove :
    (r : Resource) (l : List Irp) (id : ContextId) (i : Irp)
    → DistinctIrps l
    → peek_from l (some id) ≡ some i
    → total (owned_irp r) l ≡ owned_irp r i + total (owned_irp r) (csq_remove_irp i l)
unfolding peek_from csq_remove_irp
total-remove r [] id i u h = cc
total-remove r (j ∷ l) id i u h = ground (arith, total-remove r l id i u.1, peek-has_irp l id i)

has_id-append :
    (id : ContextId) (l : List Irp) (i : Irp)
    → has_id id (l ++ i ∷ []) ≡ (has_id id l || same_id (context_id i.context) id)
has_id-append id [] i = ground arith
has_id-append id (j ∷ l) i = ground (arith, has_id-append id l i)

UniqueIds-append :
    (l : List Irp) (i : Irp)
    → UniqueIds l
    → has_id (context_id i.context) l ≡ false
    → UniqueIds (l ++ i ∷ [])
UniqueIds-append [] i u h = (refl, tt)
UniqueIds-append (j ∷ l) i u h = (
  ground (arith, has_id-append (context_id j.context) l i),
  UniqueIds-append l i u.1 (ground arith),
)

peek-append :
    (l : List Irp) (i : Irp)
    → has_id (context_id i.context) l ≡ false
    → peek_from (l ++ i ∷ []) (some (context_id i.context)) ≡ some i
unfolding peek_from
peek-append [] i h = ground arith
peek-append (j ∷ l) i h = ground (arith, peek-append l i)

-- CsqInsertIrpEx keeps request IDs unique. It either refuses a request whose ID is in the queue
-- and leaves the queue as it was, or puts it at the end, where a peek for its ID finds it.
pub insert_irp_ex-UniqueIds :
    (i : Irp) (l : List Irp)
    → UniqueIds l
    → let (s, l') = csq_insert_irp_ex i (context_id i.context) l in
      UniqueIds l'
      × (((s ≡ status_invalid_parameter) × (l' ≡ l) × (has_id (context_id i.context) l ≡ true))
          ⊎ ((s ≡ status_success)
              × (l' ≡ l ++ i ∷ [])
              × (csq_peek_next_irp l' none (some (context_id i.context)) ≡ some i)))
unfolding csq_insert_irp_ex
insert_irp_ex-UniqueIds i l u = elim (Option-cases (peek_from l (some (context_id i.context)))) [
  | inl e ↦
      let unused = peek-none l _ e in
      rw (e, csq_insert_irp_ex)
        (UniqueIds-append l i u unused, inr (refl, refl, peek-append l i unused))
  | inr (j, e) ↦ rw (e, csq_insert_irp_ex) (u, inl (refl, refl, peek-has_id l _ j e))
]

has_id-remove :
    (i : Irp) (l : List Irp) (id : ContextId)
    → has_id id l ≡ false
    → has_id id (csq_remove_irp i l) ≡ false
unfolding csq_remove_irp
has_id-remove i [] id h = refl
has_id-remove i (j ∷ l) id h = ground (arith, has_id-remove i l id)

-- CsqRemoveIrp keeps request IDs unique.
pub remove_irp-UniqueIds : (i : Irp) (l : List Irp) → UniqueIds l → UniqueIds (csq_remove_irp i l)
unfolding csq_remove_irp
remove_irp-UniqueIds i [] u = tt
remove_irp-UniqueIds i (j ∷ l) u =
    ground (arith, has_id-remove i l (context_id j.context), remove_irp-UniqueIds i l u.1)

-- IoCsqRemoveNextIrp, by what the driver's routines do.
pub remove_next_irp_lem :
    (q : IoCsq) (d : IsDocumented q) (id : ContextId) (m : Machine)
    → remove_next_irp q id m ≡ (elim (peek_from m.fdo.irp_list (some id)) [
      | none ↦ ok none m
      | some i ↦
          ok
            (some i)
            (record m { fdo = record m.fdo { irp_list = csq_remove_irp i m.fdo.irp_list } })
    ])
unfolding remove_next_irp
remove_next_irp_lem q d id m =
    rw d.removes (elim (Option-cases (peek_from m.fdo.irp_list (some id))) [
      | inl e ↦ rw e
      | inr (i, e) ↦ rw e
    ])
