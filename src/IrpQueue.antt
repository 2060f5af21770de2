-- ===== src/IrpQueue.antt =====
-- src/xeniface/irp_queue.c: the cancel-safe queue of pending grant and map requests. The IoCsq
-- routines of Windows call the driver's routines; they are the parameter `IoCsq`.
pub mod Order
use qubes_vmm_xen_win_pvdriv.Common.{
  Bool, List, Option, [], if◌then◌else◌, none, some, ℕ, ◌&&◌, ◌++◌, ◌==◌, ◌∷◌, ◌≡◌,
}
use qubes_vmm_xen_win_pvdriv.Machine.{
  Cmd, ContextId, Irp, Kernel, NtStatus, acquire, context_id, get_fdo, history, pure, put_fdo,
  queue_work_item, record_event, status_invalid_parameter, status_success, undefined, work_item,
  ◌>>=◌, ◌>>◌,
}

abbrev pub same_id : ContextId → ContextId → Bool
same_id a b = a.request_id == b.request_id && a.process == b.process

-- The loop from `NextEntry` on; a NULL PeekContext accepts the first entry.
unfoldable pub peek_from : List Irp → Option ContextId → Option Irp
peek_from [] id = none
peek_from (i ∷ rest) none = some i
peek_from (i ∷ rest) (some id) =
    if same_id (context_id i.context) id then some i else peek_from rest (some id)

-- The entries behind `irp`, from which the peek starts if the IRP is not NULL.
entries_after : ℕ → List Irp → List Irp
entries_after p [] = []
entries_after p (i ∷ rest) = if i.irp == p then rest else entries_after p rest

unfoldable pub csq_peek_next_irp : List Irp → Option ℕ → Option ContextId → Option Irp
unfolding peek_from entries_after
csq_peek_next_irp l none id = peek_from l id
csq_peek_next_irp l (some p) id = peek_from (entries_after p l) id

unfoldable pub csq_insert_irp_ex : Irp → ContextId → List Irp → NtStatus × List Irp
unfolding csq_peek_next_irp
csq_insert_irp_ex i id l = elim (csq_peek_next_irp l none (some id)) [
  | some _ ↦ (status_invalid_parameter, l)
  | none ↦ (status_success, l ++ i ∷ [])
]

unfoldable pub csq_remove_irp : Irp → List Irp → List Irp
csq_remove_irp i [] = []
csq_remove_irp i (j ∷ rest) = if j.irp == i.irp then rest else j ∷ csq_remove_irp i rest

-- IoCsqInsertIrpEx and IoCsqRemoveNextIrp, given the driver's routines, and the routine that
-- cancels an IRP in the queue.
pub record IoCsq : Type 0 where
  pub insert_irp_ex : (List Irp → NtStatus × List Irp) → List Irp → NtStatus × List Irp
  pub remove_next_irp :
      (peek : List Irp → Option Irp) (remove : Irp → List Irp → List Irp)
      → List Irp
      → Option Irp × List Irp

abbrev pub removed :
    (remove : Irp → List Irp → List Irp) → List Irp → Option Irp → Option Irp × List Irp
removed remove l none = (none, l)
removed remove l (some i) = (some i, remove i l)

-- As documented: insertion calls CsqInsertIrpEx and returns its status; removal calls
-- CsqPeekNextIrp and, on a hit, CsqRemoveIrp.
pub record IsDocumented (q : IoCsq) : Type 0 where
  pub inserts : (f : List Irp → NtStatus × List Irp) (l : List Irp) → q.insert_irp_ex f l ≡ f l
  pub removes :
      (peek : List Irp → Option Irp) (remove : Irp → List Irp → List Irp) (l : List Irp)
      → q.remove_next_irp peek remove l ≡ removed remove l (peek l)

-- The calls of the handlers: IoCsqInsertIrpEx(&Fdo->IrpQueue, Irp, NULL, Id) and
-- IoCsqRemoveNextIrp(&Fdo->IrpQueue, &Id).
unfoldable pub insert_irp : IoCsq → Irp → Cmd NtStatus
unfolding csq_insert_irp_ex
insert_irp q i = do
  fdo ← get_fdo
  let r : NtStatus × List Irp =
      q.insert_irp_ex (csq_insert_irp_ex i (context_id i.context)) fdo.irp_list
  put_fdo (record fdo { irp_list = r.1 })
  pure r.0

unfoldable pub remove_next_irp : IoCsq → ContextId → Cmd (Option Irp)
unfolding csq_peek_next_irp csq_remove_irp
remove_next_irp q id = do
  fdo ← get_fdo
  let r : Option Irp × List Irp =
      q.remove_next_irp (λ l. csq_peek_next_irp l none (some id)) csq_remove_irp fdo.irp_list
  put_fdo (record fdo { irp_list = r.1 })
  pure r.0

-- The work item carries on at PASSIVE_LEVEL. What IoAllocateWorkItem answers is used untested.
unfoldable pub csq_complete_canceled_irp : Kernel → Irp → Cmd ℕ
csq_complete_canceled_irp k i = do
  t ← history
  elim (k.allocate_work_item t) [
    | none ↦ λ _. undefined
    | some w ↦ do
      record_event (acquire (work_item w))
      record_event (queue_work_item w i.irp)
      pure w
  ]
