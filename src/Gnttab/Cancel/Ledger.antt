-- ===== src/Gnttab/Cancel/Ledger.antt =====
-- A canceled request.
use qubes_vmm_xen_win_pvdriv.Common.{arith, some, ◌≡◌}
use qubes_vmm_xen_win_pvdriv.Machine.{
  Changes, Conserves, ContextId, Goes, Irp, IrpContext, Kernel, Machine, Reliable, Resource,
  WorkItems, complete_request, grant_context, latest, map_context, owned_irp_context,
  status_cancelled,
}
use qubes_vmm_xen_win_pvdriv.IrpQueue.{csq_complete_canceled_irp, csq_remove_irp, peek_from}
use qubes_vmm_xen_win_pvdriv.IrpQueue.Order.{DistinctIrps, total-remove}
use qubes_vmm_xen_win_pvdriv.Gnttab.Revoke.Ledger.{free_grant-Changes}
use qubes_vmm_xen_win_pvdriv.Gnttab.ForeignMap.Ledger.{free_map-Changes}
use qubes_vmm_xen_win_pvdriv.Gnttab.Cancel.{cancel_irp, complete_gnttab_irp, free_context}

free_context-Changes :
    (r : Resource) (k : Kernel) (reliable : Reliable k) (c : IrpContext) (m : Machine)
    → Goes (λ _ n. Changes r 0 (owned_irp_context r c) m n) (λ _ _. ⊥) (free_context k c m)
unfolding free_context
free_context-Changes r k reliable (grant_context c) m = free_grant-Changes r k reliable c m
free_context-Changes r k reliable (map_context c) m = free_map-Changes r k reliable c m

-- Whatever the request was, where the asserted calls succeed, IoAllocateWorkItem does not answer
-- NULL, IRPs are in the queue once and the request is found by its ID, its cancellation ends,
-- takes it off the queue and nothing else, gives back all that its context owned and the work
-- item, and completes it as cancelled in the end.
pub cancel_irp_lem :
    (r : Resource) (k : Kernel) (i : Irp) (id : ContextId) (m : Machine)
    → Reliable k
    → WorkItems k
    → DistinctIrps m.fdo.irp_list
    → peek_from m.fdo.irp_list (some id) ≡ some i
    → Goes
        (λ _ n.
          (n.fdo ≡ record m.fdo { irp_list = csq_remove_irp i m.fdo.irp_list })
          × Conserves r m n
          × (latest n.trace ≡ some (complete_request i.irp status_cancelled)))
        (λ _ _. ⊥)
        (cancel_irp k i m)
unfolding cancel_irp csq_complete_canceled_irp complete_gnttab_irp
cancel_irp_lem r k i id m reliable items u h = grind (
  arith,
  items.allocated m.trace,
  total-remove r m.fdo.irp_list id i,
  free_context-Changes r k reliable i.context,
)
