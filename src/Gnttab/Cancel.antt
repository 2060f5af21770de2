-- ===== src/Gnttab/Cancel.antt =====
-- CompleteGnttabIrp, and the way of a canceled request from the queue to it.
use qubes_vmm_xen_win_pvdriv.Common.{ℕ}
use qubes_vmm_xen_win_pvdriv.Machine.{
  Cmd, Irp, IrpContext, Kernel, complete_request, get_fdo, grant_context, map_context, put_fdo,
  record_event, release, status_cancelled, work_item, ◌>>=◌, ◌>>◌,
}
use qubes_vmm_xen_win_pvdriv.IrpQueue.{csq_complete_canceled_irp, csq_remove_irp}
use qubes_vmm_xen_win_pvdriv.Gnttab.ForeignMap.{gnttab_free_map}
use qubes_vmm_xen_win_pvdriv.Gnttab.Revoke.{gnttab_free_grant}
pub mod Ledger

pub free_context : Kernel → IrpContext → Cmd (Unit {0})
free_context k (grant_context c) = gnttab_free_grant k c
free_context k (map_context c) = gnttab_free_map k c

-- The work item: it runs in the process of the request.
unfoldable pub complete_gnttab_irp : Kernel → (w : ℕ) → Irp → Cmd (Unit {0})
complete_gnttab_irp k w i = do
  free_context k i.context
  record_event (release (work_item w))
  record_event (complete_request i.irp status_cancelled)

-- Windows cancels the pending IRP `i`: it calls CsqRemoveIrp and CsqCompleteCanceledIrp, and later
-- the work item that the latter queues.
pub cancel_irp : Kernel → Irp → Cmd (Unit {0})
cancel_irp k i = do
  fdo ← get_fdo
  put_fdo (record fdo { irp_list = csq_remove_irp i fdo.irp_list })
  w ← csq_complete_canceled_irp k i
  complete_gnttab_irp k w i
