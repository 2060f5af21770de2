-- ===== src/Store/Watches/Ledger.antt =====
-- Resources across the handlers of watches.
use qubes_vmm_xen_win_pvdriv.Common.{List, arith, total-append, ℕ}
use qubes_vmm_xen_win_pvdriv.Machine.{
  Completes, Ends, FaultsFail, Kernel, Machine, Resource, Synchronous,
}
use qubes_vmm_xen_win_pvdriv.UserBuffer.Ledger.{capture_or_fail-Changes}
use qubes_vmm_xen_win_pvdriv.Store.Watches.{AddWatchIn, ioctl_store_add_watch}

-- Where exceptions carry error codes and the calls of the store and of ObReferenceObjectByHandle
-- complete at once, every request to add a watch ends, not pending, with every resource accounted
-- for: a failure gave back what it had acquired, and the listed context owns the rest.
pub add_watch-Completes :
    (r : Resource) (k : Kernel) (faults : FaultsFail k) (sync : Synchronous k) (i : AddWatchIn)
    (text : List ℕ) (in_len out_len file_object : ℕ) (m : Machine)
    → Ends (Completes r m) (ioctl_store_add_watch k i text in_len out_len file_object m)
unfolding ioctl_store_add_watch
add_watch-Completes r k faults sync i text in_len out_len file_object m =
    grind
      (arith, capture_or_fail-Changes r k faults i.path i.path_length m, total-append, sync.watches)
