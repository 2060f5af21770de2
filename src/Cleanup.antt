-- ===== src/Cleanup.antt =====
-- XenIfaceCleanup of src/xeniface/ioctls.c: what a closed file object leaves behind. A NULL file
-- object, `none`, stands for all.
use qubes_vmm_xen_win_pvdriv.Common.{List, Option, [], if◌then◌else◌, keep, not, ℕ, ◌∷◌}
use qubes_vmm_xen_win_pvdriv.Machine.{
  Cmd, EvtchnContext, Kernel, StoreContext, SuspendContext, get_fdo, pure, put_fdo, ◌>>=◌, ◌>>◌,
}
use qubes_vmm_xen_win_pvdriv.Store.Watches.{store_free_watch}
use qubes_vmm_xen_win_pvdriv.Evtchn.{evtchn_free, same_file}
use qubes_vmm_xen_win_pvdriv.Suspend.{suspend_free_event}
pub mod Lists

-- The loop under StoreWatchLock; the result is the list that stays.
pub cleanup_watches : Kernel → Option ℕ → List StoreContext → Cmd (List StoreContext)
cleanup_watches k file [] = pure []
cleanup_watches k file (c ∷ cs) =
    let rest : Cmd (List StoreContext) = cleanup_watches k file cs in
    if same_file file c.file_object
    then store_free_watch k c >> rest
    else rest >>= λ l. pure (c ∷ l)

-- The loop under EvtchnLock only moves the contexts to the list ToFree, which keeps their order.
pub evtchn_to_free : Option ℕ → List EvtchnContext → List EvtchnContext
evtchn_to_free file = keep λ c. same_file file c.file_object

pub evtchn_stay : Option ℕ → List EvtchnContext → List EvtchnContext
evtchn_stay file = keep λ c. not (same_file file c.file_object)

pub free_channels : List EvtchnContext → Cmd (Unit {0})
free_channels [] = pure tt
free_channels (c ∷ cs) = evtchn_free c >> free_channels cs

-- The loop under SuspendLock.
pub cleanup_suspends : Option ℕ → List SuspendContext → Cmd (List SuspendContext)
cleanup_suspends file [] = pure []
cleanup_suspends file (c ∷ cs) =
    let rest : Cmd (List SuspendContext) = cleanup_suspends file cs in
    if same_file file c.file_object
    then suspend_free_event c >> rest
    else rest >>= λ l. pure (c ∷ l)

unfoldable pub xen_iface_cleanup : Kernel → Option ℕ → Cmd (Unit {0})
xen_iface_cleanup k file = do
  fdo ← get_fdo
  watches ← cleanup_watches k file fdo.store_watch_list
  put_fdo (record fdo { store_watch_list = watches })
  fdo' ← get_fdo
  put_fdo (record fdo' { evtchn_list = evtchn_stay file fdo'.evtchn_list })
  free_channels (evtchn_to_free file fdo'.evtchn_list)
  fdo'' ← get_fdo
  suspends ← cleanup_suspends file fdo''.suspend_list
  put_fdo (record fdo'' { suspend_list = suspends })
