-- ===== src/Dispatch.antt =====
-- XenIfaceIoctl of src/xeniface/ioctls.c: from the control code to the handler, and the completion
-- of the request.
use qubes_vmm_xen_win_pvdriv.Common.{List, if◌then◌else◌, ℕ, ◌==◌, ◌∷◌}
use qubes_vmm_xen_win_pvdriv.Machine.{
  Cmd, Kernel, Machine, Reply, Run, acquire, assertion_failure, complete_request, exit, ok, pure,
  record_event, request_irp, return, status_device_not_ready, status_invalid_device_request,
  status_pending, undefined, ◌>>◌,
}
use qubes_vmm_xen_win_pvdriv.IrpQueue.{IoCsq}
use qubes_vmm_xen_win_pvdriv.Store.Values.{
  ioctl_store_directory, ioctl_store_read, ioctl_store_remove, ioctl_store_write,
}
use qubes_vmm_xen_win_pvdriv.Store.Permissions.{SetPermissionsIn, ioctl_store_set_permissions}
use qubes_vmm_xen_win_pvdriv.Store.Watches.{
  AddWatchIn, ioctl_store_add_watch, ioctl_store_remove_watch,
}
use qubes_vmm_xen_win_pvdriv.Evtchn.{
  BindInterdomainIn, BindUnboundIn, ioctl_evtchn_bind_interdomain, ioctl_evtchn_bind_unbound,
  ioctl_evtchn_close, ioctl_evtchn_notify, ioctl_evtchn_unmask,
}
use qubes_vmm_xen_win_pvdriv.Gnttab.Grant.{PermitIn, ioctl_gnttab_permit_foreign_access}
use qubes_vmm_xen_win_pvdriv.Gnttab.ForeignMap.{
  MapIn, ioctl_gnttab_map_foreign_pages, ioctl_gnttab_unmap_foreign_pages,
}
use qubes_vmm_xen_win_pvdriv.Suspend.{
  ioctl_suspend_deregister, ioctl_suspend_get_count, ioctl_suspend_register,
}
use qubes_vmm_xen_win_pvdriv.Misc.{ioctl_log, ioctl_shared_info_get_time}
use qubes_vmm_xen_win_pvdriv.Gnttab.Revoke.{ioctl_gnttab_revoke_foreign_access}
pub mod Ledger
pub mod Histories

-- The control codes, each with its input buffer as the handler reads it. A buffer of bytes holds
-- InLen bytes.
pub data Ioctl : Type 0 where
  store_read_code store_write_code store_directory_code : List ℕ → Ioctl
  store_remove_code log_code : List ℕ → Ioctl
  store_set_permissions_code : SetPermissionsIn → (text : List ℕ) → Ioctl
  store_add_watch_code : AddWatchIn → (text : List ℕ) → Ioctl
  store_remove_watch_code : (target : ℕ) → Ioctl
  evtchn_bind_unbound_code : BindUnboundIn → Ioctl
  evtchn_bind_interdomain_code : BindInterdomainIn → Ioctl
  evtchn_close_code evtchn_notify_code evtchn_unmask_code : (local_port : ℕ) → Ioctl
  gnttab_permit_code : PermitIn → (buffer : ℕ) → Ioctl
  gnttab_revoke_code gnttab_unmap_code : (request_id : ℕ) → Ioctl
  gnttab_map_code : MapIn → (buffer : ℕ) → Ioctl
  suspend_get_count_code shared_info_get_time_code unknown_code : Ioctl
  suspend_register_code : (event : ℕ) → Ioctl
  suspend_deregister_code : (target : ℕ) → Ioctl

-- The request and its stack location.
pub record Request : Type 0 where
  pub irp : ℕ
  pub in_len : ℕ
  pub out_len : ℕ
  pub file_object : ℕ
  pub process : ℕ

-- The switch.
unfoldable pub handle : Kernel → IoCsq → Request → Ioctl → Cmd Reply
handle k q r (store_read_code b) = ioctl_store_read k b r.out_len
handle k q r (store_write_code b) = ioctl_store_write k b r.out_len
handle k q r (store_directory_code b) = ioctl_store_directory k b r.out_len
handle k q r (store_remove_code b) = ioctl_store_remove k b r.out_len
handle k q r (store_set_permissions_code i text) =
    ioctl_store_set_permissions k i text r.in_len r.out_len
handle k q r (store_add_watch_code i text) =
    ioctl_store_add_watch k i text r.in_len r.out_len r.file_object
handle k q r (store_remove_watch_code c) =
    ioctl_store_remove_watch k c r.in_len r.out_len r.file_object
handle k q r (evtchn_bind_unbound_code i) =
    ioctl_evtchn_bind_unbound k i r.in_len r.out_len r.file_object
handle k q r (evtchn_bind_interdomain_code i) =
    ioctl_evtchn_bind_interdomain k i r.in_len r.out_len r.file_object
handle k q r (evtchn_close_code p) = ioctl_evtchn_close p r.in_len r.out_len r.file_object
handle k q r (evtchn_notify_code p) = ioctl_evtchn_notify p r.in_len r.out_len r.file_object
handle k q r (evtchn_unmask_code p) = ioctl_evtchn_unmask p r.in_len r.out_len r.file_object
handle k q r (gnttab_permit_code i b) =
    ioctl_gnttab_permit_foreign_access k q i b r.in_len r.out_len r.process r.irp
handle k q r (gnttab_revoke_code id) =
    ioctl_gnttab_revoke_foreign_access k q id r.in_len r.out_len r.process
handle k q r (gnttab_map_code i b) =
    ioctl_gnttab_map_foreign_pages k q i b r.in_len r.out_len r.process r.irp
handle k q r (gnttab_unmap_code id) =
    ioctl_gnttab_unmap_foreign_pages k q id r.in_len r.out_len r.process
handle k q r suspend_get_count_code = ioctl_suspend_get_count k r.in_len r.out_len
handle k q r (suspend_register_code e) = ioctl_suspend_register k e r.in_len r.out_len r.file_object
handle k q r (suspend_deregister_code c) =
    ioctl_suspend_deregister c r.in_len r.out_len r.file_object
handle k q r shared_info_get_time_code = ioctl_shared_info_get_time k r.in_len r.out_len
handle k q r (log_code b) = ioctl_log b r.out_len
handle k q r unknown_code = return status_invalid_device_request

-- `done:`, for a handler that ended with this reply.
unfoldable pub complete_unless_pending : ℕ → Reply → Cmd Reply
complete_unless_pending irp r =
    if r.status == status_pending
    then pure r
    else (do record_event (complete_request irp r.status); pure r)

-- Both ways to leave a handler come to `done`.
unfoldable pub finish : ℕ → Run Reply → Run Reply
unfolding complete_unless_pending
finish irp (ok r m) = complete_unless_pending irp r m
finish irp (exit r m) = complete_unless_pending irp r m
finish irp assertion_failure = assertion_failure
finish irp undefined = undefined

-- The system hands the IRP to the dispatch routine.
abbrev pub received : ℕ → Machine → Machine
received irp m = record m { trace = acquire (request_irp irp) ∷ m.trace }

unfoldable pub xen_iface_ioctl : Kernel → IoCsq → Request → Ioctl → Cmd Reply
unfolding finish handle
xen_iface_ioctl k q r code m =
    let n : Machine = received r.irp m in
    finish r.irp
      (if m.fdo.interfaces_acquired then handle k q r code n else return status_device_not_ready n)
