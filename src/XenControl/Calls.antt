-- ===== src/XenControl/Calls.antt =====
-- A program's calls of src/xencontrol/xencontrol.c between XcOpen and XcClose, one after the other.
use qubes_vmm_xen_win_pvdriv.Common.{Bool, List, Option, none, some, ℕ, ◌+◌, ◌≡◌}
use qubes_vmm_xen_win_pvdriv.Store.Permissions.{Permission}
use qubes_vmm_xen_win_pvdriv.XenControl.Session.{
  Setup, Win32, XcRun, XenControl, heap_overflow, returns, xc_open,
}
use qubes_vmm_xen_win_pvdriv.XenControl.Evtchn.{
  xc_evtchn_bind_interdomain, xc_evtchn_bind_unbound, xc_evtchn_close, xc_evtchn_notify,
  xc_evtchn_unmask,
}
use qubes_vmm_xen_win_pvdriv.XenControl.Gnttab.{
  xc_gnttab_map_foreign_pages, xc_gnttab_permit_foreign_access, xc_gnttab_revoke_foreign_access,
  xc_gnttab_unmap_foreign_pages,
}
use qubes_vmm_xen_win_pvdriv.XenControl.Store.{
  xc_store_add_watch, xc_store_directory, xc_store_read, xc_store_remove, xc_store_remove_watch,
  xc_store_set_permissions, xc_store_write,
}
pub mod Requests
pub mod Sound

pub data Call : Type 0 where
  bind_unbound : (remote_domain event : ℕ) → (mask : Bool) → Call
  bind_interdomain : (remote_domain remote_port event : ℕ) → (mask : Bool) → Call
  close_port notify_port unmask_port : (local_port : ℕ) → Call
  permit : (remote_domain number_pages notify_offset notify_port flags : ℕ) → Call
  map_pages :
      (remote_domain number_pages : ℕ)
      → (references : List ℕ) → (notify_offset notify_port flags : ℕ) → Call
  revoke_at unmap_at : (target : ℕ) → Call
  read_value list_directory : (path : List ℕ) → (size : ℕ) → Call
  write_value : (path text : List ℕ) → Call
  remove_value : (path : List ℕ) → Call
  set_permissions : (address : ℕ) → (path : List ℕ) → (number : ℕ) → (ℕ → Permission) → Call
  add_watch : (address : ℕ) → (path : List ℕ) → (event : ℕ) → Call
  remove_watch : (handle : ℕ) → Call

-- The state that a call returns with, if it returns.
unfoldable pub after : {D A : Type 0} → XcRun D A → Option (XenControl D)
after (returns s a x) = some x
after heap_overflow = none

unfoldable pub call : {D : Type 0} → Win32 D → Call → XenControl D → Option (XenControl D)
unfolding after
call w (bind_unbound dom event mask) x = after (xc_evtchn_bind_unbound w dom event mask x)
call w (bind_interdomain dom port event mask) x =
    after (xc_evtchn_bind_interdomain w dom port event mask x)
call w (close_port p) x = after (xc_evtchn_close w p x)
call w (notify_port p) x = after (xc_evtchn_notify w p x)
call w (unmask_port p) x = after (xc_evtchn_unmask w p x)
call w (permit dom pages offset port flags) x =
    after (xc_gnttab_permit_foreign_access w dom pages offset port flags x)
call w (map_pages dom pages refs offset port flags) x =
    after (xc_gnttab_map_foreign_pages w dom pages refs offset port flags x)
call w (revoke_at p) x = after (xc_gnttab_revoke_foreign_access w p x)
call w (unmap_at p) x = after (xc_gnttab_unmap_foreign_pages w p x)
call w (read_value path size) x = after (xc_store_read w path size x)
call w (list_directory path size) x = after (xc_store_directory w path size x)
call w (write_value path text) x = after (xc_store_write w path text x)
call w (remove_value path) x = after (xc_store_remove w path x)
call w (set_permissions p path n entry) x = after (xc_store_set_permissions w p path n entry x)
call w (add_watch p path event) x = after (xc_store_add_watch w p path event x)
call w (remove_watch h) x = after (xc_store_remove_watch w h x)

-- What `n` calls that return lead to.
pub data Called {D : Type 0} (w : Win32 D) (d : D) : (n : ℕ) → XenControl D → Type 0 where
  opened : {x : XenControl D} (s : Setup) → (xc_open s d).context ≡ some x → Called w d 0 x
  called :
      {n : ℕ} {x y : XenControl D} (c : Call)
      → Called w d n x
      → call w c x ≡ some y
      → Called w d (n + 1) y
