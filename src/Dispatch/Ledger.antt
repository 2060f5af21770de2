-- ===== src/Dispatch/Ledger.antt =====
-- The device as a whole: no request, clean-up or cancellation loses a resource, and what histories of
-- them leave behind.
use qubes_vmm_xen_win_pvdriv.Common.{
  Bool, arith, false, if◌then◌else◌, refl, true, ℕ, ◌==◌, ◌≡◌, ◌≢◌,
}
use qubes_vmm_xen_win_pvdriv.Machine.{
  Changes, Completes, Conserves, Ends, FaultsFail, Fdo, Kernel, Machine, Reliable, Reply, Resource,
  Run, Settled, Synchronous, WorkItems, assertion_failure, exit, ok, return,
  status_device_not_ready, status_invalid_device_request, status_pending, undefined,
}
use qubes_vmm_xen_win_pvdriv.IrpQueue.{IoCsq, IsDocumented}
use qubes_vmm_xen_win_pvdriv.IrpQueue.Order.{DistinctIrps}
use qubes_vmm_xen_win_pvdriv.Store.Values.Handlers.{
  ListsEnd, store_directory-Changes, store_read-Changes, store_remove-Changes, store_write-Changes,
  writes_conversion,
}
use qubes_vmm_xen_win_pvdriv.Store.Watches.Ledger.{add_watch-Completes}
use qubes_vmm_xen_win_pvdriv.Store.Watches.Removal.{
  DistinctWatches, has_foreign_watch, remove_watch-Completes,
}
use qubes_vmm_xen_win_pvdriv.Evtchn.Ledger.{
  bind_interdomain-Completes, bind_unbound-Completes, close-Completes, notify-Completes,
  unmask-Completes,
}
use qubes_vmm_xen_win_pvdriv.Gnttab.Pages.{max_pages}
use qubes_vmm_xen_win_pvdriv.Gnttab.Grant.Ledger.{permit_foreign_access-Settled}
use qubes_vmm_xen_win_pvdriv.Gnttab.Revoke.Ledger.{finds_map, id_of, revoke-Completes}
use qubes_vmm_xen_win_pvdriv.Gnttab.ForeignMap.Ledger.{
  finds_grant, map_foreign_pages-Settled, unmap-Completes,
}
use qubes_vmm_xen_win_pvdriv.Suspend.Ledger.{get_count-Completes, register-Completes}
use qubes_vmm_xen_win_pvdriv.Suspend.Deregistration.{
  DistinctSuspends, deregister-Completes, has_foreign_suspend,
}
use qubes_vmm_xen_win_pvdriv.Misc.Ledger.{get_time-Completes, log-Completes}
use qubes_vmm_xen_win_pvdriv.Dispatch.{
  Ioctl, Request, evtchn_bind_interdomain_code, evtchn_bind_unbound_code, evtchn_close_code,
  evtchn_notify_code, evtchn_unmask_code, finish, gnttab_map_code, gnttab_permit_code,
  gnttab_revoke_code, gnttab_unmap_code, handle, log_code, received, shared_info_get_time_code,
  store_add_watch_code, store_directory_code, store_read_code, store_remove_code,
  store_remove_watch_code, store_set_permissions_code, store_write_code, suspend_deregister_code,
  suspend_get_count_code, suspend_register_code, unknown_code, xen_iface_ioctl,
}

-- What the driver relies on, in a checked build.
pub record Platform (k : Kernel) (q : IoCsq) : Type 0 where
  pub checked : k.dbg ≡ true
  pub reliable : Reliable k
  pub items : WorkItems k
  pub faults : FaultsFail k
  pub lists : ListsEnd k
  pub documented : IsDocumented q
  pub synchronous : Synchronous k

-- The requests on which the driver is sound: no setting of permissions, which keeps its copy of
-- the entries; no address of a context that another file object registered; no number of a request of
-- the other type; no write of a text that has a conversion of Printf; no grant of 2 ^ 20 pages, whose size
-- wraps to 0. Contexts have distinct addresses, and an IRP is pending once.
abbrev pub Admissible : Request → Ioctl → Fdo → Type 0
Admissible r (store_set_permissions_code _ _) f = ⊥
Admissible r (store_remove_watch_code c) f =
    (has_foreign_watch c r.file_object f.store_watch_list ≡ false)
    × DistinctWatches f.store_watch_list
Admissible r (suspend_deregister_code c) f =
    (has_foreign_suspend c r.file_object f.suspend_list ≡ false) × DistinctSuspends f.suspend_list
Admissible r (gnttab_revoke_code id) f =
    (finds_map f.irp_list (id_of id r.process) ≡ false) × DistinctIrps f.irp_list
Admissible r (gnttab_unmap_code id) f =
    (finds_grant f.irp_list (id_of id r.process) ≡ false) × DistinctIrps f.irp_list
Admissible r (store_write_code b) f = writes_conversion b ≡ false
Admissible r (gnttab_permit_code i _) f = i.number_pages ≢ max_pages
Admissible _ _ _ = Unit

-- Every end of a handler for the request `irp` leaves it settled.
Settles : Resource → (irp : ℕ) → Machine → Run Reply → Type 0
Settles r irp m run = Ends (Settled r irp m) run

Settles-of_completed :
    (r : Resource) (irp : ℕ) (m : Machine) (run : Run Reply)
    → Ends (Completes r m) run
    → Settles r irp m run
unfolding Settles
Settles-of_completed r irp m (ok a n) h = ground arith
Settles-of_completed r irp m (exit a n) h = ground arith
Settles-of_completed r irp m assertion_failure h = h
Settles-of_completed r irp m undefined h = h

Settles-of_same :
    (r : Resource) (irp : ℕ) (m : Machine) (run : Run Reply)
    → Ends (λ a n. ((a.status == status_pending) ≡ false) × Changes r 0 0 m n) run
    → Settles r irp m run
unfolding Settles
Settles-of_same r irp m (ok a n) h = ground arith
Settles-of_same r irp m (exit a n) h = ground arith
Settles-of_same r irp m assertion_failure h = h
Settles-of_same r irp m undefined h = h

module _ (s : Resource) (k : Kernel) (q : IoCsq) (p : Platform k q) (r : Request)
    (m : Machine) where
  handle-Settles :
      (code : Ioctl) → Admissible r code m.fdo → Settles s r.irp m (handle k q r code m)
  unfolding Settles handle
  handle-Settles (store_read_code b) a =
      Settles-of_same s r.irp m _ (store_read-Changes s k b r.out_len m)
  handle-Settles (store_write_code b) a =
      Settles-of_same s r.irp m _ (store_write-Changes s k p.synchronous b r.out_len m a)
  handle-Settles (store_directory_code b) a =
      Settles-of_same s r.irp m _ (store_directory-Changes s k p.lists b r.out_len m)
  handle-Settles (store_remove_code b) a =
      Settles-of_same s r.irp m _ (store_remove-Changes s k p.synchronous b r.out_len m)
  handle-Settles (store_set_permissions_code i t) a = elim a [ ]
  handle-Settles (store_add_watch_code i t) a =
      Settles-of_completed s r.irp m _
        (add_watch-Completes s k p.faults p.synchronous i t r.in_len r.out_len r.file_object m)
  handle-Settles (store_remove_watch_code c) a =
      Settles-of_completed s r.irp m _
        (remove_watch-Completes s k c r.in_len r.out_len r.file_object m p.reliable a.0 a.1)
  handle-Settles (evtchn_bind_unbound_code i) a =
      Settles-of_completed s r.irp m _
        (bind_unbound-Completes s k i r.in_len r.out_len r.file_object m)
  handle-Settles (evtchn_bind_interdomain_code i) a =
      Settles-of_completed s r.irp m _
        (bind_interdomain-Completes s k i r.in_len r.out_len r.file_object m)
  handle-Settles (evtchn_close_code c) a =
      Settles-of_completed s r.irp m _ (close-Completes s c r.in_len r.out_len r.file_object m)
  handle-Settles (evtchn_notify_code c) a =
      Settles-of_completed s r.irp m _ (notify-Completes s c r.in_len r.out_len r.file_object m)
  handle-Settles (evtchn_unmask_code c) a =
      Settles-of_completed s r.irp m _ (unmask-Completes s c r.in_len r.out_len r.file_object m)
  handle-Settles (gnttab_permit_code i b) a =
      permit_foreign_access-Settled s k q i b r.in_len r.out_len r.process r.irp m p.checked
        p.reliable p.faults p.documented a
  handle-Settles (gnttab_revoke_code id) a =
      Settles-of_completed s r.irp m _
        (revoke-Completes s k q id r.in_len r.out_len r.process m p.reliable p.documented a.1 a.0)
  handle-Settles (gnttab_map_code i b) a =
      map_foreign_pages-Settled s k q i b r.in_len r.out_len r.process r.irp m p.checked p.reliable
        p.faults p.documented
  handle-Settles (gnttab_unmap_code id) a =
      Settles-of_completed s r.irp m _
        (unmap-Completes s k q id r.in_len r.out_len r.process m p.reliable p.documented a.1 a.0)
  handle-Settles suspend_get_count_code a =
      Settles-of_completed s r.irp m _ (get_count-Completes s k r.in_len r.out_len m)
  handle-Settles (suspend_register_code e) a =
      Settles-of_completed s r.irp m _
        (register-Completes s k p.synchronous e r.in_len r.out_len r.file_object m)
  handle-Settles (suspend_deregister_code c) a =
      Settles-of_completed s r.irp m _
        (deregister-Completes s c r.in_len r.out_len r.file_object m a.0 a.1)
  handle-Settles shared_info_get_time_code a =
      Settles-of_completed s r.irp m _ (get_time-Completes s k r.in_len r.out_len m)
  handle-Settles (log_code b) a = Settles-of_completed s r.irp m _ (log-Completes s b r.out_len m)
  handle-Settles unknown_code a =
      Settles-of_completed s r.irp m (return status_invalid_device_request m) (refl, refl)

-- The completion of the request hands the IRP back.
finish-Conserves :
    (r : Resource) (irp : ℕ) (m : Machine) (run : Run Reply)
    → Settles r irp (received irp m) run
    → Ends (λ _ n. Conserves r m n) (finish irp run)
unfolding Settles finish
finish-Conserves r irp m (ok a n) h = ground arith
finish-Conserves r irp m (exit a n) h = ground arith
finish-Conserves r irp m assertion_failure h = h
finish-Conserves r irp m undefined h = h

if-Settles :
    (r : Resource) (irp : ℕ) (m : Machine) (b : Bool) (x y : Run Reply)
    → Settles r irp m x
    → Settles r irp m y
    → Settles r irp m (if b then x else y)
if-Settles r irp m true x y h g = h
if-Settles r irp m false x y h g = g

pub xen_iface_ioctl-Conserves :
    (s : Resource) (k : Kernel) (q : IoCsq) (r : Request) (code : Ioctl) (m : Machine)
    → Platform k q
    → Admissible r code m.fdo
    → Ends (λ _ n. Conserves s m n) (xen_iface_ioctl k q r code m)
unfolding xen_iface_ioctl Settles
xen_iface_ioctl-Conserves s k q r code m p a =
    let n = received r.irp m in
    finish-Conserves s r.irp m _ (
      if-Settles s r.irp n m.fdo.interfaces_acquired (handle k q r code n)
        (return status_device_not_ready n) (handle-Settles s k q p r n code a)
        (Settles-of_completed s r.irp n (return status_device_not_ready n) (refl, refl)))
