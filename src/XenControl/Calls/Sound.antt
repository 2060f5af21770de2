-- ===== src/XenControl/Calls/Sound.antt =====
-- That every call keeps the library's state sound: request IDs, lock and memory.
use qubes_vmm_xen_win_pvdriv.Common.{
  Bool-cases, Option-cases, [], ap, arith, false, inl, inr, length, some, ℕ, ◌+◌, ◌-◌, ◌<◌, ◌^◌,
  ◌∙◌, ◌≡◌,
}
use qubes_vmm_xen_win_pvdriv.Dispatch.{Ioctl, gnttab_revoke_code, gnttab_unmap_code}
use qubes_vmm_xen_win_pvdriv.XenControl.Session.{entered, Setup, Win32, XenControl, xc_open}
use qubes_vmm_xen_win_pvdriv.XenControl.Evtchn.{
  xc_evtchn_bind_interdomain, xc_evtchn_bind_unbound, xc_evtchn_close, xc_evtchn_notify,
  xc_evtchn_unmask,
}
use qubes_vmm_xen_win_pvdriv.XenControl.Gnttab.{
  end_request, find_request, remove_request, xc_gnttab_revoke_foreign_access,
  xc_gnttab_unmap_foreign_pages,
}
use qubes_vmm_xen_win_pvdriv.XenControl.Store.{
  xc_store_add_watch, xc_store_directory, xc_store_read, xc_store_remove, xc_store_remove_watch,
}
use qubes_vmm_xen_win_pvdriv.XenControl.Calls.{
  Call, Called, add_watch, after, bind_interdomain, bind_unbound, call, called, close_port,
  list_directory, map_pages, notify_port, opened, permit, read_value, remove_value, remove_watch,
  revoke_at, set_permissions, unmap_at, unmask_port, write_value,
}
use qubes_vmm_xen_win_pvdriv.XenControl.Calls.Requests.{
  Gains-Sound, Keeps-Sound, Sound, leave_lock-enter_lock, Ascending-remove, device_call-Keeps,
  length-remove_request, map-Gains, permit-Gains, set_permissions-Keeps, write-Keeps,
}
use qubes_vmm_xen_win_pvdriv.Gnttab.Revoke.{revoke_in_size}
use qubes_vmm_xen_win_pvdriv.Gnttab.ForeignMap.{unmap_in_size}

-- A revocation or an unmapping takes the request at the address off the list, and frees its block.
end_request-Sound :
    {D : Type 0} (w : Win32 D) (code : ℕ → Ioctl) (i target n : ℕ) (x y : XenControl D)
    → after (end_request w code i target x) ≡ some y
    → Sound n x
    → Sound (n + 1) y
unfolding after
end_request-Sound w code i target n x y q s =
    let left = leave_lock-enter_lock x.request_list_lock in
    elim (Option-cases (find_request target x.request_list)) [
      | inl none_found ↦ Keeps-Sound n x y (ground (arith, q, none_found, left)) s
      | inr (r, found) ↦
          elim (Bool-cases (w.device_io_control (code r.id) i 0 false x.device).0.success) [
            | inr refused ↦ Keeps-Sound n x y (ground (arith, q, found, refused, left)) s
            | inl taken ↦
                (let i_same : y.request_id ≡ x.request_id = ground (arith, q, found, taken) in
                  let l_less : y.request_list ≡ remove_request target x.request_list =
                    ground (arith, q, found, taken) in
                  let k_same : y.request_list_lock ≡ x.request_list_lock =
                    ground (arith, q, found, taken, left) in
                  let b_less : y.allocations ≡ x.allocations - 1 =
                    ground (arith, q, found, taken) in
                  record {
                    ids =
                        rw (i_same, l_less)
                          (Ascending-remove 1 x.request_id target x.request_list s.ids);
                    counter = omega (arith, i_same, s.counter);
                    lock_free = k_same ∙ s.lock_free;
                    blocks = omega (
                      arith,
                      b_less,
                      s.blocks,
                      ap length l_less,
                      length-remove_request target x.request_list r found,
                    );
                  })
          ]
    ]

call-Sound :
    {D : Type 0} (w : Win32 D) (n : ℕ) (c : Call) (x y : XenControl D)
    → n + 2 < 2 ^ 32
    → call w c x ≡ some y
    → Sound n x
    → Sound (n + 1) y
unfolding call xc_evtchn_bind_unbound xc_evtchn_bind_interdomain xc_evtchn_close xc_evtchn_notify
    xc_evtchn_unmask xc_gnttab_revoke_foreign_access xc_gnttab_unmap_foreign_pages xc_store_read
    xc_store_directory xc_store_remove xc_store_add_watch xc_store_remove_watch
call-Sound w n (bind_unbound dom event mask) x y small q =
    Keeps-Sound n x y (device_call-Keeps w _ _ _ _ x y q)
call-Sound w n (bind_interdomain dom port event mask) x y small q =
    Keeps-Sound n x y (device_call-Keeps w _ _ _ _ x y q)
call-Sound w n (close_port p) x y small q = Keeps-Sound n x y (device_call-Keeps w _ _ _ _ x y q)
call-Sound w n (notify_port p) x y small q = Keeps-Sound n x y (device_call-Keeps w _ _ _ _ x y q)
call-Sound w n (unmask_port p) x y small q = Keeps-Sound n x y (device_call-Keeps w _ _ _ _ x y q)
call-Sound w n (permit dom pages offset port flags) x y small q =
    Gains-Sound n x y small (permit-Gains w dom pages offset port flags x y q)
call-Sound w n (map_pages dom pages refs offset port flags) x y small q =
    Gains-Sound n x y small (map-Gains w dom pages refs offset port flags x y q)
call-Sound w n (revoke_at p) x y small q =
    end_request-Sound w gnttab_revoke_code revoke_in_size p n x y q
call-Sound w n (unmap_at p) x y small q =
    end_request-Sound w gnttab_unmap_code unmap_in_size p n x y q
call-Sound w n (read_value path size) x y small q =
    Keeps-Sound n x y (device_call-Keeps w _ _ _ _ x y q)
call-Sound w n (list_directory path size) x y small q =
    Keeps-Sound n x y (device_call-Keeps w _ _ _ _ x y q)
call-Sound w n (write_value path text) x y small q =
    Keeps-Sound n x y (write-Keeps w path text x y q)
call-Sound w n (remove_value path) x y small q =
    Keeps-Sound n x y (device_call-Keeps w _ _ _ _ x y q)
call-Sound w n (set_permissions p path m entry) x y small q =
    Keeps-Sound n x y (set_permissions-Keeps w p path m entry x y q)
call-Sound w n (add_watch p path event) x y small q =
    Keeps-Sound n x y (device_call-Keeps w _ _ _ _ x y q)
call-Sound w n (remove_watch h) x y small q = Keeps-Sound n x y (device_call-Keeps w _ _ _ _ x y q)

-- XcOpen that succeeded.
open_context :
    {D : Type 0} (s : Setup) (d : D) (x : XenControl D)
    → (xc_open s d).context ≡ some x
    → (x.request_id ≡ 1)
      × (x.request_list ≡ [])
      × (x.request_list_lock ≡ entered 0)
      × (x.allocations ≡ 1)
unfolding xc_open
open_context s d x q = ground (arith, q)

-- After fewer than 2 ^ 32 - 1 calls of the user library from XcOpen on, all of which returned,
-- the request IDs of the list ascend strictly and are below that of the next request,
-- RequestListLock is free, and the blocks of malloc that are not freed are the context and those
-- of the listed requests.
pub Called-Sound :
    {D : Type 0} (w : Win32 D) (d : D) (n : ℕ) (x : XenControl D)
    → n + 1 < 2 ^ 32
    → Called w d n x
    → Sound n x
Called-Sound w d n x small (opened s q) =
    let (i, l, k, b) = open_context s d x q in
    record {
      ids = rw (i, l) (omega arith);
      counter = omega (arith, i);
      lock_free = k;
      blocks = omega (arith, b, ap length l);
    }
Called-Sound w d n x small (called {n = m} {x = y} c before q) =
    call-Sound w m c y x (omega (arith, small)) q
      (Called-Sound w d m y (omega (arith, small)) before)
