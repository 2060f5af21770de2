-- ===== src/Examples/Histories.antt =====
-- A request of the device of the examples, and a history from an empty device.
use qubes_vmm_xen_win_pvdriv.Common.{arith, refl, some, ◌+◌, ◌≡◌}
use qubes_vmm_xen_win_pvdriv.Machine.{
  Ends, Finishes, Goes, Machine, Reply, Run, acquired, assertion_failure, exit, ok, owned, pool,
  released, undefined,
}
use qubes_vmm_xen_win_pvdriv.Cleanup.{xen_iface_cleanup}
use qubes_vmm_xen_win_pvdriv.Cleanup.Lists.{cleanup_lem}
use qubes_vmm_xen_win_pvdriv.Dispatch.{Request, gnttab_permit_code, xen_iface_ioctl}
use qubes_vmm_xen_win_pvdriv.Dispatch.Ledger.{xen_iface_ioctl-Conserves}
use qubes_vmm_xen_win_pvdriv.Dispatch.Histories.{
  Reach, Reach-accounts, clean, here, initial, next, request,
}
use qubes_vmm_xen_win_pvdriv.Examples.{csq, kernel, kernel-Reliable, permit_in, platform}

abbrev asks : Request
asks = record { irp = 500; in_len = 24; out_len = 16; file_object = 7; process = 4 }

abbrev left_by : {A : Type 0} → Run A → Machine
left_by (ok _ n) = n
left_by (exit _ n) = n
left_by _ = initial

left_by-Finishes :
    (P : Reply → Machine → Type 0) (r : Run Reply) → Ends P r → Finishes r (left_by r)
left_by-Finishes P (ok a n) h = refl
left_by-Finishes P (exit a n) h = refl
left_by-Finishes P assertion_failure h = h
left_by-Finishes P undefined h = h

left_by-Goes :
    {A : Type 0} (Q : A → Machine → Type 0) (r : Run A)
    → Goes Q (λ _ _. ⊥) r
    → Finishes r (left_by r)
left_by-Goes Q (ok a n) h = refl
left_by-Goes Q (exit a n) h = refl
left_by-Goes Q assertion_failure h = h
left_by-Goes Q undefined h = h

-- Two pages are shared, and the request stays pending; then the file object is cleaned up.
abbrev after_permit : Machine
after_permit = left_by (xen_iface_ioctl kernel csq asks (gnttab_permit_code permit_in 5000) initial)

abbrev after_cleanup : Machine
after_cleanup = left_by (xen_iface_cleanup kernel (some 7) after_permit)

history_after_permit : Reach kernel csq initial after_cleanup
history_after_permit =
    next
      (next here (
        request asks (gnttab_permit_code permit_in 5000) (λ e. absurd (omega (arith, e)))
          (left_by-Finishes _ _ (
            xen_iface_ioctl-Conserves (pool 100) kernel csq asks (gnttab_permit_code permit_in 5000)
              initial platform λ e. absurd (omega (arith, e))))))
      (clean (some 7)
        (left_by-Goes _ _ (cleanup_lem (pool 100) kernel (some 7) after_permit kernel-Reliable)))

Reach_example :
    acquired (pool 100) after_cleanup.trace
    ≡ released (pool 100) after_cleanup.trace + owned (pool 100) after_cleanup.fdo
Reach_example = Reach-accounts (pool 100) kernel csq after_cleanup platform history_after_permit
