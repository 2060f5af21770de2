-- ===== src/Examples/Requests.antt =====
-- The pending requests, clean-up and histories on the device of the examples.
use qubes_vmm_xen_win_pvdriv.Common.{[], arith, none, refl, some, true, ◌++◌, ◌∷◌, ◌≡◌, ◌⊎◌}
use qubes_vmm_xen_win_pvdriv.Machine.{
  Conserves, Ends, Goes, Settled, complete_request, latest, mdl_memory, pool, status_cancelled,
  status_invalid_parameter, status_success, store_watch, undefined,
}
use qubes_vmm_xen_win_pvdriv.Examples.{
  csq, csq-IsDocumented, grant, kernel, kernel-Reliable, kernel-WorkItems, kernel_of-FaultsFail,
  machine, mapping, permit_in,
}
use qubes_vmm_xen_win_pvdriv.IrpQueue.{
  csq_insert_irp_ex, csq_peek_next_irp, csq_remove_irp, peek_from,
}
use qubes_vmm_xen_win_pvdriv.IrpQueue.Order.{UniqueIds, has_id, insert_irp_ex-UniqueIds}
use qubes_vmm_xen_win_pvdriv.Gnttab.Grant.{ioctl_gnttab_permit_foreign_access}
use qubes_vmm_xen_win_pvdriv.Gnttab.Grant.Ledger.{permit_foreign_access-Settled}
use qubes_vmm_xen_win_pvdriv.Gnttab.Revoke.Ledger.{revoke_of_map-undefined}
use qubes_vmm_xen_win_pvdriv.Gnttab.ForeignMap.{MapIn}
use qubes_vmm_xen_win_pvdriv.Gnttab.Cancel.{cancel_irp}
use qubes_vmm_xen_win_pvdriv.Gnttab.Cancel.Ledger.{cancel_irp_lem}
use qubes_vmm_xen_win_pvdriv.Cleanup.{xen_iface_cleanup}
use qubes_vmm_xen_win_pvdriv.Cleanup.Lists.{cleanup_lem, without}
use qubes_vmm_xen_win_pvdriv.Gnttab.Revoke.{ioctl_gnttab_revoke_foreign_access}

permit_foreign_access_example :
    Ends
      (Settled (pool 100) 500 machine)
      (ioctl_gnttab_permit_foreign_access kernel csq permit_in 5000 24 16 4 500 machine)
permit_foreign_access_example =
    permit_foreign_access-Settled (pool 100) kernel csq permit_in 5000 24 16 4 500 machine refl
      kernel-Reliable (kernel_of-FaultsFail true (some 7000)) csq-IsDocumented
      λ e. absurd (omega (arith, e))

revoke_of_map_example : ioctl_gnttab_revoke_foreign_access kernel csq 2 4 0 4 machine ≡ undefined
unfolding peek_from
revoke_of_map_example = revoke_of_map-undefined kernel csq 2 0 4 machine csq-IsDocumented refl

abbrev map_in : MapIn
map_in = record {
  request_id = 3;
  remote_domain = 1;
  number_pages = 2;
  flags = 6;
  notify_offset = 10;
  notify_port = 31;
  references = 61 ∷ 62 ∷ [];
}

cancel_irp_example :
    Goes
      (λ _ n.
        (n.fdo ≡ record machine.fdo { irp_list = mapping 400 2 ∷ [] })
        × Conserves (mdl_memory 305) machine n
        × (latest n.trace ≡ some (complete_request 300 status_cancelled)))
      (λ _ _. ⊥)
      (cancel_irp kernel (grant 300 1) machine)
unfolding peek_from csq_remove_irp
cancel_irp_example =
    cancel_irp_lem (mdl_memory 305) kernel (grant 300 1) (record { request_id = 1; process = 4 })
      machine kernel-Reliable kernel-WorkItems (refl, (refl, tt)) refl

insert_irp_ex_example :
    let (s, l) =
      csq_insert_irp_ex
        (grant 500 2)
        (record { request_id = 2; process = 4 })
        machine.fdo.irp_list in
    UniqueIds l
    × (((s ≡ status_invalid_parameter)
          × (l ≡ machine.fdo.irp_list)
          × (has_id (record { request_id = 2; process = 4 }) machine.fdo.irp_list ≡ true))
        ⊎ ((s ≡ status_success)
            × (l ≡ machine.fdo.irp_list ++ grant 500 2 ∷ [])
            × (csq_peek_next_irp l none (some (record { request_id = 2; process = 4 }))
                ≡ some (grant 500 2))))
insert_irp_ex_example =
    insert_irp_ex-UniqueIds (grant 500 2) machine.fdo.irp_list (refl, (refl, tt))

cleanup_example :
    Goes
      (λ _ n. (n.fdo ≡ without (some 7) machine.fdo) × Conserves (store_watch 11) machine n)
      (λ _ _. ⊥)
      (xen_iface_cleanup kernel (some 7) machine)
cleanup_example = cleanup_lem (store_watch 11) kernel (some 7) machine kernel-Reliable
