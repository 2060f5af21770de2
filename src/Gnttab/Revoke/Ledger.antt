-- ===== src/Gnttab/Revoke/Ledger.antt =====
-- The end of a grant.
use qubes_vmm_xen_win_pvdriv.Common.{Bool, List, [], arith, false, none, some, true, ℕ, ◌∷◌, ◌≡◌}
use qubes_vmm_xen_win_pvdriv.Machine.{
  Changes, Completes, ContextId, Ends, Goes, GrantContext, Irp, Kernel, Machine, Reliable, Resource,
  grant_context, map_context, owned_entries, owned_grant, undefined,
}
use qubes_vmm_xen_win_pvdriv.Gnttab.Pages.Ledger.{notify_peer-Changes}
use qubes_vmm_xen_win_pvdriv.IrpQueue.{IoCsq, IsDocumented, peek_from}
use qubes_vmm_xen_win_pvdriv.IrpQueue.Order.{DistinctIrps, remove_next_irp_lem, total-remove}
use qubes_vmm_xen_win_pvdriv.Gnttab.Revoke.{
  gnttab_free_grant, ioctl_gnttab_revoke_foreign_access, revoke_pages,
}

revoke_pages-Changes :
    (r : Resource) (k : Kernel) (reliable : Reliable k) (entries : List ℕ) (m : Machine)
    → Goes (λ _ n. Changes r 0 (owned_entries r entries) m n) (λ _ _. ⊥) (revoke_pages k entries m)
unfolding revoke_pages
revoke_pages-Changes r k reliable [] m = ground arith
revoke_pages-Changes r k reliable (e ∷ es) m =
    grind (arith, reliable.access_revoked m.trace e, revoke_pages-Changes r k reliable es)

-- GnttabFreeGrant gives back all that the context owns.
pub free_grant-Changes :
    (r : Resource) (k : Kernel) (reliable : Reliable k) (c : GrantContext) (m : Machine)
    → Goes (λ _ n. Changes r 0 (owned_grant r c) m n) (λ _ _. ⊥) (gnttab_free_grant k c m)
unfolding gnttab_free_grant
free_grant-Changes r k reliable c m = grind (
  arith,
  notify_peer-Changes r c.flags c.kernel_va c.notify_offset c.notify_port m,
  revoke_pages-Changes r k reliable c.entries,
)

-- The request that a look-up finds is of the other type.
abbrev pub finds_map : List Irp → ContextId → Bool
finds_map l id = elim (peek_from l (some id)) [
  | none ↦ false
  | some i ↦ elim i.context [ grant_context _ ↦ false | map_context _ ↦ true ]
]

abbrev pub id_of : (request_id process : ℕ) → ContextId
id_of request_id process = record { request_id = request_id; process = process }

-- Where the asserted calls succeed, the IoCsq routines are as documented, IRPs are in the queue
-- once and the ID is not that of a mapping, every revocation ends, not pending, with every
-- resource and the revoked IRP accounted for.
pub revoke-Completes :
    (r : Resource) (k : Kernel) (q : IoCsq) (request_id in_len out_len process : ℕ) (m : Machine)
    → Reliable k
    → IsDocumented q
    → DistinctIrps m.fdo.irp_list
    → finds_map m.fdo.irp_list (id_of request_id process) ≡ false
    → Ends
        (Completes r m)
        (ioctl_gnttab_revoke_foreign_access k q request_id in_len out_len process m)
unfolding ioctl_gnttab_revoke_foreign_access
revoke-Completes r k q request_id in_len out_len process m reliable d u h = grind (
  arith,
  remove_next_irp_lem q d (id_of request_id process) m,
  total-remove r m.fdo.irp_list (id_of request_id process),
  free_grant-Changes r k reliable,
)

-- Where the IoCsq routines are as documented, a request to revoke that names the ID of a mapping
-- reads the mapping's context as a grant's: the look-up compares the process and the number, and
-- not the type.
pub revoke_of_map-undefined :
    (k : Kernel) (q : IoCsq) (request_id out_len process : ℕ) (m : Machine)
    → IsDocumented q
    → finds_map m.fdo.irp_list (id_of request_id process) ≡ true
    → ioctl_gnttab_revoke_foreign_access k q request_id 4 out_len process m ≡ undefined
unfolding ioctl_gnttab_revoke_foreign_access
revoke_of_map-undefined k q request_id out_len process m d h =
    grind (arith, remove_next_irp_lem q d (id_of request_id process) m)
