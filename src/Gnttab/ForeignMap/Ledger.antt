-- ===== src/Gnttab/ForeignMap/Ledger.antt =====
-- Resources across a mapping of foreign pages, from the request to its end.
use qubes_vmm_xen_win_pvdriv.Common.{
  Bool, List, arith, false, none, some, total-append, true, ℕ, ◌+◌, ◌≡◌,
}
use qubes_vmm_xen_win_pvdriv.Machine.{
  Changes, Completes, ContextId, Ends, FaultsFail, Goes, Irp, Kernel, Machine, MapContext, NtStatus,
  Reliable, Resource, Settled, acquired, foreign_pages, grant_context, io_space, map_context,
  mdl_memory, nt_success, one, owned, owned_map, pool, released, request_irp, status_pending,
}
use qubes_vmm_xen_win_pvdriv.UserBuffer.Ledger.{capture_or_fail-Changes}
use qubes_vmm_xen_win_pvdriv.IrpQueue.{IoCsq, IsDocumented, peek_from}
use qubes_vmm_xen_win_pvdriv.IrpQueue.Order.{DistinctIrps, remove_next_irp_lem, total-remove}
use qubes_vmm_xen_win_pvdriv.Gnttab.Pages.Ledger.{notify_peer-Changes}
use qubes_vmm_xen_win_pvdriv.Gnttab.Grant.Ledger.{insert_irp-total}
use qubes_vmm_xen_win_pvdriv.Gnttab.Revoke.Ledger.{id_of}
use qubes_vmm_xen_win_pvdriv.Gnttab.ForeignMap.{
  MapBuffers, MapIn, gnttab_free_map, ioctl_gnttab_map_foreign_pages,
  ioctl_gnttab_unmap_foreign_pages, map_allocate, map_checks, map_fail12, map_publish,
}

-- What a request holds once the MDL is there.
abbrev held_map : Resource → MapBuffers → ℕ
held_map r b =
    one r (pool b.captured_in)
    + one r (pool b.context)
    + one r (foreign_pages b.foreign)
    + one r (io_space b.kernel_va)
    + one r (mdl_memory b.mdl)

map_fail12-Changes :
    (A : Type 0) (r : Resource) (k : Kernel) (checked : k.dbg ≡ true) (reliable : Reliable k)
    (b : MapBuffers) (s : NtStatus) (m : Machine)
    → nt_success s ≡ false
    → Goes
        (λ _ _. ⊥)
        (λ a n. (nt_success a.status ≡ false) × Changes r 0 (held_map r b) m n)
        (map_fail12 {A = A} k b s m)
unfolding map_fail12
map_fail12-Changes A r k checked reliable b s m h = grind (arith, reliable.pages_unmapped)

map_checks-Changes :
    (r : Resource) (i : MapIn) (p in_len expected : ℕ) (m : Machine)
    → Goes
        (λ _ n. n ≡ m)
        (λ a n. (nt_success a.status ≡ false) × Changes r 0 (one r (pool p)) m n)
        (map_checks i p in_len expected m)
unfolding map_checks
map_checks-Changes r i p in_len expected m = grind arith

map_allocate-Changes :
    (r : Resource) (k : Kernel) (checked : k.dbg ≡ true) (reliable : Reliable k) (i : MapIn)
    (p process : ℕ) (m : Machine)
    → Goes
        (λ b n.
          (n.fdo ≡ m.fdo)
          × (acquired r n.trace + released r m.trace + one r (pool p)
              ≡ acquired r m.trace + released r n.trace + held_map r b))
        (λ a n. (nt_success a.status ≡ false) × Changes r 0 (one r (pool p)) m n)
        (map_allocate k i p process m)
unfolding map_allocate
map_allocate-Changes r k checked reliable i p process m = grind (arith, reliable.pages_unmapped)

map_publish-Changes :
    (r : Resource) (k : Kernel) (checked : k.dbg ≡ true) (reliable : Reliable k)
    (faults : FaultsFail k) (q : IoCsq) (d : IsDocumented q) (i : MapIn) (b : MapBuffers)
    (out_len process irp : ℕ) (m : Machine)
    → Goes
        (λ a n.
          (a.status ≡ status_pending)
          × (acquired r n.trace
                + released r m.trace
                + owned r m.fdo
                + one r (request_irp irp)
                + held_map r b
              ≡ acquired r m.trace + released r n.trace + owned r n.fdo))
        (λ a n. (nt_success a.status ≡ false) × Changes r 0 (held_map r b) m n)
        (map_publish k q i b out_len process irp m)
unfolding map_publish
map_publish-Changes r k checked reliable faults q d i b out_len process irp m = grind (
  arith,
  map_fail12-Changes ℕ r k checked reliable b,
  map_fail12-Changes (Unit {0}) r k checked reliable b,
  insert_irp-total r q d,
  faults.writes,
  faults.locks,
  total-append,
)

-- In a checked build whose asserted calls succeed, whose exceptions carry error codes, and whose
-- IoCsq routines are as documented, every request to map foreign pages ends with every resource
-- accounted for, and with its IRP in the queue exactly if its status says that it is pending.
pub map_foreign_pages-Settled :
    (r : Resource) (k : Kernel) (q : IoCsq) (i : MapIn) (buffer in_len out_len process irp : ℕ)
    (m : Machine)
    → k.dbg ≡ true
    → Reliable k
    → FaultsFail k
    → IsDocumented q
    → Ends
        (Settled r irp m)
        (ioctl_gnttab_map_foreign_pages k q i buffer in_len out_len process irp m)
unfolding ioctl_gnttab_map_foreign_pages
map_foreign_pages-Settled r k q i buffer in_len out_len process irp m checked reliable faults d =
    grind (
      arith,
      capture_or_fail-Changes r k faults buffer in_len m,
      map_checks-Changes r i,
      map_allocate-Changes r k checked reliable i,
      map_publish-Changes r k checked reliable faults q d i,
    )

-- GnttabFreeMap gives back all that the context owns.
pub free_map-Changes :
    (r : Resource) (k : Kernel) (reliable : Reliable k) (c : MapContext) (m : Machine)
    → Goes (λ _ n. Changes r 0 (owned_map r c) m n) (λ _ _. ⊥) (gnttab_free_map k c m)
unfolding gnttab_free_map
free_map-Changes r k reliable c m = grind (
  arith,
  notify_peer-Changes r c.flags c.kernel_va c.notify_offset c.notify_port m,
  reliable.pages_unmapped,
)

-- The request that a look-up finds is a grant.
abbrev pub finds_grant : List Irp → ContextId → Bool
finds_grant l id = elim (peek_from l (some id)) [
  | none ↦ false
  | some i ↦ elim i.context [ grant_context _ ↦ true | map_context _ ↦ false ]
]

-- Where the asserted calls succeed, the IoCsq routines are as documented, IRPs are in the queue
-- once and the ID is not that of a grant, every unmapping ends, not pending, with every resource
-- and the unmapped IRP accounted for.
pub unmap-Completes :
    (r : Resource) (k : Kernel) (q : IoCsq) (request_id in_len out_len process : ℕ) (m : Machine)
    → Reliable k
    → IsDocumented q
    → DistinctIrps m.fdo.irp_list
    → finds_grant m.fdo.irp_list (id_of request_id process) ≡ false
    → Ends
        (Completes r m)
        (ioctl_gnttab_unmap_foreign_pages k q request_id in_len out_len process m)
unfolding ioctl_gnttab_unmap_foreign_pages
unmap-Completes r k q request_id in_len out_len process m reliable d u h = grind (
  arith,
  remove_next_irp_lem q d (id_of request_id process) m,
  total-remove r m.fdo.irp_list (id_of request_id process),
  free_map-Changes r k reliable,
)
