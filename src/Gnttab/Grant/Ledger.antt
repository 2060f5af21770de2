-- ===== src/Gnttab/Grant/Ledger.antt =====
-- Resources across a grant: what a request acquires, and what each failure gives back. In a checked reliable
-- build ASSERT makes the calls that it wraps.
use qubes_vmm_xen_win_pvdriv.Common.{
  List, [], arith, false, suc, total-append, true, zero, ℕ, ◌++◌, ◌+◌, ◌∷◌, ◌≡◌, ◌⊎◌, ◌<◌, ◌≤◌, ◌≢◌,
}
use qubes_vmm_xen_win_pvdriv.Machine.{
  Answer, Changes, Ends, FaultsFail, Goes, Irp, Kernel, Machine, NtStatus, Reliable, Resource,
  Settled, acquired, mdl_memory, nt_success, one, owned, owned_entries, pool, released, request_irp,
  status_pending,
}
use qubes_vmm_xen_win_pvdriv.IrpQueue.{IoCsq, IsDocumented, insert_irp}
use qubes_vmm_xen_win_pvdriv.Gnttab.Grant.{
  PermitBuffers, PermitIn, ioctl_gnttab_permit_foreign_access, permit_allocate, permit_checks,
  permit_fail11, permit_pages, permit_publish, revoke_granted,
}
use qubes_vmm_xen_win_pvdriv.Gnttab.Pages.{max_pages, size_in_bytes}
use qubes_vmm_xen_win_pvdriv.UserBuffer.Ledger.{capture_or_fail-Changes}

-- A command that only gives back: it goes on with `loss` less.
revoke_granted-Changes :
    (r : Resource) (k : Kernel) (checked : k.dbg ≡ true) (reliable : Reliable k) (granted : List ℕ)
    (m : Machine)
    → Goes
        (λ _ n. Changes r 0 (owned_entries r granted) m n)
        (λ _ _. ⊥)
        (revoke_granted k granted m)
unfolding revoke_granted
revoke_granted-Changes r k checked reliable [] m = ground arith
revoke_granted-Changes r k checked reliable (e ∷ es) m =
    grind (arith, revoke_granted-Changes r k checked reliable es m, reliable.access_revoked)

-- What a request holds once the MDL is there.
abbrev held : Resource → PermitBuffers → ℕ
held r b =
    one r (pool b.captured_in)
    + one r (pool b.context)
    + one r (pool b.grants)
    + one r (pool b.kernel_va)
    + one r (mdl_memory b.mdl)

fail11-Changes :
    (A : Type 0) (r : Resource) (k : Kernel) (checked : k.dbg ≡ true) (reliable : Reliable k)
    (b : PermitBuffers) (granted : List ℕ) (s : NtStatus) (m : Machine)
    → nt_success s ≡ false
    → Goes
        (λ _ _. ⊥)
        (λ a n.
          (nt_success a.status ≡ false) × Changes r 0 (held r b + owned_entries r granted) m n)
        (permit_fail11 {A = A} k b granted s m)
unfolding permit_fail11
fail11-Changes A r k checked reliable b granted s m h =
    grind (arith, revoke_granted-Changes r k checked reliable granted m)

permit_pages-Changes :
    (r : Resource) (k : Kernel) (checked : k.dbg ≡ true) (reliable : Reliable k) (i : PermitIn)
    (b : PermitBuffers) (page remaining : ℕ) (granted : List ℕ) (m : Machine)
    → page + remaining ≡ i.number_pages
    → i.number_pages < max_pages
    → Goes
        (λ g n.
          (n.fdo ≡ m.fdo)
          × (acquired r n.trace + released r m.trace + owned_entries r granted
              ≡ acquired r m.trace + released r n.trace + owned_entries r g))
        (λ a n.
          (nt_success a.status ≡ false) × Changes r 0 (held r b + owned_entries r granted) m n)
        (permit_pages k i b page remaining granted m)
unfolding permit_pages size_in_bytes
permit_pages-Changes r k checked reliable i b page zero granted m e l = ground arith
permit_pages-Changes r k checked reliable i b page (suc n) granted m e l = grind (
  arith,
  fail11-Changes (Answer ℕ) r k checked reliable b granted,
  permit_pages-Changes r k checked reliable i b (page + 1) n,
  e,
  l,
  total-append,
)

permit_allocate-Changes :
    (r : Resource) (k : Kernel) (i : PermitIn) (p process : ℕ) (m : Machine)
    → Goes
        (λ b n.
          (n.fdo ≡ m.fdo)
          × (acquired r n.trace + released r m.trace + one r (pool p)
              ≡ acquired r m.trace + released r n.trace + held r b))
        (λ a n. (nt_success a.status ≡ false) × Changes r 0 (one r (pool p)) m n)
        (permit_allocate k i p process m)
unfolding permit_allocate
permit_allocate-Changes r k i p process m = grind arith

permit_checks-Changes :
    (r : Resource) (i : PermitIn) (p out_len : ℕ) (m : Machine)
    → Goes
        (λ _ n. (n ≡ m) × (i.number_pages ≤ max_pages))
        (λ a n. (nt_success a.status ≡ false) × Changes r 0 (one r (pool p)) m n)
        (permit_checks i p out_len m)
unfolding permit_checks
permit_checks-Changes r i p out_len m = grind arith

-- An insertion either appends the IRP or fails and changes nothing.
pub insert_irp-total :
    (r : Resource) (q : IoCsq) (d : IsDocumented q) (i : Irp) (m : Machine)
    → Goes
        (λ s n.
          (n.trace ≡ m.trace)
          × (((nt_success s ≡ true)
                × (n.fdo ≡ record m.fdo { irp_list = m.fdo.irp_list ++ i ∷ [] }))
              ⊎ ((nt_success s ≡ false) × (n.fdo ≡ m.fdo))))
        (λ _ _. ⊥)
        (insert_irp q i m)
unfolding insert_irp
insert_irp-total r q d i m = rw (d.inserts) (ground arith)

permit_publish-Changes :
    (r : Resource) (k : Kernel) (checked : k.dbg ≡ true) (reliable : Reliable k)
    (faults : FaultsFail k) (q : IoCsq) (d : IsDocumented q) (i : PermitIn) (b : PermitBuffers)
    (granted : List ℕ) (out_len process irp : ℕ) (m : Machine)
    → Goes
        (λ a n.
          (a.status ≡ status_pending)
          × (acquired r n.trace
                + released r m.trace
                + owned r m.fdo
                + one r (request_irp irp)
                + held r b
                + owned_entries r granted
              ≡ acquired r m.trace + released r n.trace + owned r n.fdo))
        (λ a n.
          (nt_success a.status ≡ false) × Changes r 0 (held r b + owned_entries r granted) m n)
        (permit_publish k q i b granted out_len process irp m)
unfolding permit_publish
permit_publish-Changes r k checked reliable faults q d i b granted out_len process irp m = grind (
  arith,
  fail11-Changes ℕ r k checked reliable b granted,
  fail11-Changes (List ℕ) r k checked reliable b granted,
  fail11-Changes (Unit {0}) r k checked reliable b granted,
  insert_irp-total r q d,
  faults.writes,
  faults.locks,
  total-append,
)

-- In a checked build whose asserted calls succeed, whose exceptions carry error codes, and whose
-- IoCsq routines are as documented, every request to share pages, but for one of 2 ^ 20 pages,
-- ends with every resource accounted for: a failure gave back everything it acquired, and a
-- request that is pending, and no other, owns the rest and its IRP through the queue.
pub permit_foreign_access-Settled :
    (r : Resource) (k : Kernel) (q : IoCsq) (i : PermitIn) (buffer in_len out_len process irp : ℕ)
    (m : Machine)
    → k.dbg ≡ true
    → Reliable k
    → FaultsFail k
    → IsDocumented q
    → i.number_pages ≢ max_pages
    → Ends
        (Settled r irp m)
        (ioctl_gnttab_permit_foreign_access k q i buffer in_len out_len process irp m)
unfolding ioctl_gnttab_permit_foreign_access
permit_foreign_access-Settled r k q i buffer in_len out_len process irp m checked reliable faults d
      u =
    grind (
      arith,
      capture_or_fail-Changes r k faults buffer in_len m,
      permit_checks-Changes r i,
      permit_allocate-Changes r k i,
      permit_pages-Changes r k checked reliable i,
      u,
      permit_publish-Changes r k checked reliable faults q d i,
    )
