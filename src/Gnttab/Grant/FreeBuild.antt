-- ===== src/Gnttab/Grant/FreeBuild.antt =====
-- A free build: ASSERT does not evaluate its argument, so the failures of a request do not make the
-- calls of RevokeForeignAccess that stand inside ASSERT.
use qubes_vmm_xen_win_pvdriv.Common.{
  Bool, List, [], arith, false, none, refl, suc, true, zero, ℕ, ◌+◌, ◌<◌, ◌∷◌, ◌≡◌, ◌⊎◌, ◌≤◌, ◌≢◌,
}
use qubes_vmm_xen_win_pvdriv.Machine.{
  Ends, FaultsFail, Goes, Kernel, Machine, Reply, Trace, acquire, grant_entry, nt_success, ok,
  release, value,
}
use qubes_vmm_xen_win_pvdriv.UserBuffer.{capture_or_fail}
use qubes_vmm_xen_win_pvdriv.Gnttab.Pages.{max_pages, size_in_bytes}
use qubes_vmm_xen_win_pvdriv.IrpQueue.{IoCsq}
use qubes_vmm_xen_win_pvdriv.Gnttab.Grant.{
  PermitBuffers, PermitIn, ioctl_gnttab_permit_foreign_access, permit_allocate, permit_checks,
  permit_fail11, permit_pages, permit_publish, revoke_granted,
}

-- How many page grants a history has made, and how many it has revoked.
abbrev pub grants_made : Trace → ℕ
grants_made [] = 0
grants_made (acquire (grant_entry _) ∷ t) = suc (grants_made t)
grants_made (_ ∷ t) = grants_made t

abbrev pub grants_revoked : Trace → ℕ
grants_revoked [] = 0
grants_revoked (release (grant_entry _) ∷ t) = suc (grants_revoked t)
grants_revoked (_ ∷ t) = grants_revoked t

-- The lists are the same, `made` pages more were granted, and none was revoked.
abbrev pub Grants : (made : ℕ) → Machine → Machine → Type 0
Grants made m n =
    (n.fdo ≡ m.fdo)
    × (grants_made n.trace ≡ grants_made m.trace + made)
    × (grants_revoked n.trace ≡ grants_revoked m.trace)

-- A failure that has granted nothing.
abbrev FailsBare : Machine → Reply → Machine → Type 0
FailsBare m a n = (nt_success a.status ≡ false) × Grants 0 m n

capture-Grants :
    (k : Kernel) (faults : FaultsFail k) (buffer size : ℕ) (m : Machine)
    → 0 < size
    → Goes (λ _ n. Grants 0 m n) (FailsBare m) (capture_or_fail k buffer size m)
unfolding capture_or_fail
capture-Grants k faults buffer size m h = grind (arith, faults.reads)

checks-Grants :
    (i : PermitIn) (p out_len : ℕ) (m : Machine)
    → Goes
        (λ _ n. Grants 0 m n × (i.number_pages ≤ max_pages))
        (FailsBare m)
        (permit_checks i p out_len m)
unfolding permit_checks
checks-Grants i p out_len m = grind arith

allocate-Grants :
    (k : Kernel) (i : PermitIn) (p process : ℕ) (m : Machine)
    → Goes (λ _ n. Grants 0 m n) (FailsBare m) (permit_allocate k i p process m)
unfolding permit_allocate
allocate-Grants k i p process m = grind arith

pages-Grants :
    (k : Kernel)
    → ((t : Trace) (domain pfn : ℕ) (readonly : Bool)
        → nt_success (k.permit_foreign_access t domain pfn readonly).status ≡ true)
    → (i : PermitIn) (b : PermitBuffers) (page remaining : ℕ) (granted : List ℕ) (m : Machine)
    → page + remaining ≡ i.number_pages
    → i.number_pages < max_pages
    → Goes (λ _ n. Grants remaining m n) (λ _ _. ⊥) (permit_pages k i b page remaining granted m)
unfolding permit_pages size_in_bytes
pages-Grants k good i b page zero granted m e l = ground arith
pages-Grants k good i b page (suc n) granted m e l =
    grind (arith, good, pages-Grants k good i b (page + 1) n, e, l)

revoke_granted_free :
    (k : Kernel) (granted : List ℕ) (m : Machine)
    → k.dbg ≡ false
    → revoke_granted k granted m ≡ ok tt m
unfolding revoke_granted
revoke_granted_free k [] m h = refl
revoke_granted_free k (e ∷ es) m h = ground (arith, revoke_granted_free k es m h)

publish-Grants :
    (k : Kernel) (q : IoCsq) (i : PermitIn) (b : PermitBuffers) (granted : List ℕ)
    (out_len process irp : ℕ) (m : Machine)
    → k.dbg ≡ false
    → k.map_locked_pages m.trace b.mdl ≡ value none
    → Goes (λ _ _. ⊥) (FailsBare m) (permit_publish k q i b granted out_len process irp m)
unfolding permit_publish permit_fail11
publish-Grants k q i b granted out_len process irp m h e =
    grind (arith, revoke_granted_free k granted)

-- In a free build whose exceptions carry error codes, and on which pages can be granted and
-- cannot be mapped into user mode, a request to share pages, but for one of 2 ^ 20 pages, fails and leaves the lists as they
-- were; either it granted no page, or it granted all the pages and revoked none of them.
pub permit_free_build :
    (k : Kernel) (q : IoCsq) (i : PermitIn) (buffer in_len out_len process irp : ℕ) (m : Machine)
    → k.dbg ≡ false
    → FaultsFail k
    → ((t : Trace) (domain pfn : ℕ) (readonly : Bool)
        → nt_success (k.permit_foreign_access t domain pfn readonly).status ≡ true)
    → ((t : Trace) (mdl : ℕ) → k.map_locked_pages t mdl ≡ value none)
    → i.number_pages ≢ max_pages
    → Ends
        (λ a n. (nt_success a.status ≡ false) × (Grants 0 m n ⊎ Grants i.number_pages m n))
        (ioctl_gnttab_permit_foreign_access k q i buffer in_len out_len process irp m)
unfolding ioctl_gnttab_permit_foreign_access
permit_free_build k q i buffer in_len out_len process irp m h faults good unmapped u = grind (
  arith,
  capture-Grants k faults buffer in_len m,
  checks-Grants i,
  allocate-Grants k i,
  pages-Grants k good i,
  publish-Grants k q i,
  unmapped,
  u,
)
