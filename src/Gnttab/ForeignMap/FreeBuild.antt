-- ===== src/Gnttab/ForeignMap/FreeBuild.antt =====
-- A free build: the failures of a request to map foreign pages do not make the call of
-- UnmapForeignPages that stands inside ASSERT.
use qubes_vmm_xen_win_pvdriv.Common.{[], arith, false, none, suc, ℕ, ◌+◌, ◌<◌, ◌∷◌, ◌≡◌, ◌⊎◌}
use qubes_vmm_xen_win_pvdriv.Machine.{
  Ends, FaultsFail, Goes, Kernel, Machine, Reply, Trace, acquire, foreign_pages, nt_success,
  release,
}
use qubes_vmm_xen_win_pvdriv.UserBuffer.{capture_or_fail}
use qubes_vmm_xen_win_pvdriv.IrpQueue.{IoCsq}
use qubes_vmm_xen_win_pvdriv.Gnttab.ForeignMap.{
  MapIn, ioctl_gnttab_map_foreign_pages, map_allocate, map_checks,
}

-- How often a history has mapped foreign pages, and how often it has unmapped some.
abbrev pub mappings_made : Trace → ℕ
mappings_made [] = 0
mappings_made (acquire (foreign_pages _) ∷ t) = suc (mappings_made t)
mappings_made (_ ∷ t) = mappings_made t

abbrev pub mappings_undone : Trace → ℕ
mappings_undone [] = 0
mappings_undone (release (foreign_pages _) ∷ t) = suc (mappings_undone t)
mappings_undone (_ ∷ t) = mappings_undone t

-- The lists are the same, `made` mappings more were made, and none was undone.
abbrev pub Maps : (made : ℕ) → Machine → Machine → Type 0
Maps made m n =
    (n.fdo ≡ m.fdo)
    × (mappings_made n.trace ≡ mappings_made m.trace + made)
    × (mappings_undone n.trace ≡ mappings_undone m.trace)

-- A failure that has mapped nothing.
abbrev FailsBare : Machine → Reply → Machine → Type 0
FailsBare m a n = (nt_success a.status ≡ false) × Maps 0 m n

-- A failure, which may have left a mapping behind.
abbrev pub Fails : Machine → Reply → Machine → Type 0
Fails m a n = (nt_success a.status ≡ false) × (Maps 0 m n ⊎ Maps 1 m n)

capture-Maps :
    (k : Kernel) (faults : FaultsFail k) (buffer size : ℕ) (m : Machine)
    → 0 < size
    → Goes (λ _ n. Maps 0 m n) (FailsBare m) (capture_or_fail k buffer size m)
unfolding capture_or_fail
capture-Maps k faults buffer size m h = grind (arith, faults.reads)

checks-Maps :
    (i : MapIn) (p in_len expected : ℕ) (m : Machine)
    → Goes (λ _ n. Maps 0 m n) (FailsBare m) (map_checks i p in_len expected m)
unfolding map_checks
checks-Maps i p in_len expected m = grind arith

allocate-Maps :
    (k : Kernel) (i : MapIn) (p process : ℕ) (m : Machine)
    → k.dbg ≡ false
    → ((t : Trace) (address size : ℕ) → k.map_io_space t address size ≡ none)
    → Goes (λ _ _. ⊥) (Fails m) (map_allocate k i p process m)
unfolding map_allocate
allocate-Maps k i p process m free_build unmapped = grind (arith, unmapped)

-- In a free build whose exceptions carry error codes, and on which MmMapIoSpace fails, a request
-- to map foreign pages fails and leaves the lists as they were; either it mapped nothing, or it
-- mapped the pages and did not unmap them.
pub map_free_build :
    (k : Kernel) (q : IoCsq) (i : MapIn) (buffer in_len out_len process irp : ℕ) (m : Machine)
    → k.dbg ≡ false
    → FaultsFail k
    → ((t : Trace) (address size : ℕ) → k.map_io_space t address size ≡ none)
    → Ends (Fails m) (ioctl_gnttab_map_foreign_pages k q i buffer in_len out_len process irp m)
unfolding ioctl_gnttab_map_foreign_pages
map_free_build k q i buffer in_len out_len process irp m free_build faults unmapped =
    grind (arith, capture-Maps k faults buffer in_len m, checks-Maps i, allocate-Maps k i)
