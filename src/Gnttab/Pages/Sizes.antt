-- ===== src/Gnttab/Pages/Sizes.antt =====
-- Sizes in ULONG arithmetic.
use qubes_vmm_xen_win_pvdriv.Common.{arith, false, true, ℕ, ◌*◌, ◌<◌, ◌^◌, ◌≡◌, ◌≤◌, ◌⊎◌}
use qubes_vmm_xen_win_pvdriv.Gnttab.Pages.{
  bad_notify_offset, max_pages, size_in_bytes, use_notify_offset,
}

-- Up to the limit that the handlers check, the size of an allocation is that of the pages, except
-- at the limit itself, where it wraps to 0.
pub size_in_bytes_lem :
    (pages : ℕ)
    → pages ≤ max_pages
    → ((pages < 2 ^ 20) × (size_in_bytes pages ≡ pages * 4096))
      ⊎ ((pages ≡ 2 ^ 20) × (size_in_bytes pages ≡ 0))
unfolding size_in_bytes
size_in_bytes_lem pages h = ground arith

-- A notify offset that is used and passes the test of the handlers lies inside the allocation.
pub notify_offset-lt-size :
    (flags offset pages : ℕ)
    → bad_notify_offset flags offset pages ≡ false
    → use_notify_offset flags ≡ true
    → offset < size_in_bytes pages
unfolding bad_notify_offset
notify_offset-lt-size flags offset pages h u = ground arith
