-- ===== src/UserBuffer/Ledger.antt =====
-- Resources across the capture of a user's buffer.
use qubes_vmm_xen_win_pvdriv.Common.{arith, false, ℕ, ◌<◌, ◌≡◌}
use qubes_vmm_xen_win_pvdriv.Machine.{
  Changes, FaultsFail, Goes, Kernel, Machine, Resource, nt_success, one, pool,
}
use qubes_vmm_xen_win_pvdriv.UserBuffer.{capture_or_fail}

-- Where exceptions carry error codes, a capture of at least one byte either holds one new buffer,
-- or ends the handler with a failure and nothing held.
pub capture_or_fail-Changes :
    (r : Resource) (k : Kernel) (faults : FaultsFail k) (buffer size : ℕ) (m : Machine)
    → 0 < size
    → Goes
        (λ p n. Changes r (one r (pool p)) 0 m n)
        (λ a n. (nt_success a.status ≡ false) × Changes r 0 0 m n)
        (capture_or_fail k buffer size m)
unfolding capture_or_fail
capture_or_fail-Changes r k faults buffer size m h = grind (arith, faults.reads)
