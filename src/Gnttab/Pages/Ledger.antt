-- ===== src/Gnttab/Pages/Ledger.antt =====
-- The notification of the peer holds and gives back nothing.
use qubes_vmm_xen_win_pvdriv.Common.{arith, ℕ}
use qubes_vmm_xen_win_pvdriv.Machine.{Changes, Goes, Machine, Resource}
use qubes_vmm_xen_win_pvdriv.Gnttab.Pages.{notify_peer}

pub notify_peer-Changes :
    (r : Resource) (flags kernel_va offset port : ℕ) (m : Machine)
    → Goes (λ _ n. Changes r 0 0 m n) (λ _ _. ⊥) (notify_peer flags kernel_va offset port m)
unfolding notify_peer
notify_peer-Changes r flags kernel_va offset port m = grind arith
