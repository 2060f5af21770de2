-- ===== src/Suspend/Ledger.antt =====
-- Resources across the handlers of ioctl_suspend.c.
use qubes_vmm_xen_win_pvdriv.Common.{arith, total-append, ℕ}
use qubes_vmm_xen_win_pvdriv.Machine.{Completes, Ends, Kernel, Machine, Resource, Synchronous}
use qubes_vmm_xen_win_pvdriv.Suspend.{ioctl_suspend_get_count, ioctl_suspend_register}

pub register-Completes :
    (r : Resource) (k : Kernel) (sync : Synchronous k) (event in_len out_len file_object : ℕ)
    (m : Machine)
    → Ends (Completes r m) (ioctl_suspend_register k event in_len out_len file_object m)
unfolding ioctl_suspend_register
register-Completes r k sync event in_len out_len file_object m =
    grind (arith, total-append, sync.references)

pub get_count-Completes :
    (r : Resource) (k : Kernel) (in_len out_len : ℕ) (m : Machine)
    → Ends (Completes r m) (ioctl_suspend_get_count k in_len out_len m)
unfolding ioctl_suspend_get_count
get_count-Completes r k in_len out_len m = grind arith
