-- ===== src/Misc/Ledger.antt =====
-- Resources across the handlers of the shared information and of the log: there are none.
use qubes_vmm_xen_win_pvdriv.Common.{List, arith, ℕ}
use qubes_vmm_xen_win_pvdriv.Machine.{Completes, Ends, Kernel, Machine, Resource}
use qubes_vmm_xen_win_pvdriv.Misc.{ioctl_log, ioctl_shared_info_get_time}

pub get_time-Completes :
    (r : Resource) (k : Kernel) (in_len out_len : ℕ) (m : Machine)
    → Ends (Completes r m) (ioctl_shared_info_get_time k in_len out_len m)
unfolding ioctl_shared_info_get_time
get_time-Completes r k in_len out_len m = grind arith

pub log-Completes :
    (r : Resource) (buffer : List ℕ) (out_len : ℕ) (m : Machine)
    → Ends (Completes r m) (ioctl_log buffer out_len m)
unfolding ioctl_log
log-Completes r buffer out_len m = grind arith
