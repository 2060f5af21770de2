-- ===== src/Evtchn/Ledger.antt =====
-- Resources across the handlers of ioctl_evtchn.c.
use qubes_vmm_xen_win_pvdriv.Common.{
  List, Option, [], arith, none, some, total, total-append, ℕ, ◌+◌, ◌∷◌, ◌≡◌,
}
use qubes_vmm_xen_win_pvdriv.Machine.{
  Completes, Ends, EvtchnContext, Kernel, Machine, Resource, owned_evtchn,
}
use qubes_vmm_xen_win_pvdriv.Evtchn.{
  BindInterdomainIn, BindUnboundIn, bind_channel, evtchn_find_channel, evtchn_notify, evtchn_unlink,
  ioctl_evtchn_bind_interdomain, ioctl_evtchn_bind_unbound, ioctl_evtchn_close, ioctl_evtchn_notify,
  ioctl_evtchn_unmask,
}

pub bind_unbound-Completes :
    (r : Resource) (k : Kernel) (i : BindUnboundIn) (in_len out_len file_object : ℕ) (m : Machine)
    → Ends (Completes r m) (ioctl_evtchn_bind_unbound k i in_len out_len file_object m)
unfolding ioctl_evtchn_bind_unbound bind_channel
bind_unbound-Completes r k i in_len out_len file_object m = grind (arith, total-append)

pub bind_interdomain-Completes :
    (r : Resource) (k : Kernel) (i : BindInterdomainIn) (in_len out_len file_object : ℕ)
    (m : Machine)
    → Ends (Completes r m) (ioctl_evtchn_bind_interdomain k i in_len out_len file_object m)
unfolding ioctl_evtchn_bind_interdomain bind_channel
bind_interdomain-Completes r k i in_len out_len file_object m = grind (arith, total-append)

-- What is unlinked is what was found.
pub total-unlink :
    (r : Resource) (l : List EvtchnContext) (port : ℕ) (file : Option ℕ)
    → total (owned_evtchn r) l
      ≡ total (owned_evtchn r) (evtchn_unlink l port file)
        + (elim (evtchn_find_channel l port file) [ none ↦ 0 | some c ↦ owned_evtchn r c ])
unfolding evtchn_find_channel evtchn_unlink
total-unlink r [] port file = omega arith
total-unlink r (c ∷ l) port file = ground (arith, total-unlink r l port file)

pub close-Completes :
    (r : Resource) (port in_len out_len file_object : ℕ) (m : Machine)
    → Ends (Completes r m) (ioctl_evtchn_close port in_len out_len file_object m)
unfolding ioctl_evtchn_close
close-Completes r port in_len out_len file_object m =
    ground (arith, total-unlink r m.fdo.evtchn_list port (some file_object))

pub notify-Completes :
    (r : Resource) (port in_len out_len file_object : ℕ) (m : Machine)
    → Ends (Completes r m) (ioctl_evtchn_notify port in_len out_len file_object m)
unfolding ioctl_evtchn_notify evtchn_notify
notify-Completes r port in_len out_len file_object m = grind arith

pub unmask-Completes :
    (r : Resource) (port in_len out_len file_object : ℕ) (m : Machine)
    → Ends (Completes r m) (ioctl_evtchn_unmask port in_len out_len file_object m)
unfolding ioctl_evtchn_unmask
unmask-Completes r port in_len out_len file_object m = grind arith
