-- ===== src/Examples/Channels.antt =====
-- The event channel handlers on the device of the examples.
use qubes_vmm_xen_win_pvdriv.Common.{
  [], false, keep, length, not, some, true, ◌%◌, ◌+◌, ◌/◌, ◌==◌, ◌^◌, ◌∷◌, ◌≡◌, ◌⊎◌,
}
use qubes_vmm_xen_win_pvdriv.Machine.{
  Conserves, Ends, evtchn_channel, status_not_found, status_success,
}
use qubes_vmm_xen_win_pvdriv.Examples.{channel, kernel, machine}
use qubes_vmm_xen_win_pvdriv.Evtchn.{
  BindInterdomainIn, BindUnboundIn, ioctl_evtchn_bind_unbound, ioctl_evtchn_close,
}
use qubes_vmm_xen_win_pvdriv.Evtchn.Binding.{Bound, bind_unbound_lem}
use qubes_vmm_xen_win_pvdriv.Evtchn.Channels.{close_lem, has_channel}

close_example :
    Ends
      (λ a n.
        Conserves (evtchn_channel 111) machine n
        × (((a.status ≡ status_success)
              × (has_channel machine.fdo.evtchn_list 31 (some 7) ≡ true)
              × (2 ≡ length n.fdo.evtchn_list + 1)
              × (keep (λ c. not (c.file_object == 7)) n.fdo.evtchn_list ≡ channel 120 32 8 ∷ []))
            ⊎ ((a.status ≡ status_not_found)
                × (has_channel machine.fdo.evtchn_list 31 (some 7) ≡ false)
                × (n ≡ machine))))
      (ioctl_evtchn_close 31 4 0 7 machine)
close_example = close_lem (evtchn_channel 111) 31 7 machine

abbrev interdomain_in : BindInterdomainIn
interdomain_in = record { remote_domain = 1; remote_port = 20; mask = 1; event = 9 }

abbrev unbound_in : BindUnboundIn
unbound_in = record { remote_domain = 1; mask = 1; event = 9 }

bind_unbound_example :
    Ends
      (Bound (λ c. c.local_port / 2 ^ 16 % 2 ^ 8 == 0) 7 machine)
      (ioctl_evtchn_bind_unbound kernel unbound_in 16 4 7 machine)
bind_unbound_example = bind_unbound_lem kernel unbound_in 7 machine
