-- ===== src/XenControl/Evtchn.antt =====
-- The event channel functions of src/xencontrol/xencontrol.c.
use qubes_vmm_xen_win_pvdriv.Common.{Bool, Option, if◌then◌else◌, none, some, ℕ}
use qubes_vmm_xen_win_pvdriv.Machine.{Output, out_port}
use qubes_vmm_xen_win_pvdriv.Dispatch.{
  evtchn_bind_interdomain_code, evtchn_bind_unbound_code, evtchn_close_code, evtchn_notify_code,
  evtchn_unmask_code,
}
use qubes_vmm_xen_win_pvdriv.Evtchn.{
  bind_interdomain_in_size, bind_out_size, bind_unbound_in_size, port_in_size,
}
use qubes_vmm_xen_win_pvdriv.XenControl.Session.{Win32, XcRun, XenControl, device_call}

-- `Out.LocalPort`.
abbrev pub local_port_of : {D : Type 0} → Win32 D → Output → Option ℕ
local_port_of w (out_port p) = some p
local_port_of w _ = some w.garbage

-- A function without OUT pointers.
abbrev pub nothing : Output → Option (Unit {0})
nothing _ = none

-- `!!Mask`
abbrev pub mask_byte : Bool → ℕ
mask_byte mask = if mask then 1 else 0

module _ {D : Type 0} (w : Win32 D) where
  unfoldable pub xc_evtchn_bind_unbound :
      (remote_domain event : ℕ) → (mask : Bool) → XenControl D → XcRun D ℕ
  xc_evtchn_bind_unbound remote_domain event mask =
      device_call w (local_port_of w)
        (evtchn_bind_unbound_code
          (record { remote_domain = remote_domain; mask = mask_byte mask; event = event }))
        bind_unbound_in_size bind_out_size

  unfoldable pub xc_evtchn_bind_interdomain :
      (remote_domain remote_port event : ℕ) → (mask : Bool) → XenControl D → XcRun D ℕ
  xc_evtchn_bind_interdomain remote_domain remote_port event mask =
      device_call w (local_port_of w)
        (evtchn_bind_interdomain_code (record {
          remote_domain = remote_domain;
          remote_port = remote_port;
          mask = mask_byte mask;
          event = event;
        }))
        bind_interdomain_in_size bind_out_size

  unfoldable pub xc_evtchn_close : (local_port : ℕ) → XenControl D → XcRun D (Unit {0})
  xc_evtchn_close p = device_call w nothing (evtchn_close_code p) port_in_size 0

  unfoldable pub xc_evtchn_notify : (local_port : ℕ) → XenControl D → XcRun D (Unit {0})
  xc_evtchn_notify p = device_call w nothing (evtchn_notify_code p) port_in_size 0

  unfoldable pub xc_evtchn_unmask : (local_port : ℕ) → XenControl D → XcRun D (Unit {0})
  xc_evtchn_unmask p = device_call w nothing (evtchn_unmask_code p) port_in_size 0
