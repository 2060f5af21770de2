-- ===== src/Examples/Power.antt =====
-- A device object in D3, in D0 and on the way, on the platform of the examples.
use qubes_vmm_xen_win_pvdriv.Ansi.{prepended, upcase_strings}
use qubes_vmm_xen_win_pvdriv.Common.{
  Bool, [], arith, false, if◌then◌else◌, refl, some, true, ℕ, ◌==◌, ◌∷◌, ◌≡◌,
}
use qubes_vmm_xen_win_pvdriv.Machine.{
  NtStatus, event_object, nt_success, status_success, status_unsuccessful,
}
use qubes_vmm_xen_win_pvdriv.Distribution.{Build, announcement, fdo_match_distribution}
use qubes_vmm_xen_win_pvdriv.Distribution.Announcement.{match-announcement}
use qubes_vmm_xen_win_pvdriv.Distribution.Ledger.{DirectoriesFit}
use qubes_vmm_xen_win_pvdriv.Power.Adapter.{
  Adapter, Platform, added, device_d0, device_d3, halted, passed_down, started, stop_pending,
  system_sleeping3, system_working,
}
use qubes_vmm_xen_win_pvdriv.Power.Transitions.{d3_to_d0_acquired}
use qubes_vmm_xen_win_pvdriv.Power.Balance.{Down, Lands, each}
use qubes_vmm_xen_win_pvdriv.Power.Sessions.{ArrivesWith, fdo_d3_to_d0, fdo_d3_to_d0-Arrives}
use qubes_vmm_xen_win_pvdriv.Examples.Wmi.{stopped, wmi}
use qubes_vmm_xen_win_pvdriv.Power.Pnp.{fdo_query_stop_device, fdo_set_device_pnp_state}
use qubes_vmm_xen_win_pvdriv.Power.Requests.{
  PnpMinor, PowerMinor, fdo_dispatch_pnp, fdo_dispatch_power, fdo_set_system_power,
  query_stop_device,
}
use qubes_vmm_xen_win_pvdriv.Power.Failures.{d3_to_d0-stale_flag, wake_from_sleep-halts}
use qubes_vmm_xen_win_pvdriv.Power.Keeping.{Balanced}
use qubes_vmm_xen_win_pvdriv.Power.Histories.{
  IsUse, PowerReach, PowerReach-Balanced, after_irp, at_start, pnp_irp,
}
use qubes_vmm_xen_win_pvdriv.Examples.{granted, kernel, kernel-Reliable, machine}

-- The vendor "X Ltd".
abbrev build : Build
build = record {
  vendor = b'X' ∷ b' ' ∷ b'L' ∷ b't' ∷ b'd' ∷ [];
  version = b'8' ∷ b'.' ∷ b'0' ∷ [];
  attributes = [];
  short = omega arith;
}

kernel-DirectoriesFit : DirectoriesFit kernel
unfolding upcase_strings prepended
kernel-DirectoriesFit = record { fits = λ t path. (omega arith, (omega arith, tt)) }

abbrev platform_of : (registered : NtStatus) → Platform
platform_of registered = record {
  forward = λ _. status_success;
  call_driver = λ _. status_success;
  acquire_store = λ _. status_success;
  acquire_evtchn = λ _. status_success;
  acquire_gnttab = λ _. status_success;
  acquire_suspend = λ _. status_success;
  acquire_shared_info = λ _. status_success;
  register_late = λ _. record { status = registered; out = 41 };
  create_cache = λ _. granted 42;
  set_interface_state = λ _ _. status_success;
  wmi_register = λ _. status_success;
  request_power = λ _. status_success;
}

abbrev adapter_in : (device_state system_state held : ℕ) → (raised : Bool) → Adapter
adapter_in d n held raised = record {
  device_pnp_state = started;
  previous_device_pnp_state = added;
  system_power_state = n;
  device_power_state = d;
  interfaces = each held;
  suspend_callback_late = some 41;
  callbacks = if d == device_d0 then 1 else 0;
  gnttab_cache = some 42;
  caches = if d == device_d0 then 1 else 0;
  raised = raised;
  wmi_ready = true;
  interface_enabled = true;
  lower_capabilities = λ n. if n == system_working then device_d0 else device_d3;
  usage = λ _. 0;
  not_disableable = false;
  references = 1;
  destroyed = false;
  machine = machine;
}

abbrev device_in_d3 : Adapter
device_in_d3 = adapter_in device_d3 system_sleeping3 0 false

abbrev device_in_d0 : Adapter
device_in_d0 = adapter_in device_d0 system_working 1 false

device_in_d3-Down : Down device_in_d3
device_in_d3-Down = record {
  in_d3 = refl;
  none_held = refl;
  no_callback = refl;
  no_cache = refl;
  at_passive = refl;
}

fdo_d3_to_d0_example :
    Lands
      (ArrivesWith (event_object 12) stopped device_in_d3)
      (fdo_d3_to_d0 kernel build (platform_of status_success) wmi stopped device_in_d3)
fdo_d3_to_d0_example =
    fdo_d3_to_d0-Arrives (event_object 12) kernel build (platform_of status_success) wmi stopped
      device_in_d3 kernel-DirectoriesFit ((refl, tt), tt) device_in_d3-Down

-- A query to stop, and its cancellation.
abbrev stopping : Adapter
stopping = record device_in_d3 {
  device_pnp_state = stop_pending;
  previous_device_pnp_state = started;
}

asked_to_stop : PowerReach kernel build (platform_of status_success) device_in_d3 stopping
unfolding fdo_dispatch_pnp fdo_query_stop_device fdo_set_device_pnp_state
asked_to_stop = after_irp at_start (pnp_irp query_stop_device (passed_down status_success) refl)

PowerReach_example :
    Balanced stopping
    × ((minor : PnpMinor)
        → IsUse (fdo_dispatch_pnp kernel build (platform_of status_success) minor stopping))
    × ((action : ℕ) (minor : PowerMinor)
        → IsUse
            (fdo_dispatch_power kernel build (platform_of status_success) action minor stopping))
PowerReach_example =
    PowerReach-Balanced kernel build (platform_of status_success) device_in_d3 stopping refl
      kernel-DirectoriesFit kernel-Reliable device_in_d3-Down asked_to_stop

abbrev all_acquired : Adapter
all_acquired = adapter_in device_d3 system_sleeping3 1 true

stale_flag_example :
    Lands
      (λ a t. (nt_success a ≡ false) × Down t × (t.machine.fdo.interfaces_acquired ≡ true))
      (d3_to_d0_acquired kernel build (platform_of status_unsuccessful) all_acquired)
stale_flag_example =
    d3_to_d0-stale_flag kernel build (platform_of status_unsuccessful) all_acquired
      kernel-DirectoriesFit
      (record {
        in_d3 = refl;
        one_each = refl;
        no_callback = refl;
        no_cache = refl;
        at_dispatch = refl;
      })
      (λ _. refl)

wake_from_sleep_example :
    fdo_set_system_power kernel build (platform_of status_success) system_working device_in_d3
    ≡ halted
wake_from_sleep_example =
    wake_from_sleep-halts kernel build (platform_of status_success) system_working device_in_d3 refl
      (omega arith) (omega arith) refl

match-announcement_example : fdo_match_distribution build (announcement build) ≡ true
match-announcement_example = match-announcement build (omega arith)
