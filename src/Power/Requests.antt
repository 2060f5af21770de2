-- ===== src/Power/Requests.antt =====
-- IRP_MJ_PNP and IRP_MJ_POWER of src/xeniface/fdo.c: FdoDispatchPnp, FdoDispatchPower, and the
-- handlers that the two power threads run. The hand-over to a thread is left out: its handler runs
-- at once.
use qubes_vmm_xen_win_pvdriv.Common.{Bool, if◌then◌else◌, leb, ltb, ℕ, ◌&&◌, ◌==◌}
use qubes_vmm_xen_win_pvdriv.Machine.{Kernel, NtStatus, nt_success}
use qubes_vmm_xen_win_pvdriv.Distribution.{Build}
use qubes_vmm_xen_win_pvdriv.Power.Adapter.{
  Disposition, Platform, Power, adapter, assert_that, completed, device_d0, device_d3, give, go_on,
  halted, on, pass_down, passed_down, system_hibernate, system_sleeping3, ◌>>=◌, ◌>>◌,
}
use qubes_vmm_xen_win_pvdriv.Power.Transitions.{
  d0_to_d3_of_adapter, d3_to_d0_of_adapter, fdo_s3_to_s4, fdo_s4_to_s3,
}
use qubes_vmm_xen_win_pvdriv.Power.Pnp.{
  fdo_cancel_remove_device, fdo_cancel_stop_device, fdo_device_usage_notification,
  fdo_query_capabilities, fdo_query_remove_device, fdo_query_stop_device, fdo_remove_device,
  fdo_start_device, fdo_stop_device, fdo_surprise_removal, set_system,
}

pub data PnpMinor : Type 0 where
  start_device query_stop_device cancel_stop_device stop_device : PnpMinor
  query_remove_device surprise_removal remove_device cancel_remove_device : PnpMinor
  query_capabilities : (capabilities : ℕ → ℕ) → PnpMinor
  device_usage_notification : (type : ℕ) → (in_path : Bool) → PnpMinor
  query_pnp_device_state other_pnp : PnpMinor

-- The minor function of a power IRP, with Parameters.Power.
pub data PowerMinor : Type 0 where
  set_device_power query_device_power : (device_state : ℕ) → PowerMinor
  set_system_power query_system_power : (system_state : ℕ) → PowerMinor
  other_power : PowerMinor

-- PowerActionShutdown of POWER_ACTION.
abbrev pub action_shutdown : ℕ
action_shutdown = 4

-- The status of the IRP in the end.
abbrev pub final_status : Disposition → NtStatus
final_status (completed s) = s
final_status (passed_down s) = s

-- FdoForwardIrpSynchronously, and what follows its success.
abbrev pub forward_or_complete : Platform → (NtStatus → Power Disposition) → Power Disposition
forward_or_complete p go s =
    if nt_success (p.forward s) then go (p.forward s) s else on (completed (p.forward s)) s

module _ (k : Kernel) (b : Build) (p : Platform) where
  unfoldable pub fdo_dispatch_pnp : PnpMinor → Power Disposition
  fdo_dispatch_pnp start_device = fdo_start_device k b p
  fdo_dispatch_pnp query_stop_device = fdo_query_stop_device k b p
  fdo_dispatch_pnp cancel_stop_device = fdo_cancel_stop_device k b p
  fdo_dispatch_pnp stop_device = fdo_stop_device k b p
  fdo_dispatch_pnp query_remove_device = fdo_query_remove_device k b p
  fdo_dispatch_pnp surprise_removal = fdo_surprise_removal k b p
  fdo_dispatch_pnp remove_device = fdo_remove_device k b p
  fdo_dispatch_pnp cancel_remove_device = fdo_cancel_remove_device k b p
  fdo_dispatch_pnp (query_capabilities c) = fdo_query_capabilities k b p c
  fdo_dispatch_pnp (device_usage_notification t i) = fdo_device_usage_notification k b p t i
  fdo_dispatch_pnp query_pnp_device_state = pass_down p
  fdo_dispatch_pnp other_pnp = pass_down p

  unfoldable pub set_device_power_up : (device_state : ℕ) → Power Disposition
  set_device_power_up state = do
    assert_that k λ s. ltb state s.device_power_state
    forward_or_complete p λ _. do
      assert_that k λ _. state == device_d0
      status ← d3_to_d0_of_adapter k b p
      assert_that k λ _. nt_success status
      give (completed status)

  unfoldable pub set_device_power_down : (device_state : ℕ) → Power Disposition
  set_device_power_down state = do
    assert_that k λ s. ltb s.device_power_state state
    assert_that k λ _. state == device_d3
    s ← adapter
    if s.device_power_state == device_d0 then d0_to_d3_of_adapter k b else give tt
    pass_down p

  unfoldable pub fdo_set_device_power : (device_state : ℕ) → Power Disposition
  unfolding set_device_power_up set_device_power_down
  fdo_set_device_power state s =
      if state == s.device_power_state
      then pass_down p s
      else if ltb state s.device_power_state
      then set_device_power_up state s
      else set_device_power_down state s

  -- FdoRequestSetDevicePower: PoRequestPowerIrp sends the IRP to the device's own stack, and the
  -- wait ends with its completion. Where no IRP is sent, the wait has no end.
  unfoldable pub fdo_request_set_device_power : (device_state : ℕ) → Power (Unit {0})
  unfolding fdo_set_device_power
  fdo_request_set_device_power state s =
      if nt_success (p.request_power s)
      then go_on (fdo_set_device_power state s)
          (λ d. assert_that k λ _. nt_success (final_status d))
      else halted

  unfoldable pub set_system_power_up : (system_state : ℕ) → Power Disposition
  unfolding fdo_request_set_device_power
  set_system_power_up state = do
    assert_that k λ s. ltb state s.system_power_state
    forward_or_complete p λ status. do
      s ← adapter
      if ltb state system_hibernate && leb system_hibernate s.system_power_state
          then set_system system_hibernate
          else give tt
      fdo_s4_to_s3 k b
      set_system state
      t ← adapter
      fdo_request_set_device_power (t.lower_capabilities state)
      give (completed status)

  unfoldable pub set_system_power_down : (system_state : ℕ) → Power Disposition
  unfolding fdo_request_set_device_power
  set_system_power_down state = do
    assert_that k λ s. ltb s.system_power_state state
    s ← adapter
    fdo_request_set_device_power (s.lower_capabilities state)
    t ← adapter
    if leb system_hibernate state && ltb t.system_power_state system_hibernate
        then set_system system_sleeping3 >> fdo_s3_to_s4 k b
        else give tt
    set_system state
    pass_down p

  unfoldable pub fdo_set_system_power : (system_state : ℕ) → Power Disposition
  unfolding set_system_power_up set_system_power_down
  fdo_set_system_power state s =
      if state == s.system_power_state
      then pass_down p s
      else if ltb state s.system_power_state
      then set_system_power_up state s
      else set_system_power_down state s

  unfoldable pub fdo_query_device_power : (device_state : ℕ) → Power Disposition
  fdo_query_device_power state s =
      if ltb state s.device_power_state
      then forward_or_complete p (λ status. give (completed status)) s
      else pass_down p s

  -- FdoRequestQueryDevicePower, as above.
  unfoldable pub fdo_request_query_device_power : (device_state : ℕ) → Power (Unit {0})
  unfolding fdo_query_device_power
  fdo_request_query_device_power state s =
      if nt_success (p.request_power s)
      then go_on (fdo_query_device_power state s)
          (λ d. assert_that k λ _. nt_success (final_status d))
      else halted

  unfoldable pub fdo_query_system_power : (system_state : ℕ) → Power Disposition
  unfolding fdo_request_query_device_power
  fdo_query_system_power state s =
      if state == s.system_power_state
      then pass_down p s
      else if ltb state s.system_power_state
      then forward_or_complete p
          (λ status. do
            fdo_request_query_device_power (s.lower_capabilities state)
            give (completed status))
          s
      else (do fdo_request_query_device_power (s.lower_capabilities state); pass_down p) s

  unfoldable pub fdo_dispatch_power : (action : ℕ) → PowerMinor → Power Disposition
  unfolding fdo_set_device_power fdo_set_system_power fdo_query_device_power fdo_query_system_power
  fdo_dispatch_power action other_power = pass_down p
  fdo_dispatch_power action (set_device_power d) =
      if leb action_shutdown action then pass_down p else fdo_set_device_power d
  fdo_dispatch_power action (query_device_power d) =
      if leb action_shutdown action then pass_down p else fdo_query_device_power d
  fdo_dispatch_power action (set_system_power d) =
      if leb action_shutdown action then pass_down p else fdo_set_system_power d
  fdo_dispatch_power action (query_system_power d) =
      if leb action_shutdown action then pass_down p else fdo_query_system_power d
