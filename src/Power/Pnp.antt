-- ===== src/Power/Pnp.antt =====
-- The Plug and Play handlers of src/xeniface/fdo.c, and WmiRegister and WmiDeregister of
-- src/xeniface/wmi.c. FdoDestroy is only recorded, and of IRP_MN_QUERY_PNP_DEVICE_STATE only that
-- it is passed down.
use qubes_vmm_xen_win_pvdriv.Common.{
  Bool, false, if◌then◌else◌, not, true, ℕ, ◌%◌, ◌+◌, ◌-◌, ◌==◌, ◌^◌, ◌||◌,
}
use qubes_vmm_xen_win_pvdriv.Machine.{Kernel, NtStatus, nt_success}
use qubes_vmm_xen_win_pvdriv.Distribution.{Build}
use qubes_vmm_xen_win_pvdriv.Power.Adapter.{
  DevicePnpState, Disposition, Platform, Power, adapter, added, assert_that, attempt, change,
  completed, deleted, device_d0, give, invalid, pass_down, remove_pending, started, stop_pending,
  stopped, surprise_remove_pending, system_hibernate, system_shutdown, system_sleeping3,
  system_working, ◌>>=◌, ◌>>◌,
}
use qubes_vmm_xen_win_pvdriv.Power.Transitions.{
  d0_to_d3_of_adapter, d3_to_d0_of_adapter, fdo_s3_to_s4, fdo_s4_to_s3, passive,
}

-- The value of a DEVICE_PNP_STATE.
abbrev pub pnp_number : DevicePnpState → ℕ
pnp_number invalid = 0
pnp_number added = 1
pnp_number started = 2
pnp_number stop_pending = 3
pnp_number stopped = 4
pnp_number remove_pending = 5
pnp_number surprise_remove_pending = 6
pnp_number deleted = 7

abbrev pub same_pnp : DevicePnpState → DevicePnpState → Bool
same_pnp a b = pnp_number a == pnp_number b

abbrev pub set_system : ℕ → Power (Unit {0})
set_system n = change λ s. record s { system_power_state = n }

-- IoSetDeviceInterfaceState(FALSE), whose result is not looked at.
abbrev pub disable_interface : Power (Unit {0})
disable_interface = change λ s. record s { interface_enabled = false }

unfoldable pub fdo_restore_device_pnp_state : DevicePnpState → Power (Unit {0})
fdo_restore_device_pnp_state state = change λ s. record s {
  device_pnp_state =
      if same_pnp s.device_pnp_state state then s.previous_device_pnp_state else s.device_pnp_state;
}

unfoldable pub wmi_deregister : Power (Unit {0})
wmi_deregister = change λ s. record s { wmi_ready = false }

-- `--Fdo->References`, and FdoDestroy without a reference.
abbrev pub release_reference : Power (Unit {0})
release_reference = change λ s. record s { references = (s.references + (2 ^ 32 - 1)) % 2 ^ 32 }

abbrev pub destroy_unreferenced : Power (Unit {0})
destroy_unreferenced = change λ s. record s { destroyed = s.destroyed || s.references == 0 }

-- DeviceUsageTypeDumpFile is 3.
abbrev pub in_use : (ℕ → ℕ) → Bool
in_use u = not (u 0 == 0) || not (u 1 == 0) || not (u 2 == 0) || not (u 3 == 0)

-- The array with another value at one index.
abbrev pub with_usage : ℕ → ℕ → (ℕ → ℕ) → ℕ → ℕ
with_usage type n u t = if t == type then n else u t

module _ (k : Kernel) (b : Build) (p : Platform) where
  unfoldable pub fdo_set_device_pnp_state : DevicePnpState → Power (Unit {0})
  fdo_set_device_pnp_state state = do
    assert_that k λ s. not (same_pnp s.device_pnp_state deleted) || same_pnp state deleted
    change
        λ s. record s { previous_device_pnp_state = s.device_pnp_state; device_pnp_state = state }

  -- WmiRegister, with what comes behind it and at `fail3`.
  unfoldable pub wmi_register_or :
      {A : Type 0} → (fail : NtStatus → Power A) → (go : Power A) → Power A
  wmi_register_or fail go s =
      if s.wmi_ready
      then go s
      else attempt p.wmi_register (λ t. record t { wmi_ready = true }) fail go s

  -- From PowerSystemSleeping3 to PowerSystemShutdown.
  unfoldable pub to_shutdown : Power (Unit {0})
  to_shutdown = do set_system system_sleeping3; fdo_s3_to_s4 k b; set_system system_shutdown

  -- The labels of FdoStartDevice.
  unfoldable pub start_fail3 : NtStatus → Power Disposition
  unfolding to_shutdown
  start_fail3 status = do to_shutdown; give (completed status)

  unfoldable pub start_fail4 : NtStatus → Power Disposition
  unfolding start_fail3 wmi_deregister
  start_fail4 status = do wmi_deregister; start_fail3 status

  unfoldable pub start_fail5 : NtStatus → Power Disposition
  unfolding start_fail4
  start_fail5 status = do d0_to_d3_of_adapter k b; start_fail4 status

  -- From WmiRegister on; `forwarded` is the status of the forwarded IRP.
  unfoldable pub start_up : (forwarded : NtStatus) → Power Disposition
  unfolding start_fail3 start_fail4 start_fail5 wmi_register_or fdo_set_device_pnp_state
  start_up forwarded = wmi_register_or start_fail3 (do
    status ← d3_to_d0_of_adapter k b p
    if not (nt_success status)
        then start_fail4 status
        else attempt (λ s. p.set_interface_state s true)
            (λ s. record s { interface_enabled = true }) start_fail5
            (do fdo_set_device_pnp_state started; give (completed forwarded)))

  unfoldable pub fdo_start_device : Power Disposition
  unfolding start_up
  fdo_start_device = do
    a ← adapter
    let status : NtStatus = p.forward a
    if not (nt_success status) then give (completed status) else (do
      set_system system_hibernate
      fdo_s4_to_s3 k b
      set_system system_working
      start_up status)

  unfoldable pub fdo_query_stop_device : Power Disposition
  unfolding fdo_set_device_pnp_state
  fdo_query_stop_device = fdo_set_device_pnp_state stop_pending >> pass_down p

  unfoldable pub fdo_cancel_stop_device : Power Disposition
  unfolding fdo_restore_device_pnp_state
  fdo_cancel_stop_device = fdo_restore_device_pnp_state stop_pending >> pass_down p

  unfoldable pub fdo_stop_device : Power Disposition
  unfolding wmi_deregister to_shutdown fdo_set_device_pnp_state
  fdo_stop_device = do
    d0_to_d3_of_adapter k b
    wmi_deregister
    to_shutdown
    fdo_set_device_pnp_state stopped
    pass_down p

  unfoldable pub fdo_query_remove_device : Power Disposition
  unfolding fdo_set_device_pnp_state
  fdo_query_remove_device = fdo_set_device_pnp_state remove_pending >> pass_down p

  unfoldable pub fdo_cancel_remove_device : Power Disposition
  unfolding fdo_restore_device_pnp_state
  fdo_cancel_remove_device = fdo_restore_device_pnp_state remove_pending >> pass_down p

  unfoldable pub fdo_surprise_removal : Power Disposition
  unfolding fdo_set_device_pnp_state wmi_deregister
  fdo_surprise_removal = do
    fdo_set_device_pnp_state surprise_remove_pending
    disable_interface
    wmi_deregister
    pass_down p

  -- The part of FdoRemoveDevice for a device in D0.
  unfoldable pub remove_from_d0 : Power (Unit {0})
  unfolding to_shutdown
  remove_from_d0 = do
    s ← adapter
    if s.device_power_state == device_d0 then d0_to_d3_of_adapter k b >> to_shutdown else give tt

  unfoldable pub fdo_remove_device : Power Disposition
  unfolding remove_from_d0 fdo_set_device_pnp_state wmi_deregister
  fdo_remove_device = do
    assert_that k passive
    remove_from_d0
    fdo_set_device_pnp_state deleted
    disable_interface
    wmi_deregister
    d ← pass_down p
    assert_that k λ s. not (s.references == 0)
    release_reference
    destroy_unreferenced
    give d

  -- `capabilities` is what the lower driver left in the IRP.
  unfoldable pub fdo_query_capabilities : (capabilities : ℕ → ℕ) → Power Disposition
  fdo_query_capabilities capabilities = do
    a ← adapter
    let status : NtStatus = p.forward a
    if not (nt_success status) then give (completed status) else (do
      change λ s. record s { lower_capabilities = capabilities }
      give (completed status))

  unfoldable pub fdo_device_usage_notification : (type : ℕ) → (in_path : Bool) → Power Disposition
  fdo_device_usage_notification type in_path = do
    assert_that k λ s. in_path || not (s.usage type == 0)
    change λ s. record s {
      usage =
          with_usage type
            (if in_path
              then (s.usage type + 1) % 2 ^ 32
              else (s.usage type + (2 ^ 32 - 1)) % 2 ^ 32)
            s.usage;
    }
    a ← adapter
    let status : NtStatus = p.forward a
    if not (nt_success status)
        then give (completed status)
        else (do change λ s. record s { not_disableable = in_use s.usage }; give (completed status))
