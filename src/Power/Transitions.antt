-- ===== src/Power/Transitions.antt =====
-- FdoD3ToD0, FdoD0ToD3, the suspend callback and the two system transitions of
-- src/xeniface/fdo.c.
use qubes_vmm_xen_win_pvdriv.Common.{
  Bool, false, if◌then◌else◌, none, not, some, suc, true, zero, ℕ, ◌&&◌, ◌==◌,
}
use qubes_vmm_xen_win_pvdriv.Machine.{Kernel, NtStatus, nt_success, status_success}
use qubes_vmm_xen_win_pvdriv.Cleanup.{xen_iface_cleanup}
use qubes_vmm_xen_win_pvdriv.Suspend.{suspend_event_fire}
use qubes_vmm_xen_win_pvdriv.Distribution.{Build, fdo_clear_distribution, fdo_set_distribution}
use qubes_vmm_xen_win_pvdriv.Power.Adapter.{
  Adapter, Platform, Power, Turn, misused, on, assert_that, attempt, change, device_d0, device_d3,
  give, perform, set_acquired, set_interfaces, system_hibernate, system_sleeping3, ◌>>=◌, ◌>>◌,
}

-- What is given back must be held.
abbrev pub given_back : (held : ℕ) → (left : ℕ → Adapter) → Turn (Unit {0})
given_back zero left = misused
given_back (suc n) left = on tt (left n)

-- XENBUS_...(Acquire) and XENBUS_...(Release) of each interface.
abbrev pub take_store : Adapter → Adapter
take_store = set_interfaces λ i. record i { store = suc i.store }

abbrev pub take_evtchn : Adapter → Adapter
take_evtchn = set_interfaces λ i. record i { evtchn = suc i.evtchn }

abbrev pub take_gnttab : Adapter → Adapter
take_gnttab = set_interfaces λ i. record i { gnttab = suc i.gnttab }

abbrev pub take_suspend : Adapter → Adapter
take_suspend = set_interfaces λ i. record i { suspend = suc i.suspend }

abbrev pub take_shared_info : Adapter → Adapter
take_shared_info = set_interfaces λ i. record i { shared_info = suc i.shared_info }

abbrev pub drop_store : Power (Unit {0})
drop_store s = given_back s.interfaces.store λ n. set_interfaces (λ i. record i { store = n }) s

abbrev pub drop_evtchn : Power (Unit {0})
drop_evtchn s = given_back s.interfaces.evtchn λ n. set_interfaces (λ i. record i { evtchn = n }) s

abbrev pub drop_gnttab : Power (Unit {0})
drop_gnttab s = given_back s.interfaces.gnttab λ n. set_interfaces (λ i. record i { gnttab = n }) s

abbrev pub drop_suspend : Power (Unit {0})
drop_suspend s =
    given_back s.interfaces.suspend λ n. set_interfaces (λ i. record i { suspend = n }) s

abbrev pub drop_shared_info : Power (Unit {0})
drop_shared_info s =
    given_back s.interfaces.shared_info λ n. set_interfaces (λ i. record i { shared_info = n }) s

-- KeRaiseIrql to DISPATCH_LEVEL and KeLowerIrql, from and to PASSIVE_LEVEL.
abbrev pub raise_irql : Power (Unit {0})
raise_irql = change λ s. record s { raised = true }

abbrev pub lower_irql : Power (Unit {0})
lower_irql = change λ s. record s { raised = false }

abbrev pub passive : Adapter → Bool
passive s = not s.raised

abbrev pub at_device : ℕ → Adapter → Bool
at_device d s = s.device_power_state == d

module _ (k : Kernel) (b : Build) where
  -- __FdoD3ToD0 and __FdoD0ToD3: at DISPATCH_LEVEL.
  unfoldable pub enter_d0 : Power NtStatus
  enter_d0 = do
    assert_that k λ s. s.raised
    _ ← perform (fdo_set_distribution k b)
    give status_success

  unfoldable pub leave_d0 : Power (Unit {0})
  leave_d0 = do assert_that k λ s. s.raised; perform (fdo_clear_distribution k b)

  -- FdoSuspendCallbackLate, but for WmiFireSuspendEvent.
  unfoldable pub fdo_suspend_callback_late : Power (Unit {0})
  unfolding enter_d0 leave_d0
  fdo_suspend_callback_late = do
    leave_d0
    status ← enter_d0
    assert_that k λ _. nt_success status
    perform suspend_event_fire

  -- The labels of FdoD3ToD0.
  abbrev pub d3_to_d0_fail1 : NtStatus → Power NtStatus
  d3_to_d0_fail1 status = do lower_irql; give status

  abbrev pub d3_to_d0_fail2 : NtStatus → Power NtStatus
  d3_to_d0_fail2 status = drop_store >> d3_to_d0_fail1 status

  abbrev pub d3_to_d0_fail3 : NtStatus → Power NtStatus
  d3_to_d0_fail3 status = drop_evtchn >> d3_to_d0_fail2 status

  abbrev pub d3_to_d0_fail4 : NtStatus → Power NtStatus
  d3_to_d0_fail4 status = drop_gnttab >> d3_to_d0_fail3 status

  abbrev pub d3_to_d0_fail5 : NtStatus → Power NtStatus
  d3_to_d0_fail5 status = drop_suspend >> d3_to_d0_fail4 status

  abbrev pub d3_to_d0_fail6 : NtStatus → Power NtStatus
  d3_to_d0_fail6 status = drop_shared_info >> d3_to_d0_fail5 status

  unfoldable pub d3_to_d0_fail7 : NtStatus → Power NtStatus
  unfolding leave_d0
  d3_to_d0_fail7 status = leave_d0 >> d3_to_d0_fail6 status

  -- XENBUS_SUSPEND(Deregister).
  abbrev pub deregister_late : Power (Unit {0})
  deregister_late s =
      given_back s.callbacks λ n. record s { callbacks = n; suspend_callback_late = none }

  -- XENBUS_GNTTAB(DestroyCache).
  abbrev pub destroy_cache : Power (Unit {0})
  destroy_cache s = given_back s.caches λ n. record s { caches = n; gnttab_cache = none }

  unfoldable pub d3_to_d0_fail8 : NtStatus → Power NtStatus
  unfolding d3_to_d0_fail7
  d3_to_d0_fail8 status = deregister_late >> d3_to_d0_fail7 status

  module _ (p : Platform) where
    -- From the registration of the callback on.
    unfoldable pub d3_to_d0_register : Power NtStatus
    unfolding d3_to_d0_fail7 d3_to_d0_fail8
    d3_to_d0_register =
        attempt (λ s. (p.register_late s).status)
          (λ s. record s {
            callbacks = suc s.callbacks;
            suspend_callback_late = some (p.register_late s).out;
          })
          d3_to_d0_fail7
          (attempt (λ s. (p.create_cache s).status)
            (λ s. record s { caches = suc s.caches; gnttab_cache = some (p.create_cache s).out })
            d3_to_d0_fail8
            (do
              lower_irql
              change λ s. record s { device_power_state = device_d0 }
              give status_success))

    -- With all interfaces acquired.
    unfoldable pub d3_to_d0_acquired : Power NtStatus
    unfolding enter_d0 d3_to_d0_register
    d3_to_d0_acquired = do
      change (set_acquired true)
      status ← enter_d0
      if nt_success status then d3_to_d0_register else d3_to_d0_fail6 status

    -- FdoD3ToD0 up to its last call, which is WmiSessionsResumeAll.
    unfoldable pub d3_to_d0_of_adapter : Power NtStatus
    unfolding d3_to_d0_acquired
    d3_to_d0_of_adapter = do
      assert_that k λ s. passive s && at_device device_d3 s
      raise_irql
      attempt p.acquire_store take_store d3_to_d0_fail1 (
          attempt p.acquire_evtchn take_evtchn d3_to_d0_fail2 (
            attempt p.acquire_gnttab take_gnttab d3_to_d0_fail3 (
              attempt p.acquire_suspend take_suspend d3_to_d0_fail4
                (attempt p.acquire_shared_info take_shared_info d3_to_d0_fail5 d3_to_d0_acquired))))

  -- What FdoD0ToD3 gives back, from the state D3 on.
  abbrev pub drop_all : Power (Unit {0})
  drop_all =
      drop_shared_info >> drop_suspend >> drop_gnttab >> drop_evtchn >> drop_store >> lower_irql

  unfoldable pub d0_to_d3_released : Power (Unit {0})
  unfolding leave_d0
  d0_to_d3_released = do
    change λ s. record s { device_power_state = device_d3 }
    raise_irql
    change (set_acquired false)
    destroy_cache
    deregister_late
    leave_d0
    drop_all

  -- FdoD0ToD3 behind its first call, which is WmiSessionsSuspendAll.
  unfoldable pub d0_to_d3_behind_suspend : Power (Unit {0})
  unfolding d0_to_d3_released
  d0_to_d3_behind_suspend = perform (xen_iface_cleanup k none) >> d0_to_d3_released

  -- FdoD0ToD3 of a device without sessions.
  unfoldable pub d0_to_d3_of_adapter : Power (Unit {0})
  unfolding d0_to_d3_behind_suspend
  d0_to_d3_of_adapter = do
    assert_that k λ s. passive s && at_device device_d0 s
    d0_to_d3_behind_suspend

  unfoldable pub fdo_s4_to_s3 : Power (Unit {0})
  fdo_s4_to_s3 = do
    assert_that k λ s. passive s && s.system_power_state == system_hibernate
    change λ s. record s { system_power_state = system_sleeping3 }

  unfoldable pub fdo_s3_to_s4 : Power (Unit {0})
  fdo_s3_to_s4 = do
    assert_that k λ s. passive s && s.system_power_state == system_sleeping3
    change λ s. record s { system_power_state = system_hibernate }
