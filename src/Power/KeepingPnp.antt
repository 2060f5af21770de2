-- ===== src/Power/KeepingPnp.antt =====
-- The Plug and Play handlers keep the device object balanced, on a checked build.
use qubes_vmm_xen_win_pvdriv.Machine.{Kernel, NtStatus, Reliable, nt_success}
use qubes_vmm_xen_win_pvdriv.Distribution.{Build}
use qubes_vmm_xen_win_pvdriv.Power.Adapter.{
  DevicePnpState, Disposition, Platform, Power, completed, deleted, device_d0, remove_pending,
  started, stop_pending, stopped, surprise_remove_pending, system_hibernate, system_shutdown,
  system_sleeping3, system_working,
}
use qubes_vmm_xen_win_pvdriv.Power.Transitions.{
  d0_to_d3_of_adapter, d3_to_d0_of_adapter, fdo_s3_to_s4, fdo_s4_to_s3,
}
use qubes_vmm_xen_win_pvdriv.Power.Pnp.{
  destroy_unreferenced, disable_interface, fdo_cancel_remove_device, fdo_cancel_stop_device,
  fdo_device_usage_notification, fdo_query_capabilities, fdo_query_remove_device,
  fdo_query_stop_device, fdo_remove_device, fdo_restore_device_pnp_state, fdo_set_device_pnp_state,
  fdo_start_device, fdo_stop_device, fdo_surprise_removal, release_reference, remove_from_d0,
  set_system, start_fail3, start_fail4, start_fail5, start_up, to_shutdown, wmi_deregister,
  wmi_register_or,
}
use qubes_vmm_xen_win_pvdriv.Power.Keeping.{
  Keeping, Keeping-adapter, Keeping-assert, Keeping-attempt, Keeping-bind, Keeping-change,
  Keeping-d0_to_d3, Keeping-d3_to_d0, Keeping-give, Keeping-if, Keeping-pass_down, Stays-if,
}
use qubes_vmm_xen_win_pvdriv.Power.Requests.{
  PnpMinor, cancel_remove_device, cancel_stop_device, device_usage_notification, fdo_dispatch_pnp,
  forward_or_complete, other_pnp, query_capabilities, query_pnp_device_state, query_remove_device,
  query_stop_device, remove_device, start_device, stop_device, surprise_removal,
}
use qubes_vmm_xen_win_pvdriv.Common.{
  arith, false, not, true, ℕ, ◌%◌, ◌+◌, ◌-◌, ◌==◌, ◌^◌, ◌||◌, ◌≡◌,
}
use qubes_vmm_xen_win_pvdriv.Distribution.Ledger.{DirectoriesFit}

module _ (k : Kernel) (b : Build) (p : Platform) where
  Keeping-set_pnp : (state : DevicePnpState) → Keeping (fdo_set_device_pnp_state k b p state)
  unfolding fdo_set_device_pnp_state
  Keeping-set_pnp state = Keeping-bind _ _ (Keeping-assert k _) (λ _. Keeping-change _ λ _ q. q)

  pub Keeping-s3_to_s4 : Keeping (fdo_s3_to_s4 k b)
  unfolding fdo_s3_to_s4
  Keeping-s3_to_s4 = Keeping-bind _ _ (Keeping-assert k _) (λ _. Keeping-change _ λ _ q. q)

  pub Keeping-s4_to_s3 : Keeping (fdo_s4_to_s3 k b)
  unfolding fdo_s4_to_s3
  Keeping-s4_to_s3 = Keeping-bind _ _ (Keeping-assert k _) (λ _. Keeping-change _ λ _ q. q)

  pub Keeping-set_system : (n : ℕ) → Keeping (set_system n)
  Keeping-set_system n = Keeping-change (λ s. record s { system_power_state = n }) λ _ q. q

  Keeping-disable : Keeping disable_interface
  Keeping-disable = Keeping-change (λ s. record s { interface_enabled = false }) λ _ q. q

  Keeping-dereference : Keeping release_reference
  Keeping-dereference =
      Keeping-change (λ s. record s { references = (s.references + (2 ^ 32 - 1)) % 2 ^ 32 })
        λ _ q. q

  Keeping-destroy : Keeping destroy_unreferenced
  Keeping-destroy =
      Keeping-change (λ s. record s { destroyed = s.destroyed || s.references == 0 }) λ _ q. q

  Keeping-to_shutdown : Keeping (to_shutdown k b p)
  unfolding to_shutdown
  Keeping-to_shutdown =
      Keeping-bind _ _ (Keeping-set_system system_sleeping3)
        (λ _. Keeping-bind _ _ Keeping-s3_to_s4 (λ _. Keeping-set_system system_shutdown))

  Keeping-wmi_deregister : Keeping wmi_deregister
  unfolding wmi_deregister
  Keeping-wmi_deregister = Keeping-change _ λ _ q. q

  Keeping-restore : (state : DevicePnpState) → Keeping (fdo_restore_device_pnp_state state)
  unfolding fdo_restore_device_pnp_state
  Keeping-restore state = Keeping-change _ λ _ q. q

  Keeping-wmi_register :
      {A : Type 0} (fail : NtStatus → Power A) (go : Power A)
      → ((e : NtStatus) → Keeping (fail e))
      → Keeping go
      → Keeping (wmi_register_or k b p fail go)
  unfolding wmi_register_or
  Keeping-wmi_register fail go f g = record {
    keeps = λ s q. Stays-if s.wmi_ready (go s) _ (g.keeps s q) (
        (Keeping-attempt p.wmi_register (λ t. record t { wmi_ready = true }) fail go (λ _ h. h) f
            g).keeps
          s q);
  }

  pub Keeping-forward :
      (go : NtStatus → Power Disposition)
      → ((e : NtStatus) → Keeping (go e))
      → Keeping (forward_or_complete p go)
  Keeping-forward go g = record {
    keeps = λ s q. Stays-if (nt_success (p.forward s)) _ _ ((g (p.forward s)).keeps s q) q;
  }

  module _ (checked : k.dbg ≡ true) (fit : DirectoriesFit k) (reliable : Reliable k) where
    pub up_first : Keeping (d3_to_d0_of_adapter k b p)
    up_first = Keeping-d3_to_d0 k b p checked fit

    pub down_first : Keeping (d0_to_d3_of_adapter k b)
    down_first = Keeping-d0_to_d3 k b checked fit reliable

    Keeping-start_fail4 : (e : NtStatus) → Keeping (start_fail4 k b p e)
    unfolding start_fail4 start_fail3
    Keeping-start_fail4 e =
        Keeping-bind _ _ Keeping-wmi_deregister
          (λ _. Keeping-bind _ _ Keeping-to_shutdown (λ _. Keeping-give (completed e)))

    Keeping-start_up : (e : NtStatus) → Keeping (start_up k b p e)
    unfolding start_up start_fail3 start_fail5
    Keeping-start_up e =
        Keeping-wmi_register (start_fail3 k b p) _
          (λ f. Keeping-bind _ _ Keeping-to_shutdown (λ _. Keeping-give (completed f)))
          (Keeping-bind (d3_to_d0_of_adapter k b p) _ up_first λ status.
            Keeping-if (not (nt_success status)) _ _ (Keeping-start_fail4 status) (
              Keeping-attempt (λ t. p.set_interface_state t true) _ _ _ (λ _ q. q)
                (λ f. Keeping-bind _ _ down_first (λ _. Keeping-start_fail4 f))
                (Keeping-bind _ _ (Keeping-set_pnp started) (λ _. Keeping-give (completed e)))))

    Keeping-start : Keeping (fdo_start_device k b p)
    unfolding fdo_start_device
    Keeping-start = Keeping-bind _ _ Keeping-adapter λ a.
        Keeping-if (not (nt_success (p.forward a))) _ _ (Keeping-give _) (
          Keeping-bind _ _ (Keeping-set_system system_hibernate) (λ _.
            Keeping-bind _ _ Keeping-s4_to_s3 (λ _.
              Keeping-bind _ _ (Keeping-set_system system_working)
                (λ _. Keeping-start_up (p.forward a)))))

    Keeping-stop : Keeping (fdo_stop_device k b p)
    unfolding fdo_stop_device
    Keeping-stop = Keeping-bind _ _ down_first (λ _. Keeping-bind _ _ Keeping-wmi_deregister (λ _.
        Keeping-bind _ _ Keeping-to_shutdown
          (λ _. Keeping-bind _ _ (Keeping-set_pnp stopped) (λ _. Keeping-pass_down p))))

    Keeping-remove : Keeping (fdo_remove_device k b p)
    unfolding fdo_remove_device remove_from_d0
    Keeping-remove = Keeping-bind _ _ (Keeping-assert k _) (λ _.
        Keeping-bind _ _
          (Keeping-bind _ _ Keeping-adapter (λ s.
            Keeping-if (s.device_power_state == device_d0) _ _
              (Keeping-bind _ _ down_first (λ _. Keeping-to_shutdown)) (Keeping-give tt)))
          (λ _. Keeping-bind _ _ (Keeping-set_pnp deleted) (λ _.
            Keeping-bind _ _ Keeping-disable (λ _. Keeping-bind _ _ Keeping-wmi_deregister (λ _.
              Keeping-bind _ _ (Keeping-pass_down p) (λ d.
                Keeping-bind _ _ (Keeping-assert k λ s. not (s.references == 0)) (λ _.
                  Keeping-bind _ _ Keeping-dereference
                    (λ _. Keeping-bind _ _ Keeping-destroy (λ _. Keeping-give d)))))))))

    pub Keeping-pnp : (minor : PnpMinor) → Keeping (fdo_dispatch_pnp k b p minor)
    unfolding fdo_dispatch_pnp fdo_query_stop_device fdo_cancel_stop_device fdo_query_remove_device
        fdo_cancel_remove_device fdo_surprise_removal fdo_query_capabilities
        fdo_device_usage_notification
    Keeping-pnp start_device = Keeping-start
    Keeping-pnp query_stop_device =
        Keeping-bind _ _ (Keeping-set_pnp stop_pending) (λ _. Keeping-pass_down p)
    Keeping-pnp cancel_stop_device =
        Keeping-bind _ _ (Keeping-restore stop_pending) (λ _. Keeping-pass_down p)
    Keeping-pnp stop_device = Keeping-stop
    Keeping-pnp query_remove_device =
        Keeping-bind _ _ (Keeping-set_pnp remove_pending) (λ _. Keeping-pass_down p)
    Keeping-pnp surprise_removal = Keeping-bind _ _ (Keeping-set_pnp surprise_remove_pending) (λ _.
        Keeping-bind _ _ Keeping-disable
          (λ _. Keeping-bind _ _ Keeping-wmi_deregister (λ _. Keeping-pass_down p)))
    Keeping-pnp remove_device = Keeping-remove
    Keeping-pnp cancel_remove_device =
        Keeping-bind _ _ (Keeping-restore remove_pending) (λ _. Keeping-pass_down p)
    Keeping-pnp (query_capabilities c) = Keeping-bind _ _ Keeping-adapter (λ a.
        Keeping-if (not (nt_success (p.forward a))) _ _ (Keeping-give _) (
          Keeping-bind _ _ (Keeping-change (λ s. record s { lower_capabilities = c }) λ _ q. q)
            (λ _. Keeping-give (completed (p.forward a)))))
    Keeping-pnp (device_usage_notification t i) = record { keeps = λ s q. ground (arith, q) }
    Keeping-pnp query_pnp_device_state = Keeping-pass_down p
    Keeping-pnp other_pnp = Keeping-pass_down p
