-- ===== src/Power/KeepingPower.antt =====
-- The power handlers keep the device object balanced, on a checked build.
use qubes_vmm_xen_win_pvdriv.Common.{leb, ltb, true, ℕ, ◌&&◌, ◌==◌, ◌≡◌}
use qubes_vmm_xen_win_pvdriv.Machine.{Kernel, Reliable, nt_success}
use qubes_vmm_xen_win_pvdriv.Distribution.{Build}
use qubes_vmm_xen_win_pvdriv.Distribution.Ledger.{DirectoriesFit}
use qubes_vmm_xen_win_pvdriv.Power.Adapter.{
  Platform, completed, device_d0, device_d3, give, system_hibernate, system_sleeping3,
}
use qubes_vmm_xen_win_pvdriv.Power.Requests.{
  PowerMinor, action_shutdown, fdo_dispatch_power, fdo_query_device_power, fdo_query_system_power,
  fdo_request_query_device_power, fdo_request_set_device_power, fdo_set_device_power,
  fdo_set_system_power, final_status, other_power, query_device_power, query_system_power,
  set_device_power, set_device_power_down, set_device_power_up, set_system_power,
  set_system_power_down, set_system_power_up,
}
use qubes_vmm_xen_win_pvdriv.Power.Keeping.{
  Keeping, Keeping-adapter, Keeping-assert, Keeping-bind, Keeping-give, Keeping-if,
  Keeping-pass_down, Stays-if,
}
use qubes_vmm_xen_win_pvdriv.Power.KeepingPnp.{
  Keeping-forward, Keeping-s3_to_s4, Keeping-s4_to_s3, Keeping-set_system, down_first, up_first,
}

module _ (k : Kernel) (b : Build) (p : Platform) (checked : k.dbg ≡ true) (fit : DirectoriesFit k)
    (reliable : Reliable k) where
  Keeping-device_up : (d : ℕ) → Keeping (set_device_power_up k b p d)
  unfolding set_device_power_up
  Keeping-device_up d = Keeping-bind _ _ (Keeping-assert k λ s. ltb d s.device_power_state) (λ _.
      Keeping-forward k b p _ (λ _. Keeping-bind _ _ (Keeping-assert k λ _. d == device_d0) (λ _.
        Keeping-bind _ _ (up_first k b p checked fit reliable) (λ e.
          Keeping-bind _ _ (Keeping-assert k λ _. nt_success e)
            (λ _. Keeping-give (completed e))))))

  Keeping-device_down : (d : ℕ) → Keeping (set_device_power_down k b p d)
  unfolding set_device_power_down
  Keeping-device_down d = Keeping-bind _ _ (Keeping-assert k λ s. ltb s.device_power_state d) (λ _.
      Keeping-bind _ _ (Keeping-assert k λ _. d == device_d3) (λ _.
        Keeping-bind _ _ Keeping-adapter (λ a.
          Keeping-bind _ _
            (Keeping-if (a.device_power_state == device_d0) _ _
              (down_first k b p checked fit reliable) (Keeping-give tt))
            (λ _. Keeping-pass_down p))))

  Keeping-device_power : (d : ℕ) → Keeping (fdo_set_device_power k b p d)
  unfolding fdo_set_device_power
  Keeping-device_power d = record {
    keeps = λ s q. Stays-if (d == s.device_power_state) _ _ q (
        Stays-if (ltb d s.device_power_state) _ _ ((Keeping-device_up d).keeps s q)
          ((Keeping-device_down d).keeps s q));
  }

  Keeping-request : (d : ℕ) → Keeping (fdo_request_set_device_power k b p d)
  unfolding fdo_request_set_device_power
  Keeping-request d = record {
    keeps = λ s q.
        Stays-if (nt_success (p.request_power s)) _ _
          ((Keeping-bind (fdo_set_device_power k b p d) _ (Keeping-device_power d)
              (λ e. Keeping-assert k λ _. nt_success (final_status e))).keeps
            s q)
          tt;
  }

  Keeping-system_up : (n : ℕ) → Keeping (set_system_power_up k b p n)
  unfolding set_system_power_up
  Keeping-system_up n = Keeping-bind _ _ (Keeping-assert k λ s. ltb n s.system_power_state) (λ _.
      Keeping-forward k b p _ (λ status. Keeping-bind _ _ Keeping-adapter (λ s.
        Keeping-bind _ _
          (Keeping-if (ltb n system_hibernate && leb system_hibernate s.system_power_state) _ _
            (Keeping-set_system k b p system_hibernate) (Keeping-give tt))
          (λ _. Keeping-bind _ _ (Keeping-s4_to_s3 k b p) (λ _.
            Keeping-bind _ _ (Keeping-set_system k b p n) (λ _.
              Keeping-bind _ _ Keeping-adapter (λ t.
                Keeping-bind _ _ (Keeping-request (t.lower_capabilities n))
                  (λ _. Keeping-give (completed status)))))))))

  Keeping-system_down : (n : ℕ) → Keeping (set_system_power_down k b p n)
  unfolding set_system_power_down
  Keeping-system_down n = Keeping-bind _ _ (Keeping-assert k λ s. ltb s.system_power_state n) (λ _.
      Keeping-bind _ _ Keeping-adapter (λ s.
        Keeping-bind _ _ (Keeping-request (s.lower_capabilities n)) (λ _.
          Keeping-bind _ _ Keeping-adapter (λ t.
            Keeping-bind _ _
              (Keeping-if (leb system_hibernate n && ltb t.system_power_state system_hibernate) _ _
                (Keeping-bind _ _ (Keeping-set_system k b p system_sleeping3)
                  (λ _. Keeping-s3_to_s4 k b p))
                (Keeping-give tt))
              (λ _. Keeping-bind _ _ (Keeping-set_system k b p n) (λ _. Keeping-pass_down p))))))

  Keeping-system_power : (n : ℕ) → Keeping (fdo_set_system_power k b p n)
  unfolding fdo_set_system_power
  Keeping-system_power n = record {
    keeps = λ s q. Stays-if (n == s.system_power_state) _ _ q (
        Stays-if (ltb n s.system_power_state) _ _ ((Keeping-system_up n).keeps s q)
          ((Keeping-system_down n).keeps s q));
  }

  Keeping-query_device : (d : ℕ) → Keeping (fdo_query_device_power k b p d)
  unfolding fdo_query_device_power
  Keeping-query_device d = record {
    keeps = λ s q.
        Stays-if (ltb d s.device_power_state) _ _
          ((Keeping-forward k b p (λ e. give (completed e)) (λ e. Keeping-give (completed e))).keeps
            s q)
          q;
  }

  Keeping-query_request : (d : ℕ) → Keeping (fdo_request_query_device_power k b p d)
  unfolding fdo_request_query_device_power
  Keeping-query_request d = record {
    keeps = λ s q.
        Stays-if (nt_success (p.request_power s)) _ _
          ((Keeping-bind (fdo_query_device_power k b p d) _ (Keeping-query_device d)
              (λ e. Keeping-assert k λ _. nt_success (final_status e))).keeps
            s q)
          tt;
  }

  Keeping-query_system : (n : ℕ) → Keeping (fdo_query_system_power k b p n)
  unfolding fdo_query_system_power
  Keeping-query_system n = record {
    keeps = λ s q.
        let d = s.lower_capabilities n in
        Stays-if (n == s.system_power_state) _ _ q (
          Stays-if (ltb n s.system_power_state) _ _
            ((Keeping-forward k b p _ (λ e.
                Keeping-bind _ _ (Keeping-query_request d) (λ _. Keeping-give (completed e)))).keeps
              s q)
            ((Keeping-bind _ _ (Keeping-query_request d) (λ _. Keeping-pass_down p)).keeps s q));
  }

  pub Keeping-power :
      (action : ℕ) (minor : PowerMinor) → Keeping (fdo_dispatch_power k b p action minor)
  unfolding fdo_dispatch_power
  Keeping-power action other_power = Keeping-pass_down p
  Keeping-power action (set_device_power d) =
      Keeping-if (leb action_shutdown action) _ _ (Keeping-pass_down p) (Keeping-device_power d)
  Keeping-power action (query_device_power d) =
      Keeping-if (leb action_shutdown action) _ _ (Keeping-pass_down p) (Keeping-query_device d)
  Keeping-power action (set_system_power n) =
      Keeping-if (leb action_shutdown action) _ _ (Keeping-pass_down p) (Keeping-system_power n)
  Keeping-power action (query_system_power n) =
      Keeping-if (leb action_shutdown action) _ _ (Keeping-pass_down p) (Keeping-query_system n)
