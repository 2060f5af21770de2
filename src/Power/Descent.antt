-- ===== src/Power/Descent.antt =====
-- FdoD0ToD3 leads from D0 to D3.
use qubes_vmm_xen_win_pvdriv.Common.{ap, arith, false, none, refl, subst, sym, true, ◌∙◌, ◌≡◌}
use qubes_vmm_xen_win_pvdriv.Machine.{
  Conserves, Fdo, Goes, Kernel, Reliable, Resource, Run, assertion_failure, exit, ok, undefined,
}
use qubes_vmm_xen_win_pvdriv.Distribution.{Build}
use qubes_vmm_xen_win_pvdriv.Distribution.Ledger.{DirectoriesFit}
use qubes_vmm_xen_win_pvdriv.Power.Adapter.{Adapter, device_d0, device_d3, set_acquired, settled}
use qubes_vmm_xen_win_pvdriv.Power.Transitions.{
  d0_to_d3_behind_suspend, d0_to_d3_released, d0_to_d3_of_adapter, leave_d0,
}
use qubes_vmm_xen_win_pvdriv.Power.Balance.{
  Down, Lands, Lands-bind, Same, Same-Conserves, Up, Lands-map, drop_all-each, each, leave_d0-Same,
}
use qubes_vmm_xen_win_pvdriv.Cleanup.{xen_iface_cleanup}
use qubes_vmm_xen_win_pvdriv.Cleanup.Lists.{cleanup_lem, without}
use qubes_vmm_xen_win_pvdriv.Power.Cycle.{asserts_pass}

-- What FdoD0ToD3 leaves: nothing of XENBUS is held, the IOCTL handlers refuse, no context stands
-- in a list, and the pending requests stay.
abbrev pub Departs : Resource → Adapter → Adapter → Type 0
Departs r s t =
    Down t
    × (t.machine.fdo ≡ record (without none s.machine.fdo) { interfaces_acquired = false })
    × Conserves r s.machine t.machine

cleanup-Lands :
    (r : Resource) (c : Run (Unit {0})) (s : Adapter)
    → Goes (λ _ n. (n.fdo ≡ without none s.machine.fdo) × Conserves r s.machine n) (λ _ _. ⊥) c
    → Lands
        (λ _ t.
          (t ≡ record s { machine = t.machine })
          × (t.machine.fdo ≡ without none s.machine.fdo)
          × Conserves r s.machine t.machine)
        (settled c s)
cleanup-Lands r (ok a m) s g = (refl, g.0, g.1)
cleanup-Lands r (exit a m) s g = g
cleanup-Lands r assertion_failure s g = g
cleanup-Lands r undefined s g = g

abbrev flag_off : Fdo → Fdo
flag_off f = record f { interfaces_acquired = false }

-- The state before __FdoD0ToD3, of an adapter that holds one of each.
abbrev lowered : Adapter → Adapter
lowered t = record (set_acquired false t) {
  device_power_state = device_d3;
  interfaces = each 1;
  raised = true;
  caches = 0;
  gnttab_cache = none;
  callbacks = 0;
  suspend_callback_late = none;
}

-- An adapter that holds one of each gives all of it back.
abbrev Released : Resource → Adapter → Adapter → Type 0
Released r t u =
    Down u
    × (u.machine.fdo ≡ flag_off t.machine.fdo)
    × Conserves r (set_acquired false t).machine u.machine

d0_to_d3_released-Released :
    (r : Resource) (k : Kernel) (b : Build) (t : Adapter)
    → DirectoriesFit k
    → t.interfaces ≡ each 1
    → t.callbacks ≡ 1
    → t.caches ≡ 1
    → Lands (λ _ u. Released r t u) (d0_to_d3_released k b t)
unfolding d0_to_d3_released
d0_to_d3_released-Released r k b t fit i c g =
    let full : t ≡ record t { interfaces = each 1; callbacks = 1; caches = 1 } =
      ap (λ x. record t { interfaces = x }) i
      ∙ ap (λ x. record t { interfaces = each 1; callbacks = x }) c
      ∙ ap (λ x. record t { interfaces = each 1; callbacks = 1; caches = x }) g in
    subst (λ x. Lands (λ _ u. Released r t u) (d0_to_d3_released k b x)) (sym full)
      (Lands-bind (λ _ u. Same r (lowered t) u) (λ _ u. Released r t u) (leave_d0 k b (lowered t)) _
        (leave_d0-Same r k b (lowered t) fit refl)
        λ _ u q. rw (drop_all-each k b u (ap (λ x. x.interfaces) q.0)) (
          record {
            in_d3 = ap (λ x. x.device_power_state) q.0;
            none_held = refl;
            no_callback = ap (λ x. x.callbacks) q.0;
            no_cache = ap (λ x. x.caches) q.0;
            at_passive = refl;
          },
          q.1.0,
          Same-Conserves r (lowered t) u q,
        ))

pub d0_to_d3_behind_suspend-Departs :
    (r : Resource) (k : Kernel) (b : Build) (s : Adapter)
    → DirectoriesFit k
    → Reliable k
    → Up s
    → Lands (λ _ t. Departs r s t) (d0_to_d3_behind_suspend k b s)
unfolding d0_to_d3_behind_suspend
d0_to_d3_behind_suspend-Departs r k b s fit reliable h =
    Lands-bind _ (λ _ t. Departs r s t) (settled (xen_iface_cleanup k none s.machine) s) _
      (cleanup-Lands r (xen_iface_cleanup k none s.machine) s
        (cleanup_lem r k none s.machine reliable))
      λ _ t (e, f, c).
        Lands-map (λ _ u. Released r t u) (λ _ u. Departs r s u) (d0_to_d3_released k b t)
          (d0_to_d3_released-Released r k b t fit (ap (λ x. x.interfaces) e ∙ h.one_each)
            (ap (λ x. x.callbacks) e ∙ h.one_callback) (ap (λ x. x.caches) e ∙ h.one_cache))
          λ _ u q. (q.0, q.1 ∙ ap flag_off f, omega (arith, c, q.2))

pub d0_to_d3_of_adapter-Departs :
    (r : Resource) (k : Kernel) (b : Build) (s : Adapter)
    → DirectoriesFit k
    → Reliable k
    → Up s
    → Lands (λ _ t. Departs r s t) (d0_to_d3_of_adapter k b s)
unfolding d0_to_d3_of_adapter
d0_to_d3_of_adapter-Departs r k b s fit reliable h =
    rw (asserts_pass k device_d0 s h.at_passive h.in_d0)
      (d0_to_d3_behind_suspend-Departs r k b s fit reliable h)
