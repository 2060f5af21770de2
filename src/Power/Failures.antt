-- ===== src/Power/Failures.antt =====
-- A late failure of FdoD3ToD0, and a system that wakes from a sleep that is no hibernation.
use qubes_vmm_xen_win_pvdriv.Common.{ap, arith, false, true, ℕ, ◌<◌, ◌∙◌, ◌≡◌}
use qubes_vmm_xen_win_pvdriv.Machine.{Kernel, nt_success, pool, status_success}
use qubes_vmm_xen_win_pvdriv.Distribution.{Build}
use qubes_vmm_xen_win_pvdriv.Distribution.Ledger.{DirectoriesFit}
use qubes_vmm_xen_win_pvdriv.Power.Adapter.{
  Adapter, Platform, halted, set_acquired, system_hibernate,
}
use qubes_vmm_xen_win_pvdriv.Power.Transitions.{
  d3_to_d0_acquired, d3_to_d0_fail6, d3_to_d0_fail7, d3_to_d0_register, enter_d0, fdo_s4_to_s3,
  leave_d0,
}
use qubes_vmm_xen_win_pvdriv.Power.Balance.{
  Acquired, Down, Lands, Lands-bind, Lands-map, Same, Same-Acquired, enter_d0-Same, fail6-Down,
  leave_d0-Same,
}
use qubes_vmm_xen_win_pvdriv.Power.Requests.{fdo_set_system_power, set_system_power_up}
use qubes_vmm_xen_win_pvdriv.Power.Cycle.{flagged-Acquired}

-- Where the names in the directories of the store fit an ANSI_STRING: if XENBUS refuses the
-- suspend callback after all five interfaces are acquired, FdoD3ToD0 fails and releases them, and
-- InterfacesAcquired stays set.
pub d3_to_d0-stale_flag :
    (k : Kernel) (b : Build) (p : Platform) (s : Adapter)
    → DirectoriesFit k
    → Acquired s
    → ((t : Adapter) → nt_success (p.register_late t).status ≡ false)
    → Lands
        (λ a t. (nt_success a ≡ false) × Down t × (t.machine.fdo.interfaces_acquired ≡ true))
        (d3_to_d0_acquired k b p s)
unfolding d3_to_d0_acquired d3_to_d0_register d3_to_d0_fail7
d3_to_d0-stale_flag k b p s fit h refused =
    let flagged = set_acquired true s in
    Lands-bind (λ a t. (a ≡ status_success) × Same (pool 0) flagged t) _ (enter_d0 k b flagged) _
      (enter_d0-Same (pool 0) k b flagged h.at_dispatch)
      λ a t (e, q).
        rw (e, refused t)
          (Lands-bind (λ _ u. Same (pool 0) t u) _ (leave_d0 k b t) _
            (leave_d0-Same (pool 0) k b t fit (ap (λ x. x.raised) q.0 ∙ h.at_dispatch))
            λ _ u v.
              Lands-map (λ a x. (a ≡ (p.register_late t).status) × Down x × (x.machine ≡ u.machine))
                (λ a x.
                  (nt_success a ≡ false) × Down x × (x.machine.fdo.interfaces_acquired ≡ true))
                (d3_to_d0_fail6 k b (p.register_late t).status u)
                (fail6-Down k b (p.register_late t).status u (
                  Same-Acquired (pool 0) t u v
                    (Same-Acquired (pool 0) flagged t q (flagged-Acquired s h))))
                λ a x z. (
                  ap nt_success z.0 ∙ refused t,
                  z.1,
                  ap (λ m. m.fdo.interfaces_acquired) z.2
                      ∙ ap (λ f. f.interfaces_acquired) v.1.0
                      ∙ ap (λ f. f.interfaces_acquired) q.1.0,
                ))

-- In a checked build, where the lower driver succeeds, a set-power IRP that takes the system from
-- a sleep lighter than hibernation to a lighter state fails an ASSERT: FdoS4ToS3 is called
-- whatever the state was.
pub wake_from_sleep-halts :
    (k : Kernel) (b : Build) (p : Platform) (n : ℕ) (s : Adapter)
    → k.dbg ≡ true
    → n < s.system_power_state
    → s.system_power_state < system_hibernate
    → nt_success (p.forward s) ≡ true
    → fdo_set_system_power k b p n s ≡ halted
unfolding fdo_set_system_power set_system_power_up fdo_s4_to_s3
wake_from_sleep-halts k b p n s checked lower asleep forwarded =
    ground (arith, checked, lower, asleep, forwarded)
