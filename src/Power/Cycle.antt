-- ===== src/Power/Cycle.antt =====
-- FdoD3ToD0 leads from D3 to D0, or back to D3.
use qubes_vmm_xen_win_pvdriv.Common.{
  ==_self, ap, arith, false, not, refl, suc, true, ℕ, ◌&&◌, ◌∙◌, ◌≡◌,
}
use qubes_vmm_xen_win_pvdriv.Machine.{
  Conserves, Kernel, NtStatus, Resource, nt_success, status_success,
}
use qubes_vmm_xen_win_pvdriv.Distribution.{Build}
use qubes_vmm_xen_win_pvdriv.Distribution.Ledger.{DirectoriesFit}
use qubes_vmm_xen_win_pvdriv.Power.Adapter.{
  Adapter, Interfaces, Platform, Turn, device_d3, halted, misused, on, set_acquired,
}
use qubes_vmm_xen_win_pvdriv.Power.Transitions.{
  at_device, d3_to_d0_acquired, d3_to_d0_register, enter_d0, d3_to_d0_of_adapter, passive,
  take_evtchn, take_gnttab, take_shared_info, take_store, take_suspend,
}
use qubes_vmm_xen_win_pvdriv.Power.Balance.{
  Acquired, Arrives, Down, Lands, Lands-bind, Lands-if, Same, Same-Acquired, Same-Conserves,
  d3_to_d0_register-Arrives, each, enter_d0-Same,
}

Arrives-from :
    (r : Resource) (s t : Adapter)
    → Conserves r s.machine t.machine
    → (u : Turn NtStatus) → Lands (Arrives r t) u
    → Lands (Arrives r s) u
Arrives-from r s t c (on a v) h = (h.0, omega (arith, c, h.1))
Arrives-from r s t c halted h = h
Arrives-from r s t c misused h = h

pub flagged-Acquired : (s : Adapter) → Acquired s → Acquired (set_acquired true s)
flagged-Acquired s h = record {
  in_d3 = h.in_d3;
  one_each = h.one_each;
  no_callback = h.no_callback;
  no_cache = h.no_cache;
  at_dispatch = h.at_dispatch;
}

Acquired-Arrives :
    (r : Resource) (k : Kernel) (b : Build) (p : Platform) (s : Adapter)
    → DirectoriesFit k
    → Acquired s
    → Lands (Arrives r s) (d3_to_d0_acquired k b p s)
unfolding d3_to_d0_acquired
Acquired-Arrives r k b p s fit h =
    let flagged = set_acquired true s in
    Lands-bind (λ a t. (a ≡ status_success) × Same r flagged t) (Arrives r s) (enter_d0 k b flagged)
      _ (enter_d0-Same r k b flagged h.at_dispatch)
      λ a t (e, q).
        let usable : t.machine.fdo.interfaces_acquired ≡ true =
          ap (λ f. f.interfaces_acquired) q.1.0 in
        rw e (
          Arrives-from r s t (Same-Conserves r flagged t q) (d3_to_d0_register k b p t) (
            d3_to_d0_register-Arrives r k b p t fit
              (Same-Acquired r flagged t q (flagged-Acquired s h)) usable))

-- A failure before the interfaces are all acquired undoes what was done to them.
refused-Arrives :
    (r : Resource) (s : Adapter) (f : Interfaces → Interfaces) (status : NtStatus)
    → Down s
    → f (each 0) ≡ each 0
    → nt_success status ≡ false
    → Arrives r s status (record s { raised = false; interfaces = f s.interfaces })
refused-Arrives r s f status h e failed =
    let down : Down (record s { raised = false; interfaces = f s.interfaces }) = record {
      in_d3 = h.in_d3;
      none_held = ap f h.none_held ∙ e;
      no_callback = h.no_callback;
      no_cache = h.no_cache;
      at_passive = refl;
    } in
    ground (arith, failed, down)

-- The two asserts at the start of a transition hold.
pub asserts_pass :
    (k : Kernel) (d : ℕ) (s : Adapter)
    → s.raised ≡ false
    → s.device_power_state ≡ d
    → (k.dbg && not (passive s && at_device d s)) ≡ false
asserts_pass k d s h e = ground (arith, h, e, ==_self d)

abbrev one_more : Interfaces → Interfaces
one_more i = record {
  store = suc i.store;
  evtchn = suc i.evtchn;
  gnttab = suc i.gnttab;
  suspend = suc i.suspend;
  shared_info = suc i.shared_info;
}

pub d3_to_d0_of_adapter-Arrives :
    (r : Resource) (k : Kernel) (b : Build) (p : Platform) (s : Adapter)
    → DirectoriesFit k
    → Down s
    → Lands (Arrives r s) (d3_to_d0_of_adapter k b p s)
unfolding d3_to_d0_of_adapter
d3_to_d0_of_adapter-Arrives r k b p s fit h =
    let s0 = record s { raised = true } in
    let s1 = take_store s0 in
    let s2 = take_evtchn s1 in
    let s3 = take_gnttab s2 in
    let s4 = take_suspend s3 in
    let s5 = take_shared_info s4 in
    rw (asserts_pass k device_d3 s h.at_passive h.in_d3) (
      Lands-if (Arrives r s) (nt_success (p.acquire_store s0)) _ _
        (λ _.
          Lands-if (Arrives r s) (nt_success (p.acquire_evtchn s1)) _ _
            (λ _.
              Lands-if (Arrives r s) (nt_success (p.acquire_gnttab s2)) _ _
                (λ _.
                  Lands-if (Arrives r s) (nt_success (p.acquire_suspend s3)) _ _
                    (λ _.
                      Lands-if (Arrives r s) (nt_success (p.acquire_shared_info s4)) _ _
                        (λ _. Arrives-from r s s5 refl (d3_to_d0_acquired k b p s5) (
                          Acquired-Arrives r k b p s5 fit (record {
                            in_d3 = h.in_d3;
                            one_each = ap one_more h.none_held;
                            no_callback = h.no_callback;
                            no_cache = h.no_cache;
                            at_dispatch = refl;
                          })))
                        (λ failed.
                          refused-Arrives r s
                            (λ i. record i {
                              store = i.store;
                              evtchn = i.evtchn;
                              gnttab = i.gnttab;
                              suspend = i.suspend;
                            })
                            (p.acquire_shared_info s4) h refl failed))
                    (λ failed.
                      refused-Arrives r s
                        (λ i. record i { store = i.store; evtchn = i.evtchn; gnttab = i.gnttab })
                        (p.acquire_suspend s3) h refl failed))
                (λ failed.
                  refused-Arrives r s (λ i. record i { store = i.store; evtchn = i.evtchn })
                    (p.acquire_gnttab s2) h refl failed))
            (λ failed.
              refused-Arrives r s (λ i. record i { store = i.store }) (p.acquire_evtchn s1) h refl
                failed))
        (λ failed. refused-Arrives r s (λ i. i) (p.acquire_store s0) h refl failed))
