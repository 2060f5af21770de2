-- ===== src/Power/Sessions.antt =====
-- FdoD3ToD0 and FdoD0ToD3 of src/xeniface/fdo.c with the sessions, which the one resumes at its end
-- and the other suspends at its start.
use qubes_vmm_xen_win_pvdriv.Common.{
  All, Bool-cases, ap, arith, false, if◌then◌else◌, inl, inr, refl, subst, sym, ◌&&◌, ◌+◌, ◌∙◌, ◌≡◌,
  none,
}
use qubes_vmm_xen_win_pvdriv.Machine.{
  Fdo, Goes, Kernel, Machine, NtStatus, Resource, Run, acquired, assertion_failure, exit,
  nt_success, ok, owned, released, undefined,
}
use qubes_vmm_xen_win_pvdriv.Cleanup.Lists.{without}
use qubes_vmm_xen_win_pvdriv.Distribution.{Build}
use qubes_vmm_xen_win_pvdriv.Distribution.Ledger.{DirectoriesFit}
use qubes_vmm_xen_win_pvdriv.Wmi.Session.{Sessions, Wmi, sessions_owned}
use qubes_vmm_xen_win_pvdriv.Wmi.Sessions.{wmi_sessions_resume_all, wmi_sessions_suspend_all}
use qubes_vmm_xen_win_pvdriv.Wmi.Watch.Ledger.{NoHandle}
use qubes_vmm_xen_win_pvdriv.Wmi.Sessions.Suspension.{
  AllSame, IsSuspended, Unsuspended, wmi_sessions_resume_all-Changes,
}
use qubes_vmm_xen_win_pvdriv.Power.Adapter.{
  Adapter, Platform, Power, assert_that, device_d0, give, perform, settled, ◌>>=◌, ◌>>◌,
}
use qubes_vmm_xen_win_pvdriv.Power.Transitions.{
  at_device, d0_to_d3_behind_suspend, d3_to_d0_of_adapter, passive,
}
use qubes_vmm_xen_win_pvdriv.Power.Balance.{Arrives, Down, Lands, Lands-bind, Up}
use qubes_vmm_xen_win_pvdriv.Power.Cycle.{d3_to_d0_of_adapter-Arrives}

unfoldable pub fdo_d0_to_d3 : Kernel → Build → Wmi → Sessions → Power Sessions
unfolding d0_to_d3_behind_suspend
fdo_d0_to_d3 k b w x = do
  assert_that k λ s. passive s && at_device device_d0 s
  y ← perform (wmi_sessions_suspend_all w x)
  d0_to_d3_behind_suspend k b
  give y

-- The end of FdoD3ToD0.
unfoldable pub resume_if_up : Wmi → Sessions → NtStatus → Power (NtStatus × Sessions)
resume_if_up w x status =
    if nt_success status
    then (do y ← perform (wmi_sessions_resume_all w x); give (status, y))
    else give (status, x)

unfoldable pub fdo_d3_to_d0 :
    Kernel → Build → Platform → Wmi → Sessions → Power (NtStatus × Sessions)
unfolding resume_if_up
fdo_d3_to_d0 k b p w x = d3_to_d0_of_adapter k b p >>= resume_if_up w x

-- The calls that handed a resource out exceed those that took it back by what the lists of the
-- device and the sessions own more of it.
abbrev pub Accounted : Resource → Sessions → Adapter → Sessions → Adapter → Type 0
Accounted r x s y t =
    acquired r t.machine.trace
      + released r s.machine.trace
      + (owned r s.machine.fdo + sessions_owned r x.head)
    ≡ acquired r s.machine.trace
      + released r t.machine.trace
      + (owned r t.machine.fdo + sessions_owned r y.head)

settled-Lands :
    {A : Type 0} (Q : A → Machine → Type 0) (c : Run A) (s : Adapter)
    → Goes Q (λ _ _. ⊥) c
    → Lands (λ a t. (t ≡ record s { machine = t.machine }) × Q a t.machine) (settled c s)
settled-Lands Q (ok a m) s g = (refl, g)
settled-Lands Q (exit a m) s g = g
settled-Lands Q assertion_failure s g = g
settled-Lands Q undefined s g = g

Up-kept :
    (s t : Adapter)
    → t ≡ record s { machine = t.machine }
    → t.machine.fdo ≡ s.machine.fdo
    → Up s
    → Up t
Up-kept s t e f h = record {
  in_d0 = ap (λ x. x.device_power_state) e ∙ h.in_d0;
  one_each = ap (λ x. x.interfaces) e ∙ h.one_each;
  one_callback = ap (λ x. x.callbacks) e ∙ h.one_callback;
  one_cache = ap (λ x. x.caches) e ∙ h.one_cache;
  at_passive = ap (λ x. x.raised) e ∙ h.at_passive;
  usable = ap (λ x. x.interfaces_acquired) f ∙ h.usable;
}

abbrev pub off : Fdo → Fdo
off f = record (without none f) { interfaces_acquired = false }

-- What FdoD0ToD3 leaves of the device and of the sessions.
abbrev pub DepartsWith : Resource → Sessions → Adapter → Sessions → Adapter → Type 0
DepartsWith r x s y t =
    Down t
    × (t.machine.fdo ≡ off s.machine.fdo)
    × All IsSuspended y.head
    × AllSame x.head y.head
    × Accounted r x s y t

-- What FdoD3ToD0 leaves of the device and of the sessions.
abbrev pub ArrivesWith : Resource → Sessions → Adapter → NtStatus × Sessions → Adapter → Type 0
ArrivesWith r x s q t =
    (if nt_success q.0
      then Up t × All Unsuspended q.1.head × AllSame x.head q.1.head
      else Down t × (q.1 ≡ x))
    × Accounted r x s q.1 t

resume_if_up-ArrivesWith :
    (r : Resource) (w : Wmi) (x : Sessions) (s : Adapter) (a : NtStatus) (t : Adapter)
    → All (λ v. All NoHandle v.watches) x.head
    → Arrives r s a t
    → Lands (ArrivesWith r x s) (resume_if_up w x a t)
unfolding resume_if_up
resume_if_up-ArrivesWith r w x s a t unheld h = elim (Bool-cases (nt_success a)) [
  | inl e ↦
      let up : Up t = subst (λ c. if c then Up t else Down t) e h.0 in
      rw e (
        Lands-bind _ (ArrivesWith r x s) (settled (wmi_sessions_resume_all w x t.machine) t) _
          (settled-Lands _ (wmi_sessions_resume_all w x t.machine) t
            (wmi_sessions_resume_all-Changes r w x t.machine unheld))
          λ y u (f, (c, awake, same, number)). (
            subst
                (λ g.
                  if g
                  then Up u × All Unsuspended y.head × AllSame x.head y.head
                  else Down u × (y ≡ x))
                (sym e) (Up-kept t u f c.0 up, awake, same),
            omega (arith, h.1, c.1, ap (owned r) c.0),
          ))
  | inr e ↦
      let down : Down t = subst (λ c. if c then Up t else Down t) e h.0 in
      rw e (
        subst
            (λ g.
              if g then Up t × All Unsuspended x.head × AllSame x.head x.head else Down t × (x ≡ x))
            (sym e) (down, refl),
        omega (arith, h.1),
      )
]

-- Where the names in the directories of the store fit an ANSI_STRING, and no watch of a session
-- has a handle: FdoD3ToD0 on a device in D3 that holds no interface, callback or cache ends, and
-- releases none that it does not hold: with a success, in D0 with each interface acquired once,
-- the callback registered, the cache made and all sessions resumed, in the same order with the
-- same ids and names; or with a failure, in D3 with none of them held and the sessions as they
-- were. Every other resource is accounted for, the watches of the sessions with them.
pub fdo_d3_to_d0-Arrives :
    (r : Resource) (k : Kernel) (b : Build) (p : Platform) (w : Wmi) (x : Sessions) (s : Adapter)
    → DirectoriesFit k
    → All (λ v. All NoHandle v.watches) x.head
    → Down s
    → Lands (ArrivesWith r x s) (fdo_d3_to_d0 k b p w x s)
unfolding fdo_d3_to_d0
fdo_d3_to_d0-Arrives r k b p w x s fit unheld h =
    Lands-bind (Arrives r s) (ArrivesWith r x s) (d3_to_d0_of_adapter k b p s) (resume_if_up w x)
      (d3_to_d0_of_adapter-Arrives r k b p s fit h)
      λ a t q. resume_if_up-ArrivesWith r w x s a t unheld q
