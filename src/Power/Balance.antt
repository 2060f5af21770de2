-- ===== src/Power/Balance.antt =====
-- What the device object holds of XENBUS in D0 and in D3, and that the transitions between them
-- keep the account.
use qubes_vmm_xen_win_pvdriv.Common.{
  Bool, ap, arith, false, if◌then◌else◌, none, refl, some, subst, suc, sym, true, ℕ, ◌∙◌, ◌≡◌,
}
use qubes_vmm_xen_win_pvdriv.Machine.{
  Changes, Conserves, Goes, Kernel, NtStatus, Resource, Run, assertion_failure, exit, nt_success,
  ok, status_success, undefined,
}
use qubes_vmm_xen_win_pvdriv.Distribution.{Build, fdo_clear_distribution, fdo_set_distribution}
use qubes_vmm_xen_win_pvdriv.Distribution.Announcement.{set_distribution-Changes}
use qubes_vmm_xen_win_pvdriv.Distribution.Ledger.{DirectoriesFit, clear_distribution-Changes}
use qubes_vmm_xen_win_pvdriv.Power.Adapter.{
  Adapter, Interfaces, Platform, Power, Turn, device_d0, device_d3, go_on, halted, misused, on,
  settled,
}
use qubes_vmm_xen_win_pvdriv.Power.Transitions.{
  drop_all, d3_to_d0_fail6, d3_to_d0_fail7, d3_to_d0_fail8, d3_to_d0_register, enter_d0, leave_d0,
}

-- The command ends, without a failed ASSERT and without undefined behaviour, and `P` holds.
abbrev pub Lands : {A : Type 0} → (A → Adapter → Type 0) → Turn A → Type 0
Lands P (on a s) = P a s
Lands P halted = ⊥
Lands P misused = ⊥

pub Lands-bind :
    {A B : Type 0} (Q : A → Adapter → Type 0) (P : B → Adapter → Type 0) (t : Turn A)
    (k : A → Power B)
    → Lands Q t
    → ((a : A) (s : Adapter) → Q a s → Lands P (k a s))
    → Lands P (go_on t k)
Lands-bind Q P (on a s) k q next = next a s q
Lands-bind Q P halted k q next = q
Lands-bind Q P misused k q next = q

pub Lands-map :
    {A : Type 0} (Q P : A → Adapter → Type 0) (t : Turn A)
    → Lands Q t
    → ((a : A) (s : Adapter) → Q a s → P a s)
    → Lands P t
Lands-map Q P (on a s) q next = next a s q
Lands-map Q P halted q next = q
Lands-map Q P misused q next = q

pub Lands-if :
    {A : Type 0} (P : A → Adapter → Type 0) (c : Bool) (x y : Turn A)
    → (c ≡ true → Lands P x)
    → (c ≡ false → Lands P y)
    → Lands P (if c then x else y)
Lands-if P true x y h g = h refl
Lands-if P false x y h g = g refl

-- `n` of each.
abbrev pub each : ℕ → Interfaces
each n = record { store = n; evtchn = n; gnttab = n; suspend = n; shared_info = n }

-- In D0: each interface is acquired once, the callback registered and the cache made.
pub record Up (s : Adapter) : Type 0 where
  pub in_d0 : s.device_power_state ≡ device_d0
  pub one_each : s.interfaces ≡ each 1
  pub one_callback : s.callbacks ≡ 1
  pub one_cache : s.caches ≡ 1
  pub at_passive : s.raised ≡ false
  pub usable : s.machine.fdo.interfaces_acquired ≡ true

-- In D3: nothing of XENBUS is held.
pub record Down (s : Adapter) : Type 0 where
  pub in_d3 : s.device_power_state ≡ device_d3
  pub none_held : s.interfaces ≡ each 0
  pub no_callback : s.callbacks ≡ 0
  pub no_cache : s.caches ≡ 0
  pub at_passive : s.raised ≡ false

-- Only the history of calls is longer, and it keeps the account of `r`.
abbrev pub Same : Resource → Adapter → Adapter → Type 0
Same r s t = (t ≡ record s { machine = t.machine }) × Changes r 0 0 s.machine t.machine

settled-Same :
    {A : Type 0} (r : Resource) (c : Run A) (s : Adapter)
    → Goes (λ _ n. Changes r 0 0 s.machine n) (λ _ _. ⊥) c
    → Lands (λ _ t. Same r s t) (settled c s)
settled-Same r (ok a m) s g = (refl, g)
settled-Same r (exit a m) s g = g
settled-Same r assertion_failure s g = g
settled-Same r undefined s g = g

pub enter_d0-Same :
    (r : Resource) (k : Kernel) (b : Build) (s : Adapter)
    → s.raised ≡ true
    → Lands (λ a t. (a ≡ status_success) × Same r s t) (enter_d0 k b s)
unfolding enter_d0
enter_d0-Same r k b s h =
    let l =
      settled-Same r (fdo_set_distribution k b s.machine) s
        (set_distribution-Changes r k b s.machine) in
    grind (arith, h, l)

pub leave_d0-Same :
    (r : Resource) (k : Kernel) (b : Build) (s : Adapter)
    → DirectoriesFit k
    → s.raised ≡ true
    → Lands (λ _ t. Same r s t) (leave_d0 k b s)
unfolding leave_d0
leave_d0-Same r k b s fit h =
    let l =
      settled-Same r (fdo_clear_distribution k b s.machine) s
        (clear_distribution-Changes r k b s.machine fit) in
    grind (arith, h, l)

-- All five interfaces are acquired, and nothing is registered.
pub record Acquired (s : Adapter) : Type 0 where
  pub in_d3 : s.device_power_state ≡ device_d3
  pub one_each : s.interfaces ≡ each 1
  pub no_callback : s.callbacks ≡ 0
  pub no_cache : s.caches ≡ 0
  pub at_dispatch : s.raised ≡ true

-- A success leads to D0, a failure leaves D3.
abbrev pub Arrives : Resource → Adapter → NtStatus → Adapter → Type 0
Arrives r s a t = (if nt_success a then Up t else Down t) × Conserves r s.machine t.machine

pub Same-Acquired : (r : Resource) (s t : Adapter) → Same r s t → Acquired s → Acquired t
Same-Acquired r s t q h = record {
  in_d3 = ap (λ x. x.device_power_state) q.0 ∙ h.in_d3;
  one_each = ap (λ x. x.interfaces) q.0 ∙ h.one_each;
  no_callback = ap (λ x. x.callbacks) q.0 ∙ h.no_callback;
  no_cache = ap (λ x. x.caches) q.0 ∙ h.no_cache;
  at_dispatch = ap (λ x. x.raised) q.0 ∙ h.at_dispatch;
}

pub Same-Conserves : (r : Resource) (s t : Adapter) → Same r s t → Conserves r s.machine t.machine
Same-Conserves r s t q = grind (arith, q.1)

-- With one of each interface, all the releases leave none.
pub drop_all-each :
    (k : Kernel) (b : Build) (s : Adapter)
    → s.interfaces ≡ each 1
    → drop_all k b s ≡ on tt (record s { interfaces = each 0; raised = false })
drop_all-each k b s h =
    let e : s ≡ record s { interfaces = each 1 } = ap (λ i. record s { interfaces = i }) h in
    ap (drop_all k b) e

pub fail6-Down :
    (k : Kernel) (b : Build) (status : NtStatus) (s : Adapter)
    → Acquired s
    → Lands (λ a t. (a ≡ status) × Down t × (t.machine ≡ s.machine)) (d3_to_d0_fail6 k b status s)
fail6-Down k b status s h =
    let e : s ≡ record s { interfaces = each 1 } =
      ap (λ i. record s { interfaces = i }) h.one_each in
    subst
      (λ x.
        Lands (λ a t. (a ≡ status) × Down t × (t.machine ≡ s.machine))
          (d3_to_d0_fail6 k b status x))
      (sym e)
      (
        refl,
        record {
          in_d3 = h.in_d3;
          none_held = refl;
          no_callback = h.no_callback;
          no_cache = h.no_cache;
          at_passive = refl;
        },
        refl,
      )

-- What a failure leaves.
abbrev Failed : Resource → Adapter → NtStatus → NtStatus → Adapter → Type 0
Failed r s status a t = (a ≡ status) × Down t × Conserves r s.machine t.machine

fail7-Down :
    (r : Resource) (k : Kernel) (b : Build) (status : NtStatus) (s : Adapter)
    → DirectoriesFit k
    → Acquired s
    → Lands (Failed r s status) (d3_to_d0_fail7 k b status s)
unfolding d3_to_d0_fail7
fail7-Down r k b status s fit h =
    Lands-bind (λ _ t. Same r s t) (Failed r s status) (leave_d0 k b s)
      (λ _. d3_to_d0_fail6 k b status) (leave_d0-Same r k b s fit h.at_dispatch)
      λ _ t q.
        Lands-map (λ a v. (a ≡ status) × Down v × (v.machine ≡ t.machine)) (Failed r s status)
          (d3_to_d0_fail6 k b status t) (fail6-Down k b status t (Same-Acquired r s t q h))
          λ a v z.
            (z.0, z.1, subst (λ n. Conserves r s.machine n) (sym z.2) (Same-Conserves r s t q))

Failed-Arrives :
    (r : Resource) (s : Adapter) (status : NtStatus)
    → nt_success status ≡ false
    → (t : Turn NtStatus) → Lands (Failed r s status) t
    → Lands (Arrives r s) t
Failed-Arrives r s status f (on a t) h = ground (arith, f, h.0, h.1, h.2)
Failed-Arrives r s status f halted h = h
Failed-Arrives r s status f misused h = h

pub d3_to_d0_register-Arrives :
    (r : Resource) (k : Kernel) (b : Build) (p : Platform) (s : Adapter)
    → DirectoriesFit k
    → Acquired s
    → s.machine.fdo.interfaces_acquired ≡ true
    → Lands (Arrives r s) (d3_to_d0_register k b p s)
unfolding d3_to_d0_register d3_to_d0_fail8
d3_to_d0_register-Arrives r k b p s fit h up =
    let registered = record s {
      callbacks = suc s.callbacks;
      suspend_callback_late = some (p.register_late s).out;
    } in
    Lands-if (Arrives r s) (nt_success (p.register_late s).status) _ _
      (λ _.
        Lands-if (Arrives r s) (nt_success (p.create_cache registered).status) _ _
          (λ _. (
            record {
              in_d0 = refl;
              one_each = h.one_each;
              one_callback = omega (arith, h.no_callback);
              one_cache = omega (arith, h.no_cache);
              at_passive = refl;
              usable = up;
            },
            refl,
          ))
          (λ failed. Failed-Arrives r s (p.create_cache registered).status failed _ (
            fail7-Down r k b (p.create_cache registered).status
              (record s { callbacks = s.callbacks; suspend_callback_late = none }) fit
              (record {
                in_d3 = h.in_d3;
                one_each = h.one_each;
                no_callback = h.no_callback;
                no_cache = h.no_cache;
                at_dispatch = h.at_dispatch;
              }))))
      (λ failed.
        Failed-Arrives r s (p.register_late s).status failed _
          (fail7-Down r k b (p.register_late s).status s fit h))
