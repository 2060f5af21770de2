-- ===== src/Power/Keeping.antt =====
-- The device object is in D0 with all of XENBUS, or in D3 with nothing of it; rules for commands
-- that keep it so.
use qubes_vmm_xen_win_pvdriv.Common.{
  Bool, arith, false, if◌then◌else◌, inl, inr, not, refl, true, ℕ, ◌&&◌, ◌≡◌, ◌⊎◌,
}
use qubes_vmm_xen_win_pvdriv.Machine.{Kernel, NtStatus, Reliable, Resource, nt_success, pool}
use qubes_vmm_xen_win_pvdriv.Power.Adapter.{
  Adapter, Interfaces, Platform, Power, Turn, adapter, assert_that, attempt, change, device_d0,
  device_d3, give, go_on, halted, misused, on, pass_down, ◌>>=◌,
}
use qubes_vmm_xen_win_pvdriv.Power.Balance.{Arrives, Down, Lands, Up, each}
use qubes_vmm_xen_win_pvdriv.Power.Descent.{Departs, d0_to_d3_of_adapter-Departs}
use qubes_vmm_xen_win_pvdriv.Power.Cycle.{d3_to_d0_of_adapter-Arrives}
use qubes_vmm_xen_win_pvdriv.Power.Transitions.{
  at_device, d0_to_d3_of_adapter, d3_to_d0_of_adapter, passive,
}
use qubes_vmm_xen_win_pvdriv.Distribution.{Build}
use qubes_vmm_xen_win_pvdriv.Distribution.Ledger.{DirectoriesFit}

-- The device power state, the interfaces, the callbacks, the caches, whether the IRQL is raised,
-- and InterfacesAcquired.
pub data BalancedAt : ℕ → Interfaces → ℕ → ℕ → Bool → Bool → Type 0 where
  up : BalancedAt device_d0 (each 1) 1 1 false true
  down : {flag : Bool} → BalancedAt device_d3 (each 0) 0 0 false flag

abbrev pub Balanced : Adapter → Type 0
Balanced s =
    BalancedAt s.device_power_state s.interfaces s.callbacks s.caches s.raised
      s.machine.fdo.interfaces_acquired

pub Up-Balanced : (s : Adapter) → Up s → Balanced s
Up-Balanced s h = rw (h.in_d0, h.one_each, h.one_callback, h.one_cache, h.at_passive, h.usable) up

pub Down-Balanced : (s : Adapter) → Down s → Balanced s
Down-Balanced s h = rw (h.in_d3, h.none_held, h.no_callback, h.no_cache, h.at_passive) down

balanced_cases :
    {d : ℕ} {i : Interfaces} {callbacks caches : ℕ} {raised flag : Bool}
    → BalancedAt d i callbacks caches raised flag
    → ((d ≡ device_d0)
        × (i ≡ each 1)
        × (callbacks ≡ 1)
        × (caches ≡ 1)
        × (raised ≡ false)
        × (flag ≡ true))
      ⊎ ((d ≡ device_d3) × (i ≡ each 0) × (callbacks ≡ 0) × (caches ≡ 0) × (raised ≡ false))
balanced_cases up = inl (refl, refl, refl, refl, refl, refl)
balanced_cases down = inr (refl, refl, refl, refl, refl)

-- A state after which the command goes on is balanced, and nothing is released that is not held.
abbrev pub Stays : {A : Type 0} → Turn A → Type 0
Stays (on a s) = Balanced s
Stays halted = Unit
Stays misused = ⊥

pub record Keeping {A : Type 0} (c : Power A) : Type 0 where
  pub keeps : (s : Adapter) → Balanced s → Stays (c s)

Stays-go_on :
    {A B : Type 0} (t : Turn A) (c : A → Power B)
    → Stays t
    → ((a : A) → Keeping (c a))
    → Stays (go_on t c)
Stays-go_on (on a s) c h next = (next a).keeps s h
Stays-go_on halted c h next = tt
Stays-go_on misused c h next = h

pub Keeping-bind :
    {A B : Type 0} (c : Power A) (d : A → Power B)
    → Keeping c
    → ((a : A) → Keeping (d a))
    → Keeping (c >>= d)
Keeping-bind c d h next = record { keeps = λ s q. Stays-go_on (c s) d (h.keeps s q) next }

pub Keeping-if :
    {A : Type 0} (b : Bool) (c d : Power A) → Keeping c → Keeping d → Keeping (if b then c else d)
Keeping-if true c d h g = h
Keeping-if false c d h g = g

pub Stays-if :
    {A : Type 0} (b : Bool) (t u : Turn A) → Stays t → Stays u → Stays (if b then t else u)
Stays-if true t u h g = h
Stays-if false t u h g = g

pub Keeping-assert : (k : Kernel) (test : Adapter → Bool) → Keeping (assert_that k test)
Keeping-assert k test = record {
  keeps = λ s q. Stays-if (k.dbg && not (test s)) halted (on tt s) tt q;
}

-- An attempt at a call that does not touch the balance.
pub Keeping-attempt :
    {A : Type 0} (status : Adapter → NtStatus) (effect : Adapter → Adapter)
    (fail : NtStatus → Power A) (go : Power A)
    → ((s : Adapter) → Balanced s → Balanced (effect s))
    → ((e : NtStatus) → Keeping (fail e))
    → Keeping go
    → Keeping (attempt status effect fail go)
Keeping-attempt status effect fail go h f g = record {
  keeps = λ s q.
      Stays-if (nt_success (status s)) (go (effect s)) (fail (status s) s)
        (g.keeps (effect s) (h s q)) ((f (status s)).keeps s q);
}

-- A change that does not touch the balance, and the commands that change nothing.
pub Keeping-change :
    (f : Adapter → Adapter) → ((s : Adapter) → Balanced s → Balanced (f s)) → Keeping (change f)
Keeping-change f h = record { keeps = h }

pub Keeping-give : {A : Type 0} (a : A) → Keeping (give a)
Keeping-give a = record { keeps = λ s q. q }

pub Keeping-adapter : Keeping adapter
Keeping-adapter = record { keeps = λ s q. q }

pub Keeping-pass_down : (p : Platform) → Keeping (pass_down p)
Keeping-pass_down p = record { keeps = λ s q. q }

either-Balanced : (b : Bool) (t : Adapter) → (if b then Up t else Down t) → Balanced t
either-Balanced true t h = Up-Balanced t h
either-Balanced false t h = Down-Balanced t h

Arrives-Stays : (r : Resource) (s : Adapter) (t : Turn NtStatus) → Lands (Arrives r s) t → Stays t
Arrives-Stays r s (on a t) h = either-Balanced (nt_success a) t h.0
Arrives-Stays r s halted h = tt
Arrives-Stays r s misused h = h

Departs-Stays :
    (r : Resource) (s : Adapter) (t : Turn (Unit {0})) → Lands (λ _ u. Departs r s u) t → Stays t
Departs-Stays r s (on a t) h = Down-Balanced t h.0
Departs-Stays r s halted h = tt
Departs-Stays r s misused h = h

-- A transition: in a checked build it does not start in the wrong state.
pub Keeping-d3_to_d0 :
    (k : Kernel) (b : Build) (p : Platform)
    → k.dbg ≡ true
    → DirectoriesFit k
    → Keeping (d3_to_d0_of_adapter k b p)
unfolding d3_to_d0_of_adapter
Keeping-d3_to_d0 k b p checked fit = record {
  keeps = λ s q. elim (balanced_cases q) [
    | inr (d, i, c, h, r) ↦ Arrives-Stays (pool 0) s (d3_to_d0_of_adapter k b p s) (
        d3_to_d0_of_adapter-Arrives (pool 0) k b p s fit
          (record { in_d3 = d; none_held = i; no_callback = c; no_cache = h; at_passive = r }))
    | inl h ↦
        (let stop : (k.dbg && not (passive s && at_device device_d3 s)) ≡ true =
            ground (arith, checked, h.0) in
          rw stop tt)
  ];
}

pub Keeping-d0_to_d3 :
    (k : Kernel) (b : Build)
    → k.dbg ≡ true
    → DirectoriesFit k
    → Reliable k
    → Keeping (d0_to_d3_of_adapter k b)
unfolding d0_to_d3_of_adapter
Keeping-d0_to_d3 k b checked fit reliable = record {
  keeps = λ s q. elim (balanced_cases q) [
    | inl (d, i, c, h, r, f) ↦ Departs-Stays (pool 0) s (d0_to_d3_of_adapter k b s) (
        d0_to_d3_of_adapter-Departs (pool 0) k b s fit reliable (record {
          in_d0 = d;
          one_each = i;
          one_callback = c;
          one_cache = h;
          at_passive = r;
          usable = f;
        }))
    | inr h ↦
        (let stop : (k.dbg && not (passive s && at_device device_d0 s)) ≡ true =
            ground (arith, checked, h.0) in
          rw stop tt)
  ];
}
