-- ===== src/Power/Histories.antt =====
-- Sequences of Plug and Play and power IRPs, on a checked build: between them the device object is
-- in D0 with all of XENBUS, or in D3 with nothing of it.
use qubes_vmm_xen_win_pvdriv.Common.{subst, true, ℕ, ◌≡◌, ◌≢◌}
use qubes_vmm_xen_win_pvdriv.Machine.{Kernel, Reliable}
use qubes_vmm_xen_win_pvdriv.Distribution.{Build}
use qubes_vmm_xen_win_pvdriv.Distribution.Ledger.{DirectoriesFit}
use qubes_vmm_xen_win_pvdriv.Power.Adapter.{
  Adapter, Disposition, Platform, Turn, halted, misused, on,
}
use qubes_vmm_xen_win_pvdriv.Power.Balance.{Down}
use qubes_vmm_xen_win_pvdriv.Power.Requests.{
  PnpMinor, PowerMinor, fdo_dispatch_pnp, fdo_dispatch_power,
}
use qubes_vmm_xen_win_pvdriv.Power.Keeping.{Balanced, Down-Balanced, Stays}
use qubes_vmm_xen_win_pvdriv.Power.KeepingPnp.{Keeping-pnp}
use qubes_vmm_xen_win_pvdriv.Power.KeepingPower.{Keeping-power}

pub data PowerStep (k : Kernel) (b : Build) (p : Platform) (s t : Adapter) : Type 0 where
  pnp_irp :
      (minor : PnpMinor) (d : Disposition)
      → fdo_dispatch_pnp k b p minor s ≡ on d t
      → PowerStep k b p s t
  power_irp :
      (action : ℕ) (minor : PowerMinor) (d : Disposition)
      → fdo_dispatch_power k b p action minor s ≡ on d t
      → PowerStep k b p s t

pub data PowerReach (k : Kernel) (b : Build) (p : Platform) (s : Adapter) : Adapter → Type 0 where
  at_start : PowerReach k b p s s
  after_irp : {t u : Adapter} → PowerReach k b p s t → PowerStep k b p t u → PowerReach k b p s u

Stays-on : {A : Type 0} (t : Turn A) (a : A) (s : Adapter) → Stays t → t ≡ on a s → Balanced s
Stays-on (on c u) a s h q = subst Stays q h
Stays-on halted a s h q = cc
Stays-on misused a s h q = cc

-- The run releases nothing that is not held.
abbrev pub IsUse : {A : Type 0} → Turn A → Type 0
IsUse t = t ≢ misused

Stays-IsUse : {A : Type 0} (t : Turn A) → Stays t → IsUse t
Stays-IsUse (on a s) h q = cc
Stays-IsUse halted h q = cc
Stays-IsUse misused h q = h

PowerReach-Balanced' :
    (k : Kernel) (b : Build) (p : Platform) (s t : Adapter)
    → k.dbg ≡ true
    → DirectoriesFit k
    → Reliable k
    → Balanced s
    → PowerReach k b p s t
    → Balanced t
PowerReach-Balanced' k b p s t checked fit reliable h at_start = h
PowerReach-Balanced' k b p s t checked fit reliable h (after_irp {t = m} r (pnp_irp minor d q)) =
    Stays-on (fdo_dispatch_pnp k b p minor m) d t
      ((Keeping-pnp k b p checked fit reliable minor).keeps m
        (PowerReach-Balanced' k b p s m checked fit reliable h r))
      q
PowerReach-Balanced' k b p s t checked fit reliable h
      (after_irp {t = m} r (power_irp action minor d q)) =
    Stays-on (fdo_dispatch_power k b p action minor m) d t
      ((Keeping-power k b p checked fit reliable action minor).keeps m
        (PowerReach-Balanced' k b p s m checked fit reliable h r))
      q

-- In a checked build, where the names in the directories of the store fit an ANSI_STRING and the
-- store removes watches when asked: after any sequence of PnP and power IRPs from a device in D3
-- that holds no interface, callback or cache, the device is in D0 with each of the five
-- interfaces acquired once, one suspend callback, one grant cache and InterfacesAcquired set, or
-- in D3 with none of them held; and the IRQL is back at PASSIVE_LEVEL. No further IRP releases
-- one that is not held. The IRPs are those of a device without sessions.
pub PowerReach-Balanced :
    (k : Kernel) (b : Build) (p : Platform) (s t : Adapter)
    → k.dbg ≡ true
    → DirectoriesFit k
    → Reliable k
    → Down s
    → PowerReach k b p s t
    → Balanced t
      × ((minor : PnpMinor) → IsUse (fdo_dispatch_pnp k b p minor t))
      × ((action : ℕ) (minor : PowerMinor) → IsUse (fdo_dispatch_power k b p action minor t))
PowerReach-Balanced k b p s t checked fit reliable h r =
    let here = PowerReach-Balanced' k b p s t checked fit reliable (Down-Balanced s h) r in
    (
      here,
      λ minor.
          Stays-IsUse (fdo_dispatch_pnp k b p minor t)
            ((Keeping-pnp k b p checked fit reliable minor).keeps t here),
      λ action minor.
          Stays-IsUse (fdo_dispatch_power k b p action minor t)
            ((Keeping-power k b p checked fit reliable action minor).keeps t here),
    )
