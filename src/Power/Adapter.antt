-- ===== src/Power/Adapter.antt =====
-- The state of the device object that power and Plug and Play change, commands over it, and the
-- answers of the lower driver, of Windows and of XENBUS. The resource table and the sessions of
-- src/xeniface/wmi.c are left out.
use qubes_vmm_xen_win_pvdriv.Common.{Bool, Option, if◌then◌else◌, not, ℕ, ◌&&◌}
use qubes_vmm_xen_win_pvdriv.Machine.{Answer, Cmd, Kernel, Machine, NtStatus, Run, nt_success, ok}

-- DEVICE_PNP_STATE of src/xeniface/types.h.
pub data DevicePnpState : Type 0 where
  invalid added started stop_pending stopped remove_pending : DevicePnpState
  surprise_remove_pending deleted : DevicePnpState

-- PowerDeviceD0 and PowerDeviceD3 of DEVICE_POWER_STATE.
abbrev pub device_d0 : ℕ
device_d0 = 1

abbrev pub device_d3 : ℕ
device_d3 = 4

-- Some of SYSTEM_POWER_STATE.
abbrev pub system_working : ℕ
system_working = 1

abbrev pub system_sleeping3 : ℕ
system_sleeping3 = 4

abbrev pub system_hibernate : ℕ
system_hibernate = 5

abbrev pub system_shutdown : ℕ
system_shutdown = 6

-- How often each interface of XENBUS is acquired and not released.
pub record Interfaces : Type 0 where
  pub store : ℕ
  pub evtchn : ℕ
  pub gnttab : ℕ
  pub suspend : ℕ
  pub shared_info : ℕ

-- XENIFACE_DX and XENIFACE_FDO. `callbacks` and `caches` count what is registered with
-- XENBUS_SUSPEND and created with XENBUS_GNTTAB and not given back. `raised` tells whether the
-- IRQL is DISPATCH_LEVEL.
pub record Adapter : Type 0 where
  pub device_pnp_state : DevicePnpState
  pub previous_device_pnp_state : DevicePnpState
  pub system_power_state : ℕ
  pub device_power_state : ℕ
  pub interfaces : Interfaces
  pub suspend_callback_late : Option ℕ
  pub callbacks : ℕ
  pub gnttab_cache : Option ℕ
  pub caches : ℕ
  pub raised : Bool
  pub wmi_ready : Bool
  pub interface_enabled : Bool
  pub lower_capabilities : ℕ → ℕ
  pub usage : ℕ → ℕ
  pub not_disableable : Bool
  pub references : ℕ
  pub destroyed : Bool
  pub machine : Machine

-- The answers, each of which may depend on the state.
pub record Platform : Type 0 where
  -- FdoForwardIrpSynchronously, and IoCallDriver at the end of a handler
  pub forward : Adapter → NtStatus
  pub call_driver : Adapter → NtStatus
  pub acquire_store : Adapter → NtStatus
  pub acquire_evtchn : Adapter → NtStatus
  pub acquire_gnttab : Adapter → NtStatus
  pub acquire_suspend : Adapter → NtStatus
  pub acquire_shared_info : Adapter → NtStatus
  pub register_late : Adapter → Answer ℕ
  pub create_cache : Adapter → Answer ℕ
  pub set_interface_state : Adapter → (enable : Bool) → NtStatus
  pub wmi_register : Adapter → NtStatus
  -- PoRequestPowerIrp
  pub request_power : Adapter → NtStatus

pub data Turn (A : Type 0) : Type 0 where
  on : A → Adapter → Turn A
  -- an ASSERT of a checked build fails, or the C code has undefined behaviour
  halted : Turn A
  -- what is not held is released
  misused : Turn A

abbrev pub Power : Type 0 → Type 0
Power A = Adapter → Turn A

abbrev pub give : {A : Type 0} → A → Power A
give = on

module _ {A B : Type 0} where
  abbrev pub go_on : Turn A → (A → Power B) → Turn B
  go_on (on a s) k = k a s
  go_on halted k = halted
  go_on misused k = misused

  infixl 5 ◌>>=◌ ◌>>◌
  abbrev pub ◌>>=◌ : Power A → (A → Power B) → Power B
  p >>= k = λ s. go_on (p s) k

  abbrev pub ◌>>◌ : Power A → Power B → Power B
  p >> q = p >>= λ _. q

abbrev pub adapter : Power Adapter
adapter s = on s s

abbrev pub change : (Adapter → Adapter) → Power (Unit {0})
change f s = on tt (f s)

-- ASSERT, in a checked build.
abbrev pub assert_that : Kernel → (Adapter → Bool) → Power (Unit {0})
assert_that k test s = if k.dbg && not (test s) then halted else on tt s

-- A command of the handlers that ends without a `return` of its own.
abbrev pub settled : {A : Type 0} → Run A → Adapter → Turn A
settled (ok a m) s = on a (record s { machine = m })
settled _ s = halted

abbrev pub perform : {A : Type 0} → Cmd A → Power A
perform c s = settled (c s.machine) s

-- A call with a status: the change that a success makes, or the code behind `fail`.
abbrev pub attempt :
    {A : Type 0}
    → (Adapter → NtStatus)
    → (Adapter → Adapter)
    → (fail : NtStatus → Power A) → (go : Power A) → Power A
attempt status effect fail go s = if nt_success (status s) then go (effect s) else fail (status s) s

-- How a handler disposes of its IRP: it completes it, or passes it to the lower driver, whose
-- status it returns.
pub data Disposition : Type 0 where
  completed : NtStatus → Disposition
  passed_down : NtStatus → Disposition

abbrev pub pass_down : Platform → Power Disposition
pass_down p s = on (passed_down (p.call_driver s)) s

abbrev pub set_interfaces : (Interfaces → Interfaces) → Adapter → Adapter
set_interfaces f s = record s { interfaces = f s.interfaces }

-- InterfacesAcquired, which the IOCTL handlers read.
abbrev pub set_acquired : Bool → Adapter → Adapter
set_acquired b s = record s {
  machine = record s.machine { fdo = record s.machine.fdo { interfaces_acquired = b } };
}
