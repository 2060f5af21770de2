-- ===== src/XenControl/Session.antt =====
-- The state of src/xencontrol/xencontrol_private.h, XcOpen, XcClose, and the call of the driver
-- that all functions of src/xencontrol/xencontrol.c make. Windows is the parameter `Win32`; the
-- device behind the handle, with all that Windows keeps of it, is the type `D`.
use qubes_vmm_xen_win_pvdriv.Common.{
  Bool, List, Option, [], false, if◌then◌else◌, none, not, some, suc, true, zero, ℕ, ◌%◌, ◌+◌, ◌-◌,
  ◌^◌,
}
use qubes_vmm_xen_win_pvdriv.Machine.{Output}
use qubes_vmm_xen_win_pvdriv.Dispatch.{Ioctl}

-- XENCONTROL_GNTTAB_REQUEST. Windows alone reads the Overlapped.
pub record GnttabRequest : Type 0 where
  pub id : ℕ
  pub address : ℕ

-- How often a critical section is entered and not left; to leave it otherwise is a misuse.
pub data CriticalSection : Type 0 where
  entered : (depth : ℕ) → CriticalSection
  misused : CriticalSection

unfoldable pub enter_lock : CriticalSection → CriticalSection
enter_lock (entered n) = entered (suc n)
enter_lock misused = misused

unfoldable pub leave_lock : CriticalSection → CriticalSection
leave_lock (entered zero) = misused
leave_lock (entered (suc n)) = entered n
leave_lock misused = misused

-- XENCONTROL_CONTEXT, with the state that the library shares with Windows: `allocations` the number of blocks of malloc that are
-- not freed. The logger is left out.
pub record XenControl (D : Type 0) : Type 0 where
  pub request_id : ℕ
  pub request_list : List GnttabRequest
  pub request_list_lock : CriticalSection
  pub allocations : ℕ
  pub device : D

-- What DeviceIoControl answers, GetLastError after it, and what the driver left in the output
-- buffer.
pub record IoAnswer : Type 0 where
  pub success : Bool
  pub error : ℕ
  pub output : Output

pub record Win32 (D : Type 0) : Type 0 where
  -- whether malloc returns a block, given the number of live blocks and the size
  pub malloc : D → (allocations size : ℕ) → Bool
  pub device_io_control :
      (code : Ioctl) → (in_size out_size : ℕ) → (overlapped : Bool) → D → IoAnswer × D
  -- where the In of a grant or map request lies
  pub in_buffer : ℕ
  -- what memory holds that nobody wrote
  pub garbage : ℕ

-- How a function of the library ends: its return value, what it stores through its OUT pointers,
-- and the state after it; or with a write behind the end of a block of malloc.
pub data XcRun (D A : Type 0) : Type 0 where
  returns : (status : ℕ) → Option A → XenControl D → XcRun D A
  heap_overflow : XcRun D A

-- Error codes of Windows.
abbrev pub error_success : ℕ
error_success = 0

abbrev pub error_not_enough_memory : ℕ
error_not_enough_memory = 8

abbrev pub error_out_of_memory : ℕ
error_out_of_memory = 14

abbrev pub error_io_pending : ℕ
error_io_pending = 997

abbrev pub error_not_found : ℕ
error_not_found = 1168

abbrev pub error_unidentified_error : ℕ
error_unidentified_error = 1287

-- `(DWORD)` of a 64-bit number.
abbrev pub dword : ℕ → ℕ
dword n = n % 2 ^ 32

-- Structure sizes on x64.
abbrev pub request_size : ℕ
request_size = 64

module _ {D : Type 0} where
  -- EnterCriticalSection and LeaveCriticalSection.
  abbrev pub enter : XenControl D → XenControl D
  enter x = record x { request_list_lock = enter_lock x.request_list_lock }

  abbrev pub leave : XenControl D → XenControl D
  leave x = record x { request_list_lock = leave_lock x.request_list_lock }

  -- `malloc` that succeeded, or not, and `free` of its result, which may be NULL.
  abbrev pub allocated : Bool → XenControl D → XenControl D
  allocated true x = record x { allocations = x.allocations + 1 }
  allocated false x = x

  abbrev pub freed_block : Bool → XenControl D → XenControl D
  freed_block true x = record x { allocations = x.allocations - 1 }
  freed_block false x = x

  abbrev pub with_device : XenControl D → D → XenControl D
  with_device x d = record x { device = d }

  -- A DeviceIoControl without OVERLAPPED and the end of the functions that make one:
  -- ERROR_SUCCESS, or at `fail` the error, which Log keeps.
  unfoldable pub device_call :
      {A : Type 0}
      → Win32 D
      → (Output → Option A)
      → (code : Ioctl) (in_size out_size : ℕ) → XenControl D
      → XcRun D A
  device_call w read code in_size out_size x =
      let (a, d) = w.device_io_control code in_size out_size false x.device in
      if a.success
      then returns error_success (read a.output) (with_device x d)
      else returns a.error none (with_device x d)

-- The answers of Windows to the calls of XcOpen, as far as they are made.
pub record Setup : Type 0 where
  pub context_allocated : Bool
  pub class_found : Bool
  pub interface_found : Bool
  -- the first SetupDiGetDeviceInterfaceDetail fails with ERROR_INSUFFICIENT_BUFFER
  pub size_found : Bool
  pub detail_allocated : Bool
  pub detail_found : Bool
  pub device_opened : Bool
  -- GetLastError at `fail`
  pub last_error : ℕ

-- What XcOpen leaves: its return value, *Xc, the live blocks of malloc and the device information
-- sets that it made.
pub record Opened (D : Type 0) : Type 0 where
  pub status : ℕ
  pub context : Option (XenControl D)
  pub allocations : ℕ
  pub information_sets : ℕ

-- At `fail`: DetailData is freed, Context and DevInfo are not.
abbrev pub open_fail : {D : Type 0} → ℕ → (information_sets : ℕ) → Opened D
open_fail error n = record { status = error; context = none; allocations = 1; information_sets = n }

unfoldable pub xc_open : {D : Type 0} → Setup → D → Opened D
xc_open s d =
    if not s.context_allocated
    then record {
      status = error_not_enough_memory;
      context = none;
      allocations = 0;
      information_sets = 0;
    }
    else if not s.class_found
    then open_fail s.last_error 0
    else if not s.interface_found
    then open_fail s.last_error 1
    else if not s.size_found
    then open_fail s.last_error 1
    else if not s.detail_allocated
    then open_fail error_out_of_memory 1
    else if not s.detail_found
    then open_fail s.last_error 1
    else if not s.device_opened
    then open_fail s.last_error 1
    else record {
      status = error_success;
      context = some (record {
        request_id = 1;
        request_list = [];
        request_list_lock = entered 0;
        allocations = 1;
        device = d;
      });
      allocations = 1;
      information_sets = 1;
    }

-- XcClose frees the context; the blocks of its requests stay. The result is how many stay.
unfoldable pub xc_close : {D : Type 0} → XenControl D → ℕ
xc_close x = x.allocations - 1
