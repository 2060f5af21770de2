-- ===== src/Machine/Answers.antt =====
-- The answers of the code that the driver calls and that is not part of the repository: the
-- Windows kernel and the XENBUS interfaces. Each answer may depend on all calls made before it.
use qubes_vmm_xen_win_pvdriv.Common.{Bool, List, Option, ℕ}
use qubes_vmm_xen_win_pvdriv.Machine.Status.{NtStatus}
use qubes_vmm_xen_win_pvdriv.Machine.Calls.{Trace}

-- A status and an out parameter, which means something only if the status is a success.
pub record Answer (A : Type 0) : Type 0 where
  pub status : NtStatus
  pub out : A

-- A call inside __try: the value, or the code of the exception.
pub data Guarded (A : Type 0) : Type 0 where
  value : A → Guarded A
  exception : NtStatus → Guarded A

pub data ChannelType : Type 0 where
  unbound : (remote_domain : ℕ) → ChannelType
  inter_domain : (remote_domain remote_port : ℕ) → ChannelType

pub record Kernel : Type 0 where
  -- whether DBG is set: in a free build ASSERT does not evaluate its argument
  pub dbg : Bool
  pub allocate_pool : Trace → (size : ℕ) → Option ℕ
  pub reference_event : Trace → (handle : ℕ) → Answer ℕ
  pub probe_for_read : Trace → (address size : ℕ) → Guarded (Unit {0})
  pub probe_for_write : Trace → (size : ℕ) → Guarded (Unit {0})
  -- the store: buffers are answered with their address and their bytes
  pub store_read : Trace → (path : List ℕ) → Answer (ℕ × List ℕ)
  pub store_directory : Trace → (path : List ℕ) → Answer (ℕ × List ℕ)
  pub store_printf : Trace → (path format : List ℕ) → NtStatus
  pub store_remove : Trace → (path : List ℕ) → NtStatus
  pub permissions_set : Trace → (path : List ℕ) → List (ℕ × ℕ) → NtStatus
  pub watch_add : Trace → (path : List ℕ) → (event : ℕ) → Answer ℕ
  pub watch_remove : Trace → (watch : ℕ) → NtStatus
  -- event channels
  pub channel_open : Trace → ChannelType → (masked : Bool) → Option ℕ
  pub channel_port : Trace → (channel : ℕ) → ℕ
  pub insert_queue_dpc : Trace → (context : ℕ) → Bool
  -- grant tables and mappings
  pub permit_foreign_access : Trace → (domain pfn : ℕ) → (readonly : Bool) → Answer ℕ
  pub revoke_foreign_access : Trace → (entry : ℕ) → NtStatus
  pub get_reference : Trace → (entry : ℕ) → ℕ
  pub map_foreign_pages : Trace → (domain pages : ℕ) → List ℕ → (readonly : Bool) → Answer ℕ
  pub unmap_foreign_pages : Trace → (address : ℕ) → NtStatus
  pub map_io_space : Trace → (address size : ℕ) → Option ℕ
  pub allocate_mdl : Trace → (address size : ℕ) → Option ℕ
  pub mdl_pfn : Trace → (mdl page : ℕ) → ℕ
  pub map_locked_pages : Trace → (mdl : ℕ) → Guarded (Option ℕ)
  -- the rest
  pub allocate_work_item : Trace → Option ℕ
  pub suspend_count : Trace → ℕ
  pub get_time : Trace → ℕ
