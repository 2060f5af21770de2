-- ===== src/Machine/Calls.antt =====
-- The calls that the driver makes of the Windows kernel and of XENBUS, as a history, and the
-- resources which such calls hand to the driver and take back. The calls themselves are not code
-- of the driver: only the fact that they were made is recorded.
use qubes_vmm_xen_win_pvdriv.Common.{
  Bool, List, Option, [], false, if◌then◌else◌, none, some, ℕ, ◌+◌, ◌==◌, ◌∷◌,
}
use qubes_vmm_xen_win_pvdriv.Machine.Status.{NtStatus}

-- What a successful call hands to the driver, named by the pointer or number that it returns.
pub data Resource : Type 0 where
  -- ExAllocatePoolWithTag, ExFreePoolWithTag
  pool : ℕ → Resource
  -- ObReferenceObjectByHandle, ObDereferenceObject
  event_object : ℕ → Resource
  -- XENBUS_STORE(Read), XENBUS_STORE(Directory), XENBUS_STORE(Free)
  store_value : ℕ → Resource
  -- XENBUS_STORE(WatchAdd), XENBUS_STORE(WatchRemove)
  store_watch : ℕ → Resource
  -- XENBUS_EVTCHN(Open), XENBUS_EVTCHN(Close)
  evtchn_channel : ℕ → Resource
  -- XENBUS_GNTTAB(PermitForeignAccess), XENBUS_GNTTAB(RevokeForeignAccess)
  grant_entry : ℕ → Resource
  -- XENBUS_GNTTAB(MapForeignPages), XENBUS_GNTTAB(UnmapForeignPages)
  foreign_pages : ℕ → Resource
  -- MmMapIoSpace, MmUnmapIoSpace
  io_space : ℕ → Resource
  -- IoAllocateMdl, IoFreeMdl
  mdl_memory : ℕ → Resource
  -- MmMapLockedPagesSpecifyCache, MmUnmapLockedPages
  user_mapping : ℕ → Resource
  -- IoAllocateWorkItem, IoFreeWorkItem
  work_item : ℕ → Resource
  -- XENBUS_STORE(TransactionStart), XENBUS_STORE(TransactionEnd)
  store_transaction : ℕ → Resource
  -- the reference on a thread: ObReferenceObjectByHandle, ObDereferenceObject
  thread_object : ℕ → Resource
  -- the handle of a thread: PsCreateSystemThread, ZwClose
  thread_handle : ℕ → Resource
  -- an IRP, from the call of the dispatch routine to IoCompleteRequest
  request_irp : ℕ → Resource

same : Resource → Resource → Bool
same (pool a) (pool b) = a == b
same (event_object a) (event_object b) = a == b
same (store_value a) (store_value b) = a == b
same (store_watch a) (store_watch b) = a == b
same (evtchn_channel a) (evtchn_channel b) = a == b
same (grant_entry a) (grant_entry b) = a == b
same (foreign_pages a) (foreign_pages b) = a == b
same (io_space a) (io_space b) = a == b
same (mdl_memory a) (mdl_memory b) = a == b
same (user_mapping a) (user_mapping b) = a == b
same (work_item a) (work_item b) = a == b
same (store_transaction a) (store_transaction b) = a == b
same (thread_object a) (thread_object b) = a == b
same (thread_handle a) (thread_handle b) = a == b
same (request_irp a) (request_irp b) = a == b
same _ _ = false

-- 1 where the two are the same resource, and 0 elsewhere.
unfoldable pub one : Resource → Resource → ℕ
unfolding same
one r s = if same r s then 1 else 0

pub data Event : Type 0 where
  acquire release : Resource → Event
  -- a call that failed, or that only reports
  asked : Event
  -- RtlZeroMemory over an allocation
  zero_memory : ℕ → Event
  -- a byte of a shared page is set to 0: base address and offset
  clear_byte : ℕ → ℕ → Event
  -- KeSetEvent, KeFlushQueuedDpcs, KeInsertQueueDpc
  set_event : ℕ → Event
  flush_dpcs : Event
  queue_dpc : ℕ → Event
  -- XENBUS_EVTCHN(Send), XENBUS_EVTCHN(Unmask)
  send unmask : ℕ → Event
  -- XENBUS_STORE(Printf) with its node and format, and XENBUS_STORE(Remove)
  store_printf : List ℕ → List ℕ → Event
  store_remove : List ℕ → Event
  -- XENBUS_STORE(PermissionsSet), with the pairs of domain and mask
  permissions_set : List ℕ → List (ℕ × ℕ) → Event
  -- the transaction of the session in which the next call of the store is made
  in_transaction : ℕ → Event
  -- WmiFireEvent, with its data
  fire_event : List ℕ → Event
  -- the driver's line for the log
  log_line : List ℕ → Event
  -- IoQueueWorkItem, with the IRP
  queue_work_item : ℕ → ℕ → Event
  -- IoCompleteRequest: the IRP and its final status
  complete_request : ℕ → NtStatus → Event

-- Newest first.
abbrev pub Trace : Type 0
Trace = List Event

-- How often a resource was handed out, and how often it was given back.
abbrev pub acquired : Resource → Trace → ℕ
acquired r [] = 0
acquired r (acquire s ∷ t) = one r s + acquired r t
acquired r (_ ∷ t) = acquired r t

abbrev pub released : Resource → Trace → ℕ
released r [] = 0
released r (release s ∷ t) = one r s + released r t
released r (complete_request p s ∷ t) = one r (request_irp p) + released r t
released r (_ ∷ t) = released r t

-- The call made last.
abbrev pub latest : Trace → Option Event
latest [] = none
latest (e ∷ _) = some e

-- The arguments of the last XENBUS_STORE(PermissionsSet).
abbrev pub last_permissions : Trace → Option (List ℕ × List (ℕ × ℕ))
last_permissions [] = none
last_permissions (permissions_set path l ∷ _) = some (path, l)
last_permissions (_ ∷ t) = last_permissions t
