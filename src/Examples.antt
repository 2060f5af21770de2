-- ===== src/Examples.antt =====
-- A concrete platform and device on which the examples run: each call succeeds, and each pointer
-- that it hands out is new.
use qubes_vmm_xen_win_pvdriv.Common.{
  Bool, List, Option, [], length, refl, some, true, ℕ, ◌+◌, ◌∷◌, ◌≡◌,
}
use qubes_vmm_xen_win_pvdriv.Machine.{
  Answer, EvtchnContext, FaultsFail, Guarded, Irp, Kernel, Machine, NtStatus, Reliable,
  StoreContext, SuspendContext, Synchronous, Trace, WorkItems, exception, grant_context,
  map_context, status_success, value,
}
use qubes_vmm_xen_win_pvdriv.IrpQueue.{IoCsq, IsDocumented, removed}
use qubes_vmm_xen_win_pvdriv.Store.Values.Handlers.{ListsEnd}
use qubes_vmm_xen_win_pvdriv.Dispatch.Ledger.{Platform}
use qubes_vmm_xen_win_pvdriv.Store.Strings.{multi_sz_len}
use qubes_vmm_xen_win_pvdriv.Gnttab.Grant.{PermitIn}
mod Stores
mod Threads
mod Wmi
mod Sessions
mod Values
mod Power
mod Library
mod Channels
mod Requests
mod Histories

abbrev pub fresh : Trace → ℕ
fresh t = length t + 100

-- Answers with the status of success.
abbrev pub granted : {A : Type 0} → A → Answer A
granted a = record { status = status_success; out = a }

-- The memory of the names "ab" and "c".
abbrev pub two_names : List ℕ
two_names = b'a' ∷ b'b' ∷ 0 ∷ b'c' ∷ 0 ∷ 0 ∷ []

abbrev pub kernel_of : (checked : Bool) → Guarded (Option ℕ) → Kernel
kernel_of checked mapped = record {
  dbg = checked;
  allocate_pool = λ t _. some (fresh t);
  reference_event = λ _ handle. granted (handle + 1000);
  probe_for_read = λ _ _ _. value tt;
  probe_for_write = λ _ _. value tt;
  store_read = λ t _. granted (fresh t, b'x' ∷ b'y' ∷ []);
  store_directory = λ t _. granted (fresh t, two_names);
  store_printf = λ _ _ _. status_success;
  store_remove = λ _ _. status_success;
  permissions_set = λ _ _ _. status_success;
  watch_add = λ t _ _. granted (fresh t);
  watch_remove = λ _ _. status_success;
  channel_open = λ t _ _. some (fresh t);
  channel_port = λ _ channel. channel + 5;
  insert_queue_dpc = λ _ _. true;
  permit_foreign_access = λ t _ _ _. granted (fresh t);
  revoke_foreign_access = λ _ _. status_success;
  get_reference = λ _ entry. entry + 1;
  map_foreign_pages = λ t _ _ _ _. granted (fresh t);
  unmap_foreign_pages = λ _ _. status_success;
  map_io_space = λ t _ _. some (fresh t);
  allocate_mdl = λ t _ _. some (fresh t);
  mdl_pfn = λ _ m page. m + page;
  map_locked_pages = λ _ _. mapped;
  allocate_work_item = λ t. some (fresh t);
  suspend_count = λ _. 3;
  get_time = λ _. 17;
}

abbrev pub kernel : Kernel
kernel = kernel_of true (value (some 7000))

abbrev pub csq : IoCsq
csq = record {
  insert_irp_ex = λ f l. f l;
  remove_next_irp = λ peek remove l. removed remove l (peek l);
}

pub csq-IsDocumented : IsDocumented csq
csq-IsDocumented = record { inserts = λ _ _. refl; removes = λ _ _ _. refl }

pub kernel-Synchronous : Synchronous kernel
kernel-Synchronous = record {
  prints = λ _ _ _. refl;
  removals = λ _ _. refl;
  watches = λ _ _ _. refl;
  references = λ _ _. refl;
}

pub kernel-Reliable : Reliable kernel
kernel-Reliable = record {
  watch_removed = λ _ _. refl;
  access_revoked = λ _ _. refl;
  pages_unmapped = λ _ _. refl;
}

pub kernel-WorkItems : WorkItems kernel
kernel-WorkItems = record { allocated = λ t h. cc }

apart : {A : Type 0} {x : A} {c : NtStatus} → value x ≡ exception c → ⊥
apart h = cc

pub kernel_of-FaultsFail :
    (checked : Bool) (va : Option ℕ) → FaultsFail (kernel_of checked (value va))
kernel_of-FaultsFail checked va = record {
  reads = λ t a s c h. elim (apart h) [ ];
  writes = λ t s c h. elim (apart h) [ ];
  locks = λ t m c h. elim (apart h) [ ];
}

pub kernel-ListsEnd : ListsEnd kernel
unfolding multi_sz_len
kernel-ListsEnd = record { ends = λ t path h. cc }

pub platform : Platform kernel csq
platform = record {
  checked = refl;
  reliable = kernel-Reliable;
  items = kernel-WorkItems;
  faults = kernel_of-FaultsFail true (some 7000);
  lists = kernel-ListsEnd;
  documented = csq-IsDocumented;
  synchronous = kernel-Synchronous;
}

-- The device of the examples, which file objects 7 and 8 have used.
abbrev pub watch : (address file : ℕ) → StoreContext
watch address file = record {
  address = address;
  watch = address + 1;
  event = address + 2;
  file_object = file;
}

abbrev pub channel : (address port file : ℕ) → EvtchnContext
channel address port file = record {
  address = address;
  channel = address + 1;
  local_port = port;
  event = address + 2;
  file_object = file;
}

abbrev pub suspend : (address file : ℕ) → SuspendContext
suspend address file = record { address = address; event = address + 1; file_object = file }

abbrev pub grant : (irp request_id : ℕ) → Irp
grant irp request_id = record {
  irp = irp;
  context = grant_context (record {
    id = record { request_id = request_id; process = 4 };
    address = irp + 1;
    grants = irp + 2;
    entries = 51 ∷ 52 ∷ [];
    remote_domain = 1;
    number_pages = 2;
    flags = 6;
    notify_offset = 10;
    notify_port = 31;
    kernel_va = irp + 3;
    user_va = irp + 4;
    mdl = irp + 5;
  });
}

abbrev pub mapping : (irp request_id : ℕ) → Irp
mapping irp request_id = record {
  irp = irp;
  context = map_context (record {
    id = record { request_id = request_id; process = 4 };
    address = irp + 1;
    remote_domain = 1;
    number_pages = 2;
    flags = 6;
    notify_offset = 10;
    notify_port = 31;
    foreign = irp + 2;
    kernel_va = irp + 3;
    user_va = irp + 4;
    mdl = irp + 5;
  });
}

abbrev pub machine : Machine
machine = record {
  fdo = record {
    interfaces_acquired = true;
    store_watch_list = watch 10 7 ∷ watch 20 8 ∷ [];
    evtchn_list = channel 110 31 7 ∷ channel 120 32 8 ∷ [];
    suspend_list = suspend 210 7 ∷ suspend 220 8 ∷ [];
    irp_list = grant 300 1 ∷ mapping 400 2 ∷ [];
  };
  trace = [];
}

-- A request to share two pages.
abbrev pub permit_in : PermitIn
permit_in = record {
  request_id = 3;
  remote_domain = 1;
  number_pages = 2;
  flags = 6;
  notify_offset = 10;
  notify_port = 31;
}
