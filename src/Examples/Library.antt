-- ===== src/Examples/Library.antt =====
-- The user library over the driver of the examples.
use qubes_vmm_xen_win_pvdriv.Common.{
  List, [], arith, false, if◌then◌else◌, not, refl, true, ℕ, ◌&&◌, ◌+◌, ◌==◌, ◌||◌, ◌∷◌, ◌≡◌,
}
use qubes_vmm_xen_win_pvdriv.Machine.{
  Machine, Reply, Run, assertion_failure, exit, nt_success, ok, out_nothing, out_pages,
  status_pending, status_success, undefined,
}
use qubes_vmm_xen_win_pvdriv.Dispatch.{Request, xen_iface_ioctl}
use qubes_vmm_xen_win_pvdriv.XenControl.Session.{
  entered, enter_lock, leave_lock, IoAnswer, Setup, Win32, XenControl, error_io_pending,
  error_success, xc_open,
}
use qubes_vmm_xen_win_pvdriv.XenControl.Store.{xc_store_set_permissions, xc_store_write}
use qubes_vmm_xen_win_pvdriv.XenControl.Delivery.{
  Delivers, Replies, Returns, Written, xc_store_write_delivers,
}
use qubes_vmm_xen_win_pvdriv.XenControl.Refusal.{Refused, xc_store_set_permissions_none}
use qubes_vmm_xen_win_pvdriv.Examples.{csq, fresh, kernel, kernel-Synchronous, machine}
use qubes_vmm_xen_win_pvdriv.XenControl.Gnttab.{permit_call, xc_gnttab_permit_foreign_access}
use qubes_vmm_xen_win_pvdriv.XenControl.Calls.{Called, after, call, called, opened, permit}
use qubes_vmm_xen_win_pvdriv.XenControl.Calls.Requests.{Sound}
use qubes_vmm_xen_win_pvdriv.XenControl.Calls.Sound.{Called-Sound}

-- How Windows turns the driver's reply into an answer; a pending request is answered with the
-- error code of that, and a stopped system with no answer of its own.
abbrev answered : Run Reply → Machine → IoAnswer × Machine
answered (ok a n) m = (
  record {
    success = nt_success a.status && not (a.status == status_pending);
    error = if a.status == status_pending then error_io_pending else 31;
    output = a.output;
  },
  n,
)
answered (exit a n) m = (
  record {
    success = nt_success a.status && not (a.status == status_pending);
    error = if a.status == status_pending then error_io_pending else 31;
    output = a.output;
  },
  n,
)
answered _ m = (record { success = false; error = 31; output = out_nothing }, m)

answered_lem :
    (u : Run Reply) (m n : Machine) (a : Reply)
    → Replies u a n
    → (a.status == status_pending) ≡ false
    → let (b, d) = answered u m in
      (b.success ≡ nt_success a.status)
      × ((b.success || not (b.error == error_success)) ≡ true)
      × (b.output ≡ a.output)
      × (d ≡ n)
answered_lem (ok a' o) m n a h p = ground (arith, h.0, h.1, p)
answered_lem (exit a' o) m n a h p = ground (arith, h.0, h.1, p)
answered_lem assertion_failure m n a h p = elim h [ ]
answered_lem undefined m n a h p = elim h [ ]

abbrev request_of : (in_size out_size : ℕ) → Machine → Request
request_of i o m = record {
  irp = fresh m.trace;
  in_len = i;
  out_len = o;
  file_object = 7;
  process = 4;
}

abbrev windows : Win32 Machine
windows = record {
  malloc = λ _ _ _. true;
  device_io_control =
      λ code i o _ m. answered (xen_iface_ioctl kernel csq (request_of i o m) code m) m;
  in_buffer = 600;
  garbage = 0xCC;
}

abbrev delivery : Delivers kernel csq windows
delivery = record {
  irp = λ m. fresh m.trace;
  file_object = 7;
  process = 4;
  delivers = λ code i o m n a h p.
      answered_lem (xen_iface_ioctl kernel csq (request_of i o m) code m) m n a h p;
}

abbrev session : XenControl Machine
session = record {
  request_id = 1;
  request_list = [];
  request_list_lock = entered 0;
  allocations = 1;
  device = machine;
}

abbrev path : List ℕ
path = b'a' ∷ b'/' ∷ b'b' ∷ []

abbrev text : List ℕ
text = b'o' ∷ b'n' ∷ []

xc_store_write_example :
    Returns
      (Written path text (fresh []) status_success session)
      (xc_store_write windows path text session)
xc_store_write_example =
    xc_store_write_delivers kernel csq windows delivery path text session kernel-Synchronous
      (refl, (refl, (refl, tt))) (refl, (refl, tt)) (refl, (refl, tt)) (omega arith) refl refl

xc_store_set_permissions_example :
    Returns
      (Refused (fresh []) session)
      (xc_store_set_permissions windows 500 path 0 (λ _. (0, 0)) session)
xc_store_set_permissions_example =
    xc_store_set_permissions_none kernel csq windows delivery 500 path (λ _. (0, 0)) session refl
      refl

-- Windows over a device that keeps every request pending, and counts them.
abbrev pending_windows : Win32 ℕ
pending_windows = record {
  malloc = λ _ _ _. true;
  device_io_control = λ code i o _ d. (
    record {
      success = false;
      error = error_io_pending;
      output = out_pages (900 + d) (31 ∷ 32 ∷ []);
    },
    d + 1,
  );
  in_buffer = 600;
  garbage = 0xCC;
}

abbrev setup : Setup
setup = record {
  context_allocated = true;
  class_found = true;
  interface_found = true;
  size_found = true;
  detail_allocated = true;
  detail_found = true;
  device_opened = true;
  last_error = 122;
}

-- After two requests to share pages.
abbrev sharing : XenControl ℕ
sharing = record {
  request_id = 3;
  request_list = record { id = 1; address = 900 } ∷ record { id = 2; address = 901 } ∷ [];
  request_list_lock = entered 0;
  allocations = 3;
  device = 2;
}

shares : Called pending_windows 0 2 sharing
unfolding call after xc_gnttab_permit_foreign_access permit_call xc_open leave_lock enter_lock
shares =
    called
      {x = record {
        request_id = 2;
        request_list = record { id = 1; address = 900 } ∷ [];
        request_list_lock = entered 0;
        allocations = 2;
        device = 1;
      }}
      (permit 1 2 10 31 6)
      (called
        {x = record {
          request_id = 1;
          request_list = [];
          request_list_lock = entered 0;
          allocations = 1;
          device = 0;
        }}
        (permit 1 2 10 31 6) (opened setup refl) refl)
      refl

Called-Sound_example : Sound 2 sharing
Called-Sound_example = Called-Sound pending_windows 0 2 sharing (omega arith) shares
