-- ===== src/XenControl/Refusal.antt =====
-- A request of src/xencontrol/xencontrol.c that src/xeniface/ioctl_store.c refuses.
use qubes_vmm_xen_win_pvdriv.Common.{List, arith, false, not, refl, true, ℕ, ◌==◌, ◌||◌, ◌∷◌, ◌≡◌}
use qubes_vmm_xen_win_pvdriv.Machine.{
  Kernel, Machine, acquire, complete_request, reply, request_irp, status_invalid_buffer_size,
}
use qubes_vmm_xen_win_pvdriv.IrpQueue.{IoCsq}
use qubes_vmm_xen_win_pvdriv.Dispatch.{
  Ioctl, Request, complete_unless_pending, finish, handle, received, store_set_permissions_code,
  xen_iface_ioctl,
}
use qubes_vmm_xen_win_pvdriv.XenControl.Session.{
  Win32, XenControl, allocated, device_call, error_success,
}
use qubes_vmm_xen_win_pvdriv.XenControl.Store.{
  free_after, size_with_nul, terminated_string, xc_store_set_permissions,
}
use qubes_vmm_xen_win_pvdriv.XenControl.Evtchn.{nothing}
use qubes_vmm_xen_win_pvdriv.Store.Permissions.{
  Permission, SetPermissionsIn, set_permissions_size_for,
}
use qubes_vmm_xen_win_pvdriv.Store.Permissions.Handler.{set_permissions_too_short}
use qubes_vmm_xen_win_pvdriv.XenControl.Delivery.{Delivers, Replies, Returns}

-- XcStoreSetPermissions without entries: FIELD_OFFSET gives a smaller buffer than the structure
-- that the driver asks for.
driver_no_permissions :
    (k : Kernel) (q : IoCsq) (r : Request) (i : SetPermissionsIn) (text : List ℕ) (m : Machine)
    → m.fdo.interfaces_acquired ≡ true
    → r.in_len ≡ set_permissions_size_for 0
    → Replies
        (xen_iface_ioctl k q r (store_set_permissions_code i text) m)
        (reply status_invalid_buffer_size)
        (record m {
          trace =
              complete_request r.irp status_invalid_buffer_size
              ∷ acquire (request_irp r.irp)
              ∷ m.trace;
        })
unfolding xen_iface_ioctl finish handle complete_unless_pending
driver_no_permissions k q r i text m up size = ground (
  arith,
  set_permissions_too_short k i text r.in_len r.out_len (received r.irp m) (omega (arith, size)),
  up,
)

-- What a refused request has done.
abbrev pub Refused : (irp : ℕ) → XenControl Machine → (status : ℕ) → XenControl Machine → Type 0
Refused irp x status y =
    ((status == error_success) ≡ false)
    × (y.allocations ≡ x.allocations)
    × (y.device.fdo ≡ x.device.fdo)
    × (y.device.trace
        ≡ complete_request irp status_invalid_buffer_size
          ∷ acquire (request_irp irp)
          ∷ x.device.trace)

device_call-Refused :
    (w : Win32 Machine) (irp : ℕ) (x : XenControl Machine) (code : Ioctl) (size : ℕ)
    → let (b, d) = w.device_io_control code size 0 false x.device in
      (b.success ≡ false)
      → ((b.success || not (b.error == error_success)) ≡ true)
      → d ≡ record x.device {
        trace =
            complete_request irp status_invalid_buffer_size
            ∷ acquire (request_irp irp)
            ∷ x.device.trace;
      }
      → Returns (Refused irp x) (free_after (device_call w nothing code size 0 (allocated true x)))
unfolding device_call
device_call-Refused w irp x code size g e d = grind (arith, g, e, d)

-- Where DeviceIoControl hands requests to the driver and reports their status, the driver has its
-- interfaces, and malloc succeeds: XcStoreSetPermissions without entries fails, since the driver
-- refuses the size of its buffer.
pub xc_store_set_permissions_none :
    (k : Kernel) (q : IoCsq) (w : Win32 Machine) (v : Delivers k q w) (address : ℕ) (path : List ℕ)
    (entry : ℕ → Permission) (x : XenControl Machine)
    → x.device.fdo.interfaces_acquired ≡ true
    → w.malloc x.device x.allocations (set_permissions_size_for 0) ≡ true
    → Returns (Refused (v.irp x.device) x) (xc_store_set_permissions w address path 0 entry x)
unfolding xc_store_set_permissions
xc_store_set_permissions_none k q w v address path entry x up given =
    let m = x.device in
    let i : SetPermissionsIn = record {
      path = address;
      path_length = size_with_nul path;
      number_permissions = 0;
      entry = entry;
    } in
    let code : Ioctl = store_set_permissions_code i (terminated_string path) in
    let r : Request = record {
      irp = v.irp m;
      in_len = set_permissions_size_for 0;
      out_len = 0;
      file_object = v.file_object;
      process = v.process;
    } in
    let (g, e, _, d) =
      v.delivers code (set_permissions_size_for 0) 0 m _ _
        (driver_no_permissions k q r i (terminated_string path) m up refl) refl in
    rw given (device_call-Refused w r.irp x code (set_permissions_size_for 0) g e d)
