-- ===== src/XenControl/Delivery.antt =====
-- The library over the driver: DeviceIoControl hands the request to XenIfaceIoctl of
-- src/xeniface/ioctls.c, and answers with its reply.
use qubes_vmm_xen_win_pvdriv.Common.{
  All, List, [], ap, arith, false, length, length-append, ltb, not, refl, suc, take, true, zero, ℕ,
  ◌++◌, ◌+◌, ◌<◌, ◌==◌, ◌^◌, ◌||◌, ◌∷◌, ◌≡◌, ◌≤◌,
}
use qubes_vmm_xen_win_pvdriv.Machine.{
  Kernel, Machine, NtStatus, Reply, Run, Synchronous, acquire, assertion_failure, complete_request,
  exit, nt_success, ok, reply, request_irp, status_pending, store_printf, undefined,
}
use qubes_vmm_xen_win_pvdriv.IrpQueue.{IoCsq}
use qubes_vmm_xen_win_pvdriv.Dispatch.{
  Ioctl, Request, complete_unless_pending, finish, handle, received, store_write_code,
  xen_iface_ioctl,
}
use qubes_vmm_xen_win_pvdriv.XenControl.Session.{
  Win32, XcRun, XenControl, allocated, device_call, error_success, heap_overflow, returns,
}
use qubes_vmm_xen_win_pvdriv.Store.Strings.{has_conversion}
use qubes_vmm_xen_win_pvdriv.Store.Strings.Laws.{Printable, has_conversion-plain}
use qubes_vmm_xen_win_pvdriv.Store.Values.Handlers.{store_write_lem}
use qubes_vmm_xen_win_pvdriv.XenControl.Store.{free_after, write_size, xc_store_write}
use qubes_vmm_xen_win_pvdriv.XenControl.Evtchn.{nothing}

-- The driver's dispatch routine ends with this reply, in this state.
abbrev pub Replies : Run Reply → Reply → Machine → Type 0
Replies (ok a m) b n = (a ≡ b) × (m ≡ n)
Replies (exit a m) b n = (a ≡ b) × (m ≡ n)
Replies assertion_failure b n = ⊥
Replies undefined b n = ⊥

-- What Windows documents of DeviceIoControl on a handle of the device: the request goes to the
-- driver, and where it does not stay pending, the answer is a success exactly if its status is,
-- with the driver's output, and GetLastError is not ERROR_SUCCESS where it is a failure.
pub record Delivers (k : Kernel) (q : IoCsq) (w : Win32 Machine) : Type 0 where
  pub irp : Machine → ℕ
  pub file_object : ℕ
  pub process : ℕ
  pub delivers :
      (code : Ioctl) (in_size out_size : ℕ) (m n : Machine) (a : Reply)
      → Replies
          (xen_iface_ioctl k q
            (record {
              irp = irp m;
              in_len = in_size;
              out_len = out_size;
              file_object = file_object;
              process = process;
            })
            code
            m)
          a
          n
      → (a.status == status_pending) ≡ false
      → let (b, d) = w.device_io_control code in_size out_size false m in
        (b.success ≡ nt_success a.status)
        × ((b.success || not (b.error == error_success)) ≡ true)
        × (b.output ≡ a.output)
        × (d ≡ n)

-- A function of the library returned, and its status and the state after it satisfy `P`.
abbrev pub Returns : {D A : Type 0} → ((status : ℕ) → XenControl D → Type 0) → XcRun D A → Type 0
Returns P (returns s a y) = P s y
Returns P heap_overflow = ⊥

take_all {ℓ} : {A : Type ℓ} (n : ℕ) (l : List A) → length l ≤ n → take n l ≡ l
take_all zero [] h = refl
take_all (suc n) [] h = refl
take_all zero (x ∷ xs) h = absurd (omega arith)
take_all (suc n) (x ∷ xs) h = ap (λ l. x ∷ l) (take_all n xs (omega arith))

-- The buffer of XcStoreWrite is all of its block.
write_buffer_lem :
    (path text : List ℕ)
    → length path + length text + 3 < 2 ^ 32
    → (write_size path text ≡ length path + length text + 3)
      × (take (write_size path text) (path ++ 0 ∷ (text ++ 0 ∷ 0 ∷ []))
          ≡ path ++ 0 ∷ (text ++ 0 ∷ 0 ∷ []))
write_buffer_lem path text h =
    let whole = path ++ 0 ∷ (text ++ 0 ∷ 0 ∷ []) in
    let size : write_size path text ≡ length path + length text + 3 = omega (arith, h) in
    (
      size,
      take_all (write_size path text) whole (
          omega (
            arith,
            size,
            length-append path (0 ∷ (text ++ 0 ∷ 0 ∷ [])),
            length-append text (0 ∷ 0 ∷ []),
          )),
    )

-- The driver's part.
driver_write :
    (k : Kernel) (q : IoCsq) (r : Request) (path text : List ℕ) (m : Machine)
    → Printable path
    → Printable text
    → has_conversion text ≡ false
    → m.fdo.interfaces_acquired ≡ true
    → r.out_len ≡ 0
    → (k.store_printf (acquire (request_irp r.irp) ∷ m.trace) path text == status_pending) ≡ false
    → let s = k.store_printf (acquire (request_irp r.irp) ∷ m.trace) path text in
      Replies
        (xen_iface_ioctl k q r (store_write_code (path ++ 0 ∷ (text ++ 0 ∷ 0 ∷ []))) m)
        (reply s)
        (record m {
          trace =
              complete_request r.irp s
              ∷ store_printf path text
              ∷ acquire (request_irp r.irp)
              ∷ m.trace;
        })
unfolding xen_iface_ioctl finish handle complete_unless_pending
driver_write k q r path text m hp ht plain up out sync =
    ground
      (arith, store_write_lem k path text (0 ∷ []) (received r.irp m) hp ht, plain, up, out, sync)

-- What a write has done, where the store's status was `s`.
abbrev pub Written :
    (path text : List ℕ) (irp : ℕ) (s : NtStatus) (x : XenControl Machine) (status : ℕ)
    → XenControl Machine
    → Type 0
Written path text irp s x status y =
    ((status == error_success) ≡ nt_success s)
    × (y.allocations ≡ x.allocations)
    × (y.device.fdo ≡ x.device.fdo)
    × (y.device.trace
        ≡ complete_request irp s
          ∷ store_printf path text
          ∷ acquire (request_irp irp)
          ∷ x.device.trace)

device_call-Written :
    (w : Win32 Machine) (path text : List ℕ) (irp : ℕ) (s : NtStatus) (x : XenControl Machine)
    (code : Ioctl) (size : ℕ)
    → let (b, d) = w.device_io_control code size 0 false x.device in
      (b.success ≡ nt_success s)
      → ((b.success || not (b.error == error_success)) ≡ true)
      → d ≡ record x.device {
        trace =
            complete_request irp s
            ∷ store_printf path text
            ∷ acquire (request_irp irp)
            ∷ x.device.trace;
      }
      → Returns
          (Written path text irp s x)
          (free_after (device_call w nothing code size 0 (allocated true x)))
unfolding device_call
device_call-Written w path text irp s x code size g e d = grind (arith, g, e, d)

-- Where DeviceIoControl hands requests to the driver and reports their status, the driver has its
-- interfaces, the write to the store is not left pending, and malloc succeeds: XcStoreWrite with
-- a printable path and a printable text without `%` makes the driver write exactly that pair to
-- the store and complete the request with the store's status, succeeds exactly if the store does,
-- and frees its buffer.
pub xc_store_write_delivers :
    (k : Kernel) (q : IoCsq) (w : Win32 Machine) (v : Delivers k q w) (path text : List ℕ)
    (x : XenControl Machine)
    → Synchronous k
    → Printable path
    → Printable text
    → All (λ c. (c == b'%') ≡ false) text
    → length path + length text + 3 < 2 ^ 32
    → x.device.fdo.interfaces_acquired ≡ true
    → w.malloc x.device x.allocations (write_size path text) ≡ true
    → Returns
        (Written path text
          (v.irp x.device)
          (k.store_printf (acquire (request_irp (v.irp x.device)) ∷ x.device.trace) path text)
          x)
        (xc_store_write w path text x)
unfolding xc_store_write
xc_store_write_delivers k q w v path text x sync hp ht plain small up given =
    let (size, whole) = write_buffer_lem path text small in
    let m = x.device in
    let code : Ioctl = store_write_code (path ++ 0 ∷ (text ++ 0 ∷ 0 ∷ [])) in
    let r : Request = record {
      irp = v.irp m;
      in_len = write_size path text;
      out_len = 0;
      file_object = v.file_object;
      process = v.process;
    } in
    let quick = sync.prints (acquire (request_irp r.irp) ∷ m.trace) path text in
    let (g, e, _, d) =
      v.delivers code (write_size path text) 0 m _ _
        (driver_write k q r path text m hp ht (has_conversion-plain text plain) up refl quick)
        quick in
    let done = device_call-Written w path text r.irp _ x code (write_size path text) g e d in
    let fits : ltb (write_size path text) (length path + 1 + length text) ≡ false =
      ground (arith, size) in
    rw (given, fits, whole) done
