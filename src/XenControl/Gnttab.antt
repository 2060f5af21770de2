-- ===== src/XenControl/Gnttab.antt =====
-- The grant table functions of src/xencontrol/xencontrol.c, and the list of the requests that the
-- driver keeps pending.
use qubes_vmm_xen_win_pvdriv.Common.{
  Bool, List, Option, [], false, if◌then◌else◌, ltb, none, some, take, true, ℕ, ◌&&◌, ◌*◌, ◌++◌,
  ◌+◌, ◌==◌, ◌∷◌,
}
use qubes_vmm_xen_win_pvdriv.Machine.{Output, out_address, out_pages}
use qubes_vmm_xen_win_pvdriv.Dispatch.{
  Ioctl, gnttab_map_code, gnttab_permit_code, gnttab_revoke_code, gnttab_unmap_code,
}
use qubes_vmm_xen_win_pvdriv.Gnttab.Grant.{permit_in_size, permit_out_size}
use qubes_vmm_xen_win_pvdriv.Gnttab.Revoke.{revoke_in_size}
use qubes_vmm_xen_win_pvdriv.Gnttab.ForeignMap.{
  map_in_size_for, map_out_size, references_offset, unmap_in_size,
}
use qubes_vmm_xen_win_pvdriv.XenControl.Session.{
  GnttabRequest, IoAnswer, Win32, XcRun, XenControl, allocated, dword, enter, error_io_pending,
  error_not_found, error_out_of_memory, error_success, error_unidentified_error, freed_block,
  heap_overflow, leave, request_size, returns, with_device,
}

-- FindRequest: the first request at the address.
unfoldable pub find_request : (target : ℕ) → List GnttabRequest → Option GnttabRequest
find_request target [] = none
find_request target (r ∷ rs) =
    let rest : Option GnttabRequest = find_request target rs in
    if r.address == target then some r else rest

-- RemoveEntryList of the entry that FindRequest returned.
unfoldable pub remove_request : (target : ℕ) → List GnttabRequest → List GnttabRequest
remove_request target [] = []
remove_request target (r ∷ rs) =
    let rest : List GnttabRequest = remove_request target rs in
    if r.address == target then rs else r ∷ rest

-- `Out->Address` and the first NumberPages of `Out->References`.
abbrev pub pages_of : {D : Type 0} → Win32 D → (number_pages : ℕ) → Output → ℕ × List ℕ
pages_of w n (out_pages p l) = (p, take n l)
pages_of w n _ = (w.garbage, [])

abbrev pub address_of : {D : Type 0} → Win32 D → Output → ℕ
address_of w (out_address p) = p
address_of w _ = w.garbage

module _ {D : Type 0} (w : Win32 D) where
  -- The end of XcGnttabPermitForeignAccess and XcGnttabMapForeignPages behind `fail`: the lock is
  -- left and both blocks are freed, where malloc gave them.
  abbrev pub gnttab_fail :
      {A : Type 0} → (buffer request : Bool) → (status : ℕ) → XenControl D → XcRun D A
  gnttab_fail b r status x = returns status none (freed_block r (freed_block b (leave x)))

  -- "this IOCTL is expected to be pending on success": the status to fail with, if it is not.
  abbrev pub pending_error : IoAnswer → Option ℕ
  pending_error a =
      if a.success
      then some error_unidentified_error
      else if a.error == error_io_pending
      then none
      else some a.error

  -- The request joins the list, the counter goes on, the lock is left, and the block of the
  -- buffer is freed.
  abbrev pub gnttab_pending : (address : ℕ) → XenControl D → XenControl D
  gnttab_pending a x = freed_block true (
      leave (record x {
        request_list = x.request_list ++ record { id = x.request_id; address = a } ∷ [];
        request_id = dword (x.request_id + 1);
      }))

  -- What follows DeviceIoControl; `p` is the address that the driver answered.
  abbrev pub gnttab_answer : {A : Type 0} → (p : ℕ) → A → IoAnswer → XenControl D → XcRun D A
  gnttab_answer p out a z = elim (pending_error a) [
    | some e ↦ gnttab_fail true true e z
    | none ↦ returns error_success (some out) (gnttab_pending p z)
  ]

  -- The two blocks of malloc: whether each was given, and the state behind both.
  abbrev pub two_blocks : (first second : ℕ) → XenControl D → Bool × Bool × XenControl D
  two_blocks first second x =
      let b = w.malloc x.device x.allocations first in
      let y = allocated b x in
      let r = w.malloc y.device y.allocations second in (b, r, allocated r y)

  -- `if (!Request || !Out) goto fail;`, or what follows.
  abbrev pub if_given :
      {A : Type 0} → (buffer request : Bool) → (XenControl D → XcRun D A) → XenControl D → XcRun D A
  if_given b r go y = if b && r then go y else gnttab_fail b r error_out_of_memory y

  abbrev pub with_blocks :
      {A : Type 0} → (size : ℕ) → (XenControl D → XcRun D A) → XenControl D → XcRun D A
  with_blocks size go x =
      let (b, r, y) = two_blocks size request_size (enter x) in if_given b r go y

  -- The DeviceIoControl of XcGnttabPermitForeignAccess.
  abbrev pub permit_io :
      (remote_domain number_pages notify_offset notify_port flags : ℕ) → XenControl D → IoAnswer × D
  permit_io dom pages offset port flags y =
      w.device_io_control
        (gnttab_permit_code
          (record {
            request_id = y.request_id;
            remote_domain = dom;
            number_pages = pages;
            flags = flags;
            notify_offset = offset;
            notify_port = port;
          })
          w.in_buffer)
        permit_in_size (permit_out_size pages) true y.device

  -- XcGnttabPermitForeignAccess with both blocks.
  unfoldable pub permit_call :
      (remote_domain number_pages notify_offset notify_port flags : ℕ)
      → XenControl D
      → XcRun D (ℕ × List ℕ)
  permit_call dom pages offset port flags y =
      let (a, d) = permit_io dom pages offset port flags y in
      let out = pages_of w pages a.output in gnttab_answer out.0 out a (with_device y d)

  unfoldable pub xc_gnttab_permit_foreign_access :
      (remote_domain number_pages notify_offset notify_port flags : ℕ)
      → XenControl D
      → XcRun D (ℕ × List ℕ)
  unfolding permit_call
  xc_gnttab_permit_foreign_access dom pages offset port flags =
      with_blocks (permit_out_size pages) (permit_call dom pages offset port flags)

  -- The DeviceIoControl of XcGnttabMapForeignPages.
  abbrev pub map_io :
      (remote_domain number_pages : ℕ)
      → (references : List ℕ) → (notify_offset notify_port flags : ℕ) → XenControl D
      → IoAnswer × D
  map_io dom pages references offset port flags y =
      w.device_io_control
        (gnttab_map_code
          (record {
            request_id = y.request_id;
            remote_domain = dom;
            number_pages = pages;
            flags = flags;
            notify_offset = offset;
            notify_port = port;
            references = take pages references;
          })
          w.in_buffer)
        (map_in_size_for pages) map_out_size true y.device

  -- XcGnttabMapForeignPages with both blocks: the copy of the references, and what follows.
  unfoldable pub map_call :
      (remote_domain number_pages : ℕ)
      → (references : List ℕ) → (notify_offset notify_port flags : ℕ) → XenControl D
      → XcRun D ℕ
  map_call dom pages references offset port flags y =
      let (a, d) = map_io dom pages references offset port flags y in
      let out = address_of w a.output in
      if ltb (map_in_size_for pages) (references_offset + 4 * pages)
      then heap_overflow
      else gnttab_answer out out a (with_device y d)

  unfoldable pub xc_gnttab_map_foreign_pages :
      (remote_domain number_pages : ℕ)
      → (references : List ℕ) → (notify_offset notify_port flags : ℕ) → XenControl D
      → XcRun D ℕ
  unfolding map_call
  xc_gnttab_map_foreign_pages dom pages references offset port flags =
      with_blocks (map_in_size_for pages) (map_call dom pages references offset port flags)

  -- XcGnttabRevokeForeignAccess and XcGnttabUnmapForeignPages, with the lock in FindRequest, which differ in the control code.
  abbrev pub end_request :
      ((request_id : ℕ) → Ioctl) → (in_size target : ℕ) → XenControl D → XcRun D (Unit {0})
  end_request code in_size target x = elim (find_request target (enter x).request_list) [
    | none ↦ returns error_not_found none (leave (enter x))
    | some r ↦
        let (a, d) = w.device_io_control (code r.id) in_size 0 false x.device in
        let y = with_device (leave (enter x)) d in
        if a.success
        then returns error_success none (
            freed_block true
              (leave (record (enter y) { request_list = remove_request target y.request_list })))
        else returns a.error none y
  ]

  unfoldable pub xc_gnttab_revoke_foreign_access : (target : ℕ) → XenControl D → XcRun D (Unit {0})
  unfolding find_request remove_request
  xc_gnttab_revoke_foreign_access target = end_request gnttab_revoke_code revoke_in_size target

  unfoldable pub xc_gnttab_unmap_foreign_pages : (target : ℕ) → XenControl D → XcRun D (Unit {0})
  unfolding find_request remove_request
  xc_gnttab_unmap_foreign_pages target = end_request gnttab_unmap_code unmap_in_size target
