-- ===== src/Gnttab/Grant.antt =====
-- IoctlGnttabPermitForeignAccess.
use qubes_vmm_xen_win_pvdriv.Common.{
  List, [], if◌then◌else◌, leb, ltb, map, none, not, some, suc, zero, ℕ, ◌%◌, ◌*◌, ◌++◌, ◌+◌, ◌==◌,
  ◌^◌, ◌||◌, ◌∷◌,
}
use qubes_vmm_xen_win_pvdriv.Machine.{
  Cmd, GrantContext, Kernel, NtStatus, Reply, acquire, allocate, asked, exception, free, give_back,
  goto_if, grant_context, grant_entry, history, mdl_memory, nt_success, or_null, or_status,
  out_pages, pure, record_event, release, return, status_invalid_buffer_size,
  status_invalid_parameter, status_no_memory, status_pending, status_unsuccessful, user_mapping,
  undefined, value, zero_out, ◌>>=◌, ◌>>◌,
}
use qubes_vmm_xen_win_pvdriv.UserBuffer.{capture_or_fail}
use qubes_vmm_xen_win_pvdriv.IrpQueue.{IoCsq, insert_irp}
use qubes_vmm_xen_win_pvdriv.Gnttab.Pages.{
  bad_notify_offset, find_gnttab_irp, is_readonly, max_pages, size_in_bytes,
}
pub mod Ledger
pub mod FreeBuild

-- XENIFACE_GNTTAB_PERMIT_FOREIGN_ACCESS_IN
pub record PermitIn : Type 0 where
  pub request_id : ℕ
  pub remote_domain : ℕ
  pub number_pages : ℕ
  pub flags : ℕ
  pub notify_offset : ℕ
  pub notify_port : ℕ

-- sizeof on x64
abbrev pub permit_in_size : ℕ
permit_in_size = 24

abbrev grant_context_size : ℕ
grant_context_size = 88

-- `(ULONG)FIELD_OFFSET(..., References[NumberPages])`
abbrev pub permit_out_size : ℕ → ℕ
permit_out_size pages = (8 + 4 * pages) % 2 ^ 32

-- The memory of a request under way.
pub record PermitBuffers : Type 0 where
  pub captured_in : ℕ
  pub context : ℕ
  pub grants : ℕ
  pub kernel_va : ℕ
  pub mdl : ℕ

-- ASSERT(NT_SUCCESS(XENBUS_GNTTAB(RevokeForeignAccess, ...))): no call in a free build.
assert_revoke : Kernel → ℕ → Cmd (Unit {0})
assert_revoke k e =
    if k.dbg
    then (do t ← history; give_back k (grant_entry e) (k.revoke_foreign_access t e))
    else pure tt

-- `while (Page > 0) ... --Page`: the newest entry first.
revoke_granted : Kernel → List ℕ → Cmd (Unit {0})
unfolding assert_revoke
revoke_granted k [] = pure tt
revoke_granted k (e ∷ es) = do revoke_granted k es; assert_revoke k e

-- The labels of the handler, from the last to the first.
module _ {A : Type 0} where
  permit_fail3 : (captured_in : ℕ) → NtStatus → Cmd A
  permit_fail3 i s = do free i; return s

  permit_fail7 : (captured_in context : ℕ) → NtStatus → Cmd A
  unfolding permit_fail3
  permit_fail7 i c s = do zero_out c; free c; permit_fail3 i s

  permit_fail9 : (captured_in context grants : ℕ) → NtStatus → Cmd A
  unfolding permit_fail7
  permit_fail9 i c g s = do free g; permit_fail7 i c s

  permit_fail10 : (captured_in context grants kernel_va : ℕ) → NtStatus → Cmd A
  unfolding permit_fail9
  permit_fail10 i c g va s = do free va; permit_fail9 i c g s

  permit_fail11 : Kernel → PermitBuffers → List ℕ → NtStatus → Cmd A
  unfolding permit_fail10 revoke_granted
  permit_fail11 k b granted s = do
    revoke_granted k granted
    record_event (release (mdl_memory b.mdl))
    permit_fail10 b.captured_in b.context b.grants b.kernel_va s

  permit_fail14 : Kernel → PermitBuffers → List ℕ → (user_va : ℕ) → NtStatus → Cmd A
  permit_fail14 k b granted uva s = do
    record_event (release (user_mapping uva))
    permit_fail11 k b granted s

-- The loop that shares the pages: `granted` holds Grants[0] to Grants[Page - 1]. The MDL has a page
-- frame number for each page of its bytes, and none behind them.
permit_pages : Kernel → PermitIn → PermitBuffers → (page remaining : ℕ) → List ℕ → Cmd (List ℕ)
unfolding size_in_bytes
permit_pages k i b page zero granted = pure granted
permit_pages k i b page (suc n) granted = do
  (if leb (size_in_bytes i.number_pages) (4096 * page) then (λ _. undefined) else pure tt)
  t ← history
  e ←
      or_status
        (k.permit_foreign_access t i.remote_domain (k.mdl_pfn t b.mdl page) (is_readonly i.flags))
        grant_entry (permit_fail11 k b granted)
  permit_pages k i b (page + 1) n (granted ++ e.out ∷ [])

-- MmMapLockedPagesSpecifyCache inside __try; `fail` is given the status.
unfoldable pub map_to_user : Kernel → (mdl : ℕ) → (NtStatus → Cmd ℕ) → Cmd ℕ
map_to_user k m fail = do
  t ← history
  elim (k.map_locked_pages t m) [
    | exception code ↦ do record_event asked; fail code
    | value none ↦ do record_event asked; fail status_unsuccessful
    | value (some va) ↦ do record_event (acquire (user_mapping va)); pure va
  ]

-- The checks on the captured input.
permit_checks : PermitIn → (captured_in out_len : ℕ) → Cmd (Unit {0})
unfolding bad_notify_offset permit_fail3
permit_checks i p out_len = do
  goto_if (i.number_pages == 0 || ltb max_pages i.number_pages)
      (permit_fail3 p status_invalid_parameter)
  goto_if (bad_notify_offset i.flags i.notify_offset i.number_pages)
      (permit_fail3 p status_invalid_parameter)
  goto_if (not (out_len == permit_out_size i.number_pages))
      (permit_fail3 p status_invalid_buffer_size)

-- From the allocation of the context to the MDL.
permit_allocate : Kernel → PermitIn → (captured_in process : ℕ) → Cmd PermitBuffers
unfolding allocate find_gnttab_irp size_in_bytes permit_fail10
permit_allocate k i p process = do
  c ← allocate k grant_context_size (permit_fail3 p status_no_memory)
  zero_out c
  duplicate ← find_gnttab_irp (record { request_id = i.request_id; process = process })
  goto_if duplicate (permit_fail7 p c status_invalid_parameter)
  g ← allocate k (i.number_pages * 8) (permit_fail7 p c status_no_memory)
  zero_out g
  va ← allocate k (size_in_bytes i.number_pages) (permit_fail9 p c g status_no_memory)
  zero_out va
  t ← history
  m ←
      or_null (k.allocate_mdl t va (size_in_bytes i.number_pages)) mdl_memory
        (permit_fail10 p c g va status_no_memory)
  pure (record { captured_in = p; context = c; grants = g; kernel_va = va; mdl = m })

-- The output buffer is written inside __try.
permit_write : Kernel → PermitBuffers → List ℕ → (user_va out_len : ℕ) → Cmd (List ℕ)
permit_write k b granted uva out_len = do
  t ← history
  elim (k.probe_for_write t out_len) [
    | exception code ↦ permit_fail14 k b granted uva code
    | value _ ↦ pure (map (λ e. k.get_reference t e % 2 ^ 32) granted)
  ]

permit_context : PermitIn → PermitBuffers → (process user_va : ℕ) → List ℕ → GrantContext
permit_context i b process uva granted = record {
  id = record { request_id = i.request_id; process = process };
  address = b.context;
  grants = b.grants;
  entries = granted;
  remote_domain = i.remote_domain;
  number_pages = i.number_pages;
  flags = i.flags;
  notify_offset = i.notify_offset;
  notify_port = i.notify_port;
  kernel_va = b.kernel_va;
  user_va = uva;
  mdl = b.mdl;
}

-- From the mapping into user mode to the pending IRP.
permit_publish :
    Kernel → IoCsq → PermitIn → PermitBuffers → List ℕ → (out_len process irp : ℕ) → Cmd Reply
unfolding map_to_user permit_write permit_context permit_fail14
permit_publish k q i b granted out_len process irp = do
  uva ← map_to_user k b.mdl (permit_fail11 k b granted)
  references ← permit_write k b granted uva out_len
  let c : GrantContext = permit_context i b process uva granted
  s ← insert_irp q (record { irp = irp; context = grant_context c })
  goto_if (not (nt_success s)) (permit_fail14 k b granted uva s)
  free b.captured_in
  pure (record { status = status_pending; information = 0; output = out_pages uva references })

-- `buffer` is the user's address of the input, and `i` what is captured from there.
pub ioctl_gnttab_permit_foreign_access :
    Kernel → IoCsq → PermitIn → (buffer in_len out_len process irp : ℕ) → Cmd Reply
ioctl_gnttab_permit_foreign_access k q i buffer in_len out_len process irp = do
  goto_if (not (in_len == permit_in_size)) (return status_invalid_buffer_size)
  p ← capture_or_fail k buffer in_len
  permit_checks i p out_len
  b ← permit_allocate k i p process
  granted ← permit_pages k i b 0 i.number_pages []
  permit_publish k q i b granted out_len process irp
