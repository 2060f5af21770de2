-- ===== src/Gnttab/ForeignMap.antt =====
-- IoctlGnttabMapForeignPages, GnttabFreeMap and IoctlGnttabUnmapForeignPages.
pub mod Ledger
pub mod FreeBuild
use qubes_vmm_xen_win_pvdriv.Common.{
  List, if◌then◌else◌, ltb, none, not, some, ℕ, ◌%◌, ◌*◌, ◌+◌, ◌-◌, ◌/◌, ◌==◌, ◌^◌, ◌||◌,
}
use qubes_vmm_xen_win_pvdriv.Machine.{
  Cmd, IrpContext, Kernel, MapContext, NtStatus, Reply, allocate, complete_request, exception,
  foreign_pages, free, give_back, goto_if, grant_context, history, io_space, map_context,
  mdl_memory, nt_success, or_null, or_status, out_address, pure, record_event, release, reply,
  return, status_invalid_buffer_size, status_invalid_parameter, status_no_memory, status_not_found,
  status_pending, status_success, undefined, user_mapping, value, zero_out, ◌>>=◌, ◌>>◌,
}
use qubes_vmm_xen_win_pvdriv.UserBuffer.{capture_or_fail}
use qubes_vmm_xen_win_pvdriv.IrpQueue.{IoCsq, insert_irp, remove_next_irp}
use qubes_vmm_xen_win_pvdriv.Gnttab.Pages.{
  bad_notify_offset, find_gnttab_irp, is_readonly, max_pages, notify_peer, size_in_bytes,
}
use qubes_vmm_xen_win_pvdriv.Gnttab.Grant.{map_to_user}

-- XENIFACE_GNTTAB_MAP_FOREIGN_PAGES_IN
pub record MapIn : Type 0 where
  pub request_id : ℕ
  pub remote_domain : ℕ
  pub number_pages : ℕ
  pub flags : ℕ
  pub notify_offset : ℕ
  pub notify_port : ℕ
  pub references : List ℕ

-- sizeof and FIELD_OFFSET on x64
abbrev map_in_size : ℕ
map_in_size = 28

abbrev pub references_offset : ℕ
references_offset = 24

abbrev pub map_out_size : ℕ
map_out_size = 8

abbrev map_context_size : ℕ
map_context_size = 88

abbrev pub unmap_in_size : ℕ
unmap_in_size = 4

-- `(ULONG)FIELD_OFFSET(..., References[NumberPages])`
abbrev pub map_in_size_for : ℕ → ℕ
map_in_size_for pages = (references_offset + 4 * pages) % 2 ^ 32

-- The memory and the mappings of a request under way.
pub record MapBuffers : Type 0 where
  pub captured_in : ℕ
  pub context : ℕ
  pub foreign : ℕ
  pub kernel_va : ℕ
  pub mdl : ℕ

-- ASSERT(NT_SUCCESS(XENBUS_GNTTAB(UnmapForeignPages, ...))): no call in a free build.
assert_unmap : Kernel → ℕ → Cmd (Unit {0})
assert_unmap k a =
    if k.dbg
    then (do t ← history; give_back k (foreign_pages a) (k.unmap_foreign_pages t a))
    else pure tt

-- The labels of the handler, from the last to the first.
module _ {A : Type 0} where
  map_fail3 : (captured_in : ℕ) → NtStatus → Cmd A
  map_fail3 i s = do free i; return s

  map_fail8 : (captured_in context : ℕ) → NtStatus → Cmd A
  unfolding map_fail3
  map_fail8 i c s = do zero_out c; free c; map_fail3 i s

  map_fail9 : Kernel → (captured_in context foreign : ℕ) → NtStatus → Cmd A
  unfolding map_fail8 assert_unmap
  map_fail9 k i c a s = do assert_unmap k a; map_fail8 i c s

  map_fail10 : Kernel → (captured_in context foreign kernel_va : ℕ) → NtStatus → Cmd A
  unfolding map_fail9
  map_fail10 k i c a va s = do record_event (release (io_space va)); map_fail9 k i c a s

  map_fail12 : Kernel → MapBuffers → NtStatus → Cmd A
  unfolding map_fail10
  map_fail12 k b s = do
    record_event (release (mdl_memory b.mdl))
    map_fail10 k b.captured_in b.context b.foreign b.kernel_va s

  map_fail13 : Kernel → MapBuffers → (user_va : ℕ) → NtStatus → Cmd A
  unfolding map_fail12
  map_fail13 k b uva s = do record_event (release (user_mapping uva)); map_fail12 k b s

-- The checks on the captured input; `expected` is the number of references that fit into InLen.
map_checks : MapIn → (captured_in in_len expected : ℕ) → Cmd (Unit {0})
unfolding bad_notify_offset map_fail3
map_checks i p in_len expected = do
  goto_if (i.number_pages == 0 || ltb max_pages i.number_pages || not (i.number_pages == expected))
      (map_fail3 p status_invalid_parameter)
  goto_if (bad_notify_offset i.flags i.notify_offset i.number_pages)
      (map_fail3 p status_invalid_parameter)
  goto_if (not (in_len == map_in_size_for i.number_pages)) (map_fail3 p status_invalid_buffer_size)

-- From the allocation of the context to the MDL.
map_allocate : Kernel → MapIn → (captured_in process : ℕ) → Cmd MapBuffers
unfolding allocate find_gnttab_irp size_in_bytes map_fail10
map_allocate k i p process = do
  c ← allocate k map_context_size (map_fail3 p status_no_memory)
  zero_out c
  duplicate ← find_gnttab_irp (record { request_id = i.request_id; process = process })
  goto_if duplicate (map_fail8 p c status_invalid_parameter)
  t ← history
  a ←
      or_status
        (k.map_foreign_pages t i.remote_domain i.number_pages i.references (is_readonly i.flags))
        foreign_pages (map_fail8 p c)
  t' ← history
  va ←
      or_null (k.map_io_space t' a.out (size_in_bytes i.number_pages)) io_space
        (map_fail9 k p c a.out status_no_memory)
  t'' ← history
  m ←
      or_null (k.allocate_mdl t'' va (size_in_bytes i.number_pages)) mdl_memory
        (map_fail10 k p c a.out va status_no_memory)
  pure (record { captured_in = p; context = c; foreign = a.out; kernel_va = va; mdl = m })

-- The output buffer is written inside __try.
map_write : Kernel → MapBuffers → (user_va out_len : ℕ) → Cmd (Unit {0})
unfolding map_fail13
map_write k b uva out_len = do
  t ← history
  elim (k.probe_for_write t out_len) [
    | exception code ↦ map_fail13 k b uva code
    | value _ ↦ pure tt
  ]

foreign_map : MapIn → MapBuffers → (process user_va : ℕ) → MapContext
foreign_map i b process uva = record {
  id = record { request_id = i.request_id; process = process };
  address = b.context;
  remote_domain = i.remote_domain;
  number_pages = i.number_pages;
  flags = i.flags;
  notify_offset = i.notify_offset;
  notify_port = i.notify_port;
  foreign = b.foreign;
  kernel_va = b.kernel_va;
  user_va = uva;
  mdl = b.mdl;
}

-- From the mapping into user mode to the pending IRP.
map_publish : Kernel → IoCsq → MapIn → MapBuffers → (out_len process irp : ℕ) → Cmd Reply
unfolding map_to_user map_write foreign_map map_fail13
map_publish k q i b out_len process irp = do
  uva ← map_to_user k b.mdl (map_fail12 k b)
  map_write k b uva out_len
  s ← insert_irp q (record { irp = irp; context = map_context (foreign_map i b process uva) })
  goto_if (not (nt_success s)) (map_fail13 k b uva s)
  free b.captured_in
  pure (record { status = status_pending; information = 0; output = out_address uva })

pub ioctl_gnttab_map_foreign_pages :
    Kernel → IoCsq → MapIn → (buffer in_len out_len process irp : ℕ) → Cmd Reply
ioctl_gnttab_map_foreign_pages k q i buffer in_len out_len process irp = do
  goto_if (ltb in_len map_in_size || not (out_len == map_out_size))
      (return status_invalid_buffer_size)
  p ← capture_or_fail k buffer in_len
  map_checks i p in_len ((in_len - references_offset) / 4)
  b ← map_allocate k i p process
  map_publish k q i b out_len process irp

unfoldable pub gnttab_free_map : Kernel → MapContext → Cmd (Unit {0})
gnttab_free_map k c = do
  notify_peer c.flags c.kernel_va c.notify_offset c.notify_port
  record_event (release (user_mapping c.user_va))
  record_event (release (mdl_memory c.mdl))
  record_event (release (io_space c.kernel_va))
  t ← history
  give_back k (foreign_pages c.foreign) (k.unmap_foreign_pages t c.foreign)
  zero_out c.address
  free c.address

-- CONTAINING_RECORD(ContextId, XENIFACE_MAP_CONTEXT, Id), whatever the Type of the Id.
abbrev as_map : IrpContext → Cmd MapContext
as_map (map_context c) = pure c
as_map (grant_context c) = λ _. undefined

pub ioctl_gnttab_unmap_foreign_pages :
    Kernel → IoCsq → (request_id in_len out_len process : ℕ) → Cmd Reply
ioctl_gnttab_unmap_foreign_pages k q request_id in_len out_len process = do
  goto_if (not (in_len == unmap_in_size) || not (out_len == 0)) (return status_invalid_buffer_size)
  pending ← remove_next_irp q (record { request_id = request_id; process = process })
  elim pending [
    | none ↦ return status_not_found
    | some i ↦ do
      c ← as_map i.context
      gnttab_free_map k c
      record_event (complete_request i.irp status_success)
      pure (reply status_success)
  ]
