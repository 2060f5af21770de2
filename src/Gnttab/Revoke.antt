-- ===== src/Gnttab/Revoke.antt =====
-- GnttabFreeGrant and IoctlGnttabRevokeForeignAccess.
use qubes_vmm_xen_win_pvdriv.Common.{List, [], none, not, some, ℕ, ◌==◌, ◌∷◌}
use qubes_vmm_xen_win_pvdriv.Machine.{
  Cmd, GrantContext, IrpContext, Kernel, Reply, complete_request, free, give_back, goto_if,
  grant_context, grant_entry, history, map_context, mdl_memory, pure, record_event, release, reply,
  return, status_invalid_buffer_size, status_not_found, status_success, undefined, user_mapping,
  zero_out, ◌>>=◌, ◌>>◌,
}
use qubes_vmm_xen_win_pvdriv.IrpQueue.{IoCsq, remove_next_irp}
use qubes_vmm_xen_win_pvdriv.Gnttab.Pages.{notify_peer}
pub mod Ledger

-- sizeof on x64
abbrev pub revoke_in_size : ℕ
revoke_in_size = 4

-- "stop sharing": Grants[0] first.
revoke_pages : Kernel → List ℕ → Cmd (Unit {0})
revoke_pages k [] = pure tt
revoke_pages k (e ∷ es) = do
  t ← history
  give_back k (grant_entry e) (k.revoke_foreign_access t e)
  revoke_pages k es

unfoldable pub gnttab_free_grant : Kernel → GrantContext → Cmd (Unit {0})
unfolding revoke_pages
gnttab_free_grant k c = do
  notify_peer c.flags c.kernel_va c.notify_offset c.notify_port
  record_event (release (user_mapping c.user_va))
  revoke_pages k c.entries
  record_event (release (mdl_memory c.mdl))
  zero_out c.kernel_va
  free c.kernel_va
  zero_out c.grants
  free c.grants
  zero_out c.address
  free c.address

-- CONTAINING_RECORD(ContextId, XENIFACE_GRANT_CONTEXT, Id): the Type of the Id is not looked at,
-- and the fields of another structure are read as those of a grant.
abbrev as_grant : IrpContext → Cmd GrantContext
as_grant (grant_context c) = pure c
as_grant (map_context c) = λ _. undefined

pub ioctl_gnttab_revoke_foreign_access :
    Kernel → IoCsq → (request_id in_len out_len process : ℕ) → Cmd Reply
ioctl_gnttab_revoke_foreign_access k q request_id in_len out_len process = do
  goto_if (not (in_len == revoke_in_size)) (return status_invalid_buffer_size)
  pending ← remove_next_irp q (record { request_id = request_id; process = process })
  elim pending [
    | none ↦ return status_not_found
    | some i ↦ do
      c ← as_grant i.context
      gnttab_free_grant k c
      record_event (complete_request i.irp status_success)
      pure (reply status_success)
  ]
