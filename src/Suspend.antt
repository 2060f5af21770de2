-- ===== src/Suspend.antt =====
-- src/xeniface/ioctl_suspend.c: events that are set when the guest comes back from a suspend.
use qubes_vmm_xen_win_pvdriv.Common.{List, Option, [], none, not, some, ℕ, ◌++◌, ◌==◌, ◌||◌, ◌∷◌}
use qubes_vmm_xen_win_pvdriv.Machine.{
  Cmd, Kernel, Reply, SuspendContext, allocate, dereference, event_object, free, get_fdo, goto_if,
  history, or_status, out_context, out_number, pure, put_fdo, record_event, reply, return,
  set_event, status_invalid_buffer_size, status_no_memory, status_not_found, status_success,
  zero_out, ◌>>=◌, ◌>>◌,
}
use qubes_vmm_xen_win_pvdriv.ContextList.{accepted, walk}
pub mod Ledger
pub mod Deregistration
pub mod Firing

-- sizeof on x64
abbrev suspend_register_in_size : ℕ
suspend_register_in_size = 8

abbrev suspend_register_out_size : ℕ
suspend_register_out_size = 8

abbrev suspend_context_size : ℕ
suspend_context_size = 32

pub ioctl_suspend_get_count : Kernel → (in_len out_len : ℕ) → Cmd Reply
ioctl_suspend_get_count k in_len out_len = do
  goto_if (not (in_len == 0)) (return status_invalid_buffer_size)
  goto_if (not (out_len == 4)) (return status_invalid_buffer_size)
  t ← history
  pure
      (record { status = status_success; information = 4; output = out_number (k.suspend_count t) })

append_suspend : SuspendContext → Cmd (Unit {0})
append_suspend c = do
  fdo ← get_fdo
  put_fdo (record fdo { suspend_list = fdo.suspend_list ++ c ∷ [] })

-- `event` is the handle in the input buffer.
pub ioctl_suspend_register : Kernel → (event in_len out_len file_object : ℕ) → Cmd Reply
unfolding append_suspend allocate
ioctl_suspend_register k event in_len out_len file_object = do
  goto_if (not (in_len == suspend_register_in_size) || not (out_len == suspend_register_out_size))
      (return status_invalid_buffer_size)
  p ← allocate k suspend_context_size (return status_no_memory)
  zero_out p
  t ← history
  e ←
      or_status (k.reference_event t event) event_object
        (λ status. do zero_out p; free p; return status)
  append_suspend (record { address = p; event = e.out; file_object = file_object })
  pure (record { status = e.status; information = 8; output = out_context p })

unfoldable pub suspend_free_event : SuspendContext → Cmd (Unit {0})
suspend_free_event c = do dereference c.event; zero_out c.address; free c.address

suspend_walk : (target file : ℕ) → List SuspendContext → Option SuspendContext × List SuspendContext
unfolding walk
suspend_walk target file = walk (λ c. c.address) (λ c. c.file_object) target file none

-- `target` is the context pointer in the input buffer.
pub ioctl_suspend_deregister : (target in_len out_len file_object : ℕ) → Cmd Reply
unfolding suspend_free_event
ioctl_suspend_deregister target in_len out_len file_object = do
  goto_if (not (in_len == suspend_register_out_size) || not (out_len == 0))
      (return status_invalid_buffer_size)
  fdo ← get_fdo
  let found : Option SuspendContext × List SuspendContext =
      suspend_walk target file_object fdo.suspend_list
  put_fdo (record fdo { suspend_list = found.1 })
  elim (accepted (λ c. c.address) (λ c. c.file_object) target file_object found.0) [
    | none ↦ return status_not_found
    | some c ↦ do suspend_free_event c; pure (reply status_success)
  ]

set_events : List SuspendContext → Cmd (Unit {0})
set_events [] = pure tt
set_events (c ∷ cs) = record_event (set_event c.event) >> set_events cs

pub suspend_event_fire : Cmd (Unit {0})
unfolding set_events
suspend_event_fire = do fdo ← get_fdo; set_events fdo.suspend_list
