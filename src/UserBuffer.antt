-- ===== src/UserBuffer.antt =====
-- __CaptureUserBuffer and __FreeCapturedBuffer of src/xeniface/ioctls.c.
pub mod Ledger
use qubes_vmm_xen_win_pvdriv.Common.{Option, if◌then◌else◌, none, not, some, ℕ, ◌==◌}
use qubes_vmm_xen_win_pvdriv.Machine.{
  Answer, Cmd, Kernel, NtStatus, acquire, asked, exception, free, goto_if, history, nt_success,
  pool, pure, record_event, return, status_insufficient_resources, status_success, undefined, value,
  ◌>>=◌, ◌>>◌,
}

-- `*CapturedBuffer`, with `none` for NULL, and the status.
abbrev pub Captured : Type 0
Captured = Answer (Option ℕ)

captured : NtStatus → Option ℕ → Cmd Captured
captured s p = pure (record { status = s; out = p })

-- The copy into the allocation `p`, inside __try.
copy_user_buffer : Kernel → (buffer size p : ℕ) → Cmd Captured
unfolding captured
copy_user_buffer k buffer size p = do
  t ← history
  elim (k.probe_for_read t buffer size) [
    | value _ ↦ captured status_success (some p)
    | exception code ↦ do free p; captured code none
  ]

unfoldable pub capture_user_buffer : Kernel → (buffer size : ℕ) → Cmd Captured
unfolding copy_user_buffer captured
capture_user_buffer k buffer size = if size == 0 then captured status_success none else do
  t ← history
  elim (k.allocate_pool t size) [
    | none ↦ do record_event asked; captured status_insufficient_resources none
    | some p ↦ do record_event (acquire (pool p)); copy_user_buffer k buffer size p
  ]

unfoldable pub free_captured_buffer : Option ℕ → Cmd (Unit {0})
free_captured_buffer none = pure tt
free_captured_buffer (some p) = free p

-- The captured buffer is read: a NULL pointer has no meaning.
abbrev pub read_captured : Option ℕ → Cmd ℕ
read_captured none = λ _. undefined
read_captured (some p) = pure p

-- `status = __CaptureUserBuffer(...); if (!NT_SUCCESS(status)) goto fail;`
unfoldable pub capture_or_fail : Kernel → (buffer size : ℕ) → Cmd ℕ
unfolding capture_user_buffer
capture_or_fail k buffer size = do
  a ← capture_user_buffer k buffer size
  goto_if (not (nt_success a.status)) (return a.status)
  read_captured a.out
