-- ===== src/Misc.antt =====
-- src/xeniface/ioctl_sharedinfo.c, and IoctlLog of src/xeniface/ioctls.c.
pub mod Ledger
use qubes_vmm_xen_win_pvdriv.Common.{
  Bool, List, [], false, if◌then◌else◌, length, ltb, not, true, ℕ, ◌&&◌, ◌==◌, ◌||◌, ◌∷◌,
}
use qubes_vmm_xen_win_pvdriv.Machine.{
  Cmd, Kernel, Reply, goto_if, history, log_line, out_number, pure, record_event, reply, return,
  status_invalid_buffer_size, status_invalid_parameter, status_success, ◌>>=◌, ◌>>◌,
}
use qubes_vmm_xen_win_pvdriv.Store.Strings.{c_string, is_valid_log_str}

pub ioctl_shared_info_get_time : Kernel → (in_len out_len : ℕ) → Cmd Reply
ioctl_shared_info_get_time k in_len out_len = do
  goto_if (not (in_len == 0)) (return status_invalid_buffer_size)
  goto_if (not (out_len == 8)) (return status_invalid_buffer_size)
  t ← history
  pure (record { status = status_success; information = 8; output = out_number (k.get_time t) })

-- XENIFACE_LOG_MAX_LENGTH
abbrev log_max_length : ℕ
log_max_length = 256

abbrev is_line_end : ℕ → Bool
is_line_end c = c == b'\n' || c == b'\r' || c == 0

-- The loop that overwrites line ends at the end of the buffer by NULs, over the bytes behind the
-- first; the test says whether it came down to here.
trim_loop : List ℕ → List ℕ × Bool
trim_loop [] = ([], true)
trim_loop (c ∷ cs) =
    let later : List ℕ × Bool = trim_loop cs in
    if later.1 && is_line_end c then (0 ∷ later.0, true) else (c ∷ later.0, false)

-- The loop stops before the first byte.
trim_buffer : List ℕ → List ℕ
unfolding trim_loop
trim_buffer [] = []
trim_buffer (c ∷ cs) = c ∷ (trim_loop cs).0

pub ioctl_log : (buffer : List ℕ) → (out_len : ℕ) → Cmd Reply
unfolding is_valid_log_str trim_buffer c_string
ioctl_log buffer out_len = do
  goto_if (length buffer == 0 || ltb log_max_length (length buffer) || not (out_len == 0))
      (return status_invalid_buffer_size)
  goto_if (not (is_valid_log_str buffer)) (return status_invalid_parameter)
  record_event (log_line (c_string (trim_buffer buffer)))
  pure (reply status_success)
