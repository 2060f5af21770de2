-- ===== src/Store/Values.antt =====
-- IoctlStoreRead, IoctlStoreWrite, IoctlStoreDirectory and IoctlStoreRemove. `buffer` holds the
-- InLen bytes of the system buffer.
pub mod Handlers
use qubes_vmm_xen_win_pvdriv.Common.{
  List, [], drop, if◌then◌else◌, length, ltb, none, not, some, take, ℕ, ◌%◌, ◌++◌, ◌+◌, ◌-◌, ◌==◌,
  ◌^◌, ◌||◌, ◌∷◌,
}
use qubes_vmm_xen_win_pvdriv.Machine.{
  Answer, Cmd, Kernel, NtStatus, Reply, acquire, asked, goto_if, history, nt_success, out_bytes,
  out_nothing, pure, record_event, release, reply, return, status_buffer_overflow,
  status_invalid_buffer_size, status_invalid_parameter, status_success, store_printf, store_remove,
  store_value, undefined, ◌>>=◌, ◌>>◌,
}
use qubes_vmm_xen_win_pvdriv.Store.Strings.{
  c_string, has_conversion, is_valid_str, multi_sz_len, strlen,
}

-- `(ULONG)strlen(s) + 1`
abbrev string_size : List ℕ → ℕ
string_size s = (strlen s + 1) % 2 ^ 32

-- A buffer that the store hands out, or its status.
store_buffer : Answer (ℕ × List ℕ) → Cmd (ℕ × List ℕ)
store_buffer a =
    if nt_success a.status
    then (do record_event (acquire (store_value a.out.0)); pure a.out)
    else (do record_event asked; return a.status)

free_value : ℕ → Cmd (Unit {0})
free_value v = record_event (release (store_value v))

-- The end of the read and the directory handlers: `text` is copied to the system buffer.
reply_value : (v size out_len : ℕ) → (text : List ℕ) → Cmd Reply
unfolding free_value
reply_value v size out_len text =
    if out_len == 0
    then (do
      free_value v
      pure (record { status = status_buffer_overflow; information = size; output = out_nothing }))
    else if ltb out_len size
    then (do free_value v; return status_invalid_parameter)
    else (do
      free_value v
      pure (record { status = status_success; information = size; output = out_bytes text }))

pub ioctl_store_read : Kernel → (buffer : List ℕ) → (out_len : ℕ) → Cmd Reply
unfolding is_valid_str c_string strlen store_buffer reply_value
ioctl_store_read k buffer out_len = do
  goto_if (length buffer == 0) (return status_invalid_buffer_size)
  goto_if (not (is_valid_str buffer)) (return status_invalid_parameter)
  t ← history
  (v, text) ← store_buffer (k.store_read t (c_string buffer))
  reply_value v (string_size text) out_len (take (string_size text - 1) text ++ 0 ∷ [])

-- The text is the format of XENBUS_STORE(Printf), and no argument follows it.
pub ioctl_store_write : Kernel → (buffer : List ℕ) → (out_len : ℕ) → Cmd Reply
unfolding is_valid_str c_string strlen has_conversion
ioctl_store_write k buffer out_len = do
  goto_if (length buffer == 0 || not (out_len == 0)) (return status_invalid_buffer_size)
  goto_if (not (is_valid_str buffer)) (return status_invalid_parameter)
  let rest : List ℕ = drop (strlen buffer + 1) buffer
  goto_if (not (is_valid_str rest)) (return status_invalid_parameter)
  (if has_conversion (c_string rest) then (λ _. undefined) else pure tt)
  t ← history
  let s : NtStatus = k.store_printf t (c_string buffer) (c_string rest)
  record_event (store_printf (c_string buffer) (c_string rest))
  goto_if (not (nt_success s)) (return s)
  pure (reply s)

-- The answer's bytes are the memory of the list of strings.
pub ioctl_store_directory : Kernel → (buffer : List ℕ) → (out_len : ℕ) → Cmd Reply
unfolding is_valid_str c_string multi_sz_len store_buffer reply_value
ioctl_store_directory k buffer out_len = do
  goto_if (length buffer == 0) (return status_invalid_buffer_size)
  goto_if (not (is_valid_str buffer)) (return status_invalid_parameter)
  t ← history
  (v, memory) ← store_buffer (k.store_directory t (c_string buffer))
  elim (multi_sz_len memory) [
    | none ↦ λ _. undefined
    | some r ↦
        reply_value v ((r.size + 1) % 2 ^ 32) out_len (take (r.size - 1) memory ++ 0 ∷ 0 ∷ [])
  ]

pub ioctl_store_remove : Kernel → (buffer : List ℕ) → (out_len : ℕ) → Cmd Reply
unfolding is_valid_str c_string
ioctl_store_remove k buffer out_len = do
  goto_if (length buffer == 0 || not (out_len == 0)) (return status_invalid_buffer_size)
  goto_if (not (is_valid_str buffer)) (return status_invalid_parameter)
  t ← history
  let s : NtStatus = k.store_remove t (c_string buffer)
  record_event (store_remove (c_string buffer))
  goto_if (not (nt_success s)) (return s)
  pure (reply s)
