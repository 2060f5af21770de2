-- ===== src/Store/Watches.antt =====
-- IoctlStoreAddWatch, StoreFreeWatch and IoctlStoreRemoveWatch.
use qubes_vmm_xen_win_pvdriv.Common.{
  List, Option, [], ltb, none, not, some, ℕ, ◌++◌, ◌==◌, ◌||◌, ◌∷◌,
}
use qubes_vmm_xen_win_pvdriv.Machine.{
  Cmd, Kernel, NtStatus, Reply, StoreContext, allocate, dereference, event_object, free, get_fdo,
  give_back, goto_if, history, or_status, out_context, pure, put_fdo, reply, return,
  status_invalid_buffer_size, status_invalid_parameter, status_no_memory, status_not_found,
  status_success, store_watch, zero_out, ◌>>=◌, ◌>>◌,
}
use qubes_vmm_xen_win_pvdriv.UserBuffer.{capture_or_fail}
use qubes_vmm_xen_win_pvdriv.ContextList.{accepted, walk}
use qubes_vmm_xen_win_pvdriv.Store.Strings.{c_string}
use qubes_vmm_xen_win_pvdriv.Store.Permissions.{abs_path_max, terminated}
pub mod Ledger
pub mod Removal

-- XENIFACE_STORE_ADD_WATCH_IN
pub record AddWatchIn : Type 0 where
  pub path : ℕ
  pub path_length : ℕ
  pub event : ℕ

-- sizeof on x64
abbrev pub add_watch_in_size : ℕ
add_watch_in_size = 24

abbrev pub add_watch_out_size : ℕ
add_watch_out_size = 8

abbrev pub remove_watch_in_size : ℕ
remove_watch_in_size = 8

abbrev store_context_size : ℕ
store_context_size = 40

append_watch : StoreContext → Cmd (Unit {0})
append_watch c = do
  fdo ← get_fdo
  put_fdo (record fdo { store_watch_list = fdo.store_watch_list ++ c ∷ [] })

-- The labels of IoctlStoreAddWatch.
module _ {A : Type 0} where
  watch_fail4 : (path : ℕ) → NtStatus → Cmd A
  watch_fail4 path s = do free path; return s

  watch_fail5 : (path context : ℕ) → NtStatus → Cmd A
  unfolding watch_fail4
  watch_fail5 path c s = do zero_out c; free c; watch_fail4 path s

  watch_fail6 : (path context event : ℕ) → NtStatus → Cmd A
  unfolding watch_fail5
  watch_fail6 path c e s = do dereference e; watch_fail5 path c s

pub ioctl_store_add_watch :
    Kernel → AddWatchIn → (text : List ℕ) → (in_len out_len file_object : ℕ) → Cmd Reply
unfolding allocate append_watch watch_fail6 c_string
ioctl_store_add_watch k i text in_len out_len file_object = do
  goto_if (not (in_len == add_watch_in_size) || not (out_len == add_watch_out_size))
      (return status_invalid_buffer_size)
  goto_if (i.path_length == 0 || ltb abs_path_max i.path_length) (return status_invalid_parameter)
  path ← capture_or_fail k i.path i.path_length
  c ← allocate k store_context_size (watch_fail4 path status_no_memory)
  zero_out c
  t ← history
  e ← or_status (k.reference_event t i.event) event_object (watch_fail5 path c)
  t' ← history
  w ←
      or_status (k.watch_add t' (terminated text i.path_length) e.out) store_watch
        (watch_fail6 path c e.out)
  free path
  append_watch (record { address = c; watch = w.out; event = e.out; file_object = file_object })
  pure (record { status = w.status; information = add_watch_out_size; output = out_context c })

unfoldable pub store_free_watch : Kernel → StoreContext → Cmd (Unit {0})
store_free_watch k c = do
  t ← history
  give_back k (store_watch c.watch) (k.watch_remove t c.watch)
  dereference c.event
  zero_out c.address
  free c.address

watch_walk : (target file : ℕ) → List StoreContext → Option StoreContext × List StoreContext
unfolding walk
watch_walk target file = walk (λ c. c.address) (λ c. c.file_object) target file none

-- `target` is the context pointer in the input buffer.
pub ioctl_store_remove_watch : Kernel → (target in_len out_len file_object : ℕ) → Cmd Reply
ioctl_store_remove_watch k target in_len out_len file_object = do
  goto_if (not (in_len == remove_watch_in_size) || not (out_len == 0))
      (return status_invalid_buffer_size)
  fdo ← get_fdo
  let found : Option StoreContext × List StoreContext =
      watch_walk target file_object fdo.store_watch_list
  put_fdo (record fdo { store_watch_list = found.1 })
  elim (accepted (λ c. c.address) (λ c. c.file_object) target file_object found.0) [
    | none ↦ return status_not_found
    | some c ↦ do store_free_watch k c; pure (reply status_success)
  ]
