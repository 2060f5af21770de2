-- ===== src/XenControl/Store.antt =====
-- The store functions of src/xencontrol/xencontrol.c. A C string is the list of its bytes before
-- the NUL.
use qubes_vmm_xen_win_pvdriv.Common.{
  List, Option, [], if◌then◌else◌, length, ltb, none, not, some, take, true, ℕ, ◌*◌, ◌++◌, ◌+◌, ◌∷◌,
}
use qubes_vmm_xen_win_pvdriv.Machine.{Output, out_bytes, out_context}
use qubes_vmm_xen_win_pvdriv.Dispatch.{
  handle, store_add_watch_code, store_directory_code, store_read_code, store_remove_code,
  store_remove_watch_code, store_set_permissions_code, store_write_code,
}
use qubes_vmm_xen_win_pvdriv.Store.Permissions.{
  Permission, permissions_offset, set_permissions_size_for,
}
use qubes_vmm_xen_win_pvdriv.Store.Watches.{
  add_watch_in_size, add_watch_out_size, remove_watch_in_size,
}
use qubes_vmm_xen_win_pvdriv.XenControl.Session.{
  Win32, XcRun, XenControl, allocated, device_call, dword, error_out_of_memory, freed_block,
  heap_overflow, returns,
}
use qubes_vmm_xen_win_pvdriv.XenControl.Evtchn.{nothing}

-- The bytes of a C string, its NUL included.
abbrev pub terminated_string : List ℕ → List ℕ
terminated_string s = s ++ 0 ∷ []

-- `(DWORD)strlen(s) + 1`
abbrev pub size_with_nul : List ℕ → ℕ
size_with_nul s = dword (length s + 1)

-- What the driver copied to the caller's buffer.
abbrev pub bytes_of : Output → Option (List ℕ)
bytes_of (out_bytes b) = some b
bytes_of _ = none

-- `Out.Context`.
abbrev pub context_of : {D : Type 0} → Win32 D → Output → Option ℕ
context_of w (out_context c) = some c
context_of w _ = some w.garbage

-- `cbBuffer`
abbrev pub write_size : (path text : List ℕ) → ℕ
write_size path text = dword (length path + 1 + length text + 1 + 1)

-- `free(Buffer)` behind the call.
abbrev pub free_after : {D A : Type 0} → XcRun D A → XcRun D A
free_after (returns s a x) = returns s a (freed_block true x)
free_after heap_overflow = heap_overflow

module _ {D : Type 0} (w : Win32 D) where
  unfoldable pub xc_store_read : (path : List ℕ) → (size : ℕ) → XenControl D → XcRun D (List ℕ)
  xc_store_read path size =
      device_call w bytes_of (store_read_code (take (size_with_nul path) (terminated_string path)))
        (size_with_nul path) size

  unfoldable pub xc_store_directory : (path : List ℕ) → (size : ℕ) → XenControl D → XcRun D (List ℕ)
  xc_store_directory path size =
      device_call w bytes_of
        (store_directory_code (take (size_with_nul path) (terminated_string path)))
        (size_with_nul path) size

  unfoldable pub xc_store_remove : (path : List ℕ) → XenControl D → XcRun D (Unit {0})
  xc_store_remove path =
      device_call w nothing (store_remove_code (take (size_with_nul path) (terminated_string path)))
        (size_with_nul path) 0

  -- A zeroed block with both strings copied to it.
  unfoldable pub xc_store_write : (path text : List ℕ) → XenControl D → XcRun D (Unit {0})
  xc_store_write path text x =
      let size = write_size path text in
      if not (w.malloc x.device x.allocations size)
      then returns error_out_of_memory none x
      else if ltb size (length path + 1 + length text)
      then heap_overflow
      else free_after (
          device_call w nothing (store_write_code (take size (path ++ 0 ∷ (text ++ 0 ∷ 0 ∷ []))))
            size 0 (allocated true x))

  -- `address` is the pointer Path, and `path` the string there.
  unfoldable pub xc_store_set_permissions :
      (address : ℕ)
      → (path : List ℕ) → (number : ℕ) → (ℕ → Permission)
      → XenControl D
      → XcRun D (Unit {0})
  xc_store_set_permissions address path number entry x =
      let size = set_permissions_size_for number in
      if not (w.malloc x.device x.allocations size)
      then returns error_out_of_memory none x
      else if ltb size (permissions_offset + 8 * number)
      then heap_overflow
      else free_after (
          device_call w nothing
            (store_set_permissions_code
              (record {
                path = address;
                path_length = size_with_nul path;
                number_permissions = number;
                entry = entry;
              })
              (terminated_string path))
            size 0 (allocated true x))

  unfoldable pub xc_store_add_watch :
      (address : ℕ) → (path : List ℕ) → (event : ℕ) → XenControl D → XcRun D ℕ
  xc_store_add_watch address path event =
      device_call w (context_of w)
        (store_add_watch_code
          (record { path = address; path_length = size_with_nul path; event = event })
          (terminated_string path))
        add_watch_in_size add_watch_out_size

  unfoldable pub xc_store_remove_watch : (handle : ℕ) → XenControl D → XcRun D (Unit {0})
  xc_store_remove_watch handle =
      device_call w nothing (store_remove_watch_code handle) remove_watch_in_size 0
