-- ===== src/Store/Permissions.antt =====
-- __ConvertPermissions and IoctlStoreSetPermissions.
use qubes_vmm_xen_win_pvdriv.Common.{
  Bool, List, Option, [], if◌then◌else◌, ltb, none, not, some, suc, take, zero, ℕ, ◌%◌, ◌*◌, ◌+◌,
  ◌-◌, ◌/◌, ◌==◌, ◌^◌, ◌||◌, ◌∷◌,
}
use qubes_vmm_xen_win_pvdriv.Machine.{
  Cmd, Kernel, NtStatus, Reply, acquire, asked, free, goto_if, history, nt_success, permissions_set,
  pool, pure, record_event, reply, return, status_invalid_buffer_size, status_invalid_parameter,
  ◌>>=◌, ◌>>◌,
}
use qubes_vmm_xen_win_pvdriv.UserBuffer.{
  Captured, capture_user_buffer, free_captured_buffer, read_captured,
}
use qubes_vmm_xen_win_pvdriv.Store.Strings.{c_string}
pub mod Handler

-- A pair of domain and mask.
abbrev pub Permission : Type 0
Permission = ℕ × ℕ

-- XENIFACE_STORE_SET_PERMISSIONS_IN: `path` is the user's address, `entry n` is Permissions[n].
pub record SetPermissionsIn : Type 0 where
  pub path : ℕ
  pub path_length : ℕ
  pub number_permissions : ℕ
  pub entry : ℕ → Permission

-- sizeof on x64, and `(ULONG)FIELD_OFFSET(..., Permissions[n])`
abbrev pub set_permissions_in_size : ℕ
set_permissions_in_size = 24

abbrev pub permissions_offset : ℕ
permissions_offset = 16

abbrev pub set_permissions_size_for : ℕ → ℕ
set_permissions_size_for n = (permissions_offset + 8 * n) % 2 ^ 32

abbrev pub abs_path_max : ℕ
abs_path_max = 3072

abbrev pub max_permissions : ℕ
max_permissions = 255

-- `Mask & ~XENIFACE_STORE_ALLOWED_PERMISSIONS` is not zero: a bit above the lowest two.
abbrev pub is_disallowed : ℕ → Bool
is_disallowed mask = not (mask / 4 == 0)

-- The loop of __ConvertPermissions from `index` on; `none` is fail3.
unfoldable pub convert_loop : (ℕ → Permission) → (index remaining : ℕ) → Option (List Permission)
convert_loop entry index zero = some []
convert_loop entry index (suc n) =
    let rest : Option (List Permission) = convert_loop entry (index + 1) n in
    if is_disallowed (entry index).1
    then none
    else elim rest [ none ↦ none | some l ↦ some (entry index ∷ l) ]

-- The pointer and what it points to, with `none` for NULL.
unfoldable pub convert_permissions :
    Kernel → ℕ → (ℕ → Permission) → Cmd (Option (ℕ × List Permission))
unfolding convert_loop
convert_permissions k number entry = if ltb max_permissions number then pure none else do
  t ← history
  elim (k.allocate_pool t (number * 8)) [
    | none ↦ do record_event asked; pure none
    | some p ↦ do
      record_event (acquire (pool p))
      elim (convert_loop entry 0 number) [
        | none ↦ do free p; pure none
        | some l ↦ pure (some (p, l))
      ]
  ]

abbrev converted_or_fail : Option (ℕ × List Permission) → NtStatus → Cmd (ℕ × List Permission)
converted_or_fail none s = return s
converted_or_fail (some r) s = pure r

-- The capture of the path, with __FreePermissions at fail5.
capture_path : Kernel → SetPermissionsIn → (permissions : ℕ) → Cmd Captured
unfolding capture_user_buffer
capture_path k i permissions = do
  a ← capture_user_buffer k i.path i.path_length
  goto_if (not (nt_success a.status)) (free permissions >> return a.status)
  pure a

-- `text` holds the bytes at the user's address: the string is cut at the last byte.
abbrev pub terminated : List ℕ → (path_length : ℕ) → List ℕ
terminated text n = c_string (take (n - 1) text)

-- From the capture of the path on.
apply_permissions :
    Kernel → SetPermissionsIn → (text : List ℕ) → (permissions : ℕ) → List Permission → Cmd Reply
unfolding c_string
apply_permissions k i text permissions list = do
  a ← capture_path k i permissions
  read_captured a.out
  t ← history
  let s : NtStatus = k.permissions_set t (terminated text i.path_length) list
  record_event (permissions_set (terminated text i.path_length) list)
  goto_if (not (nt_success s)) (free_captured_buffer a.out >> free permissions >> return s)
  free_captured_buffer a.out
  pure (reply s)

pub ioctl_store_set_permissions :
    Kernel → SetPermissionsIn → (text : List ℕ) → (in_len out_len : ℕ) → Cmd Reply
ioctl_store_set_permissions k i text in_len out_len = do
  goto_if (ltb in_len set_permissions_in_size || not (out_len == 0))
      (return status_invalid_buffer_size)
  goto_if (not (in_len == set_permissions_size_for i.number_permissions))
      (return status_invalid_buffer_size)
  goto_if (i.path_length == 0 || ltb abs_path_max i.path_length) (return status_invalid_parameter)
  r ← convert_permissions k i.number_permissions i.entry
  (permissions, list) ← converted_or_fail r status_invalid_parameter
  apply_permissions k i text permissions list
