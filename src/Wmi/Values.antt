-- ===== src/Wmi/Values.antt =====
-- The methods RemoveValue and SetValue of src/xeniface/wmi.c, which write to the store in the
-- transaction of a session. They leave the sessions as they are.
use qubes_vmm_xen_win_pvdriv.Common.{
  Bool, List, Option, [], if◌then◌else◌, none, some, take, true, ℕ, ◌+◌, ◌/◌, ◌∷◌,
}
use qubes_vmm_xen_win_pvdriv.Machine.{
  Cmd, NtStatus, free, get_fdo, history, in_transaction, pure, record_event,
  status_insufficient_resources, status_invalid_device_request, store_printf, store_remove,
  undefined, ◌>>=◌, ◌>>◌,
}
use qubes_vmm_xen_win_pvdriv.Store.Strings.{c_string, has_conversion}
use qubes_vmm_xen_win_pvdriv.Wmi.Buffer.{access_wmi_buffer, wmi_string}
use qubes_vmm_xen_win_pvdriv.Wmi.Text.{Utf8String, free_utf8_string, get_utf8_string}
use qubes_vmm_xen_win_pvdriv.Wmi.Session.{
  Found, Sessions, Wmi, XenStoreSession, find_session_by_instance_locked,
}
use qubes_vmm_xen_win_pvdriv.Wmi.Create.{allocate_or_null}
use qubes_vmm_xen_win_pvdriv.Wmi.Methods.{
  InBuffer, one_string, status_wmi_instance_not_found, units,
}

-- Where AccessWmiBuffer finds two strings.
both_at : Bool → List (Option ℕ) → Option (ℕ × ℕ)
both_at true (some p ∷ some q ∷ _) = some (p, q)
both_at _ _ = none

unfoldable pub two_strings : InBuffer → Option (ℕ × ℕ)
unfolding both_at
two_strings b =
    let a = access_wmi_buffer b.word b.address true b.size (wmi_string 0 ∷ wmi_string 0 ∷ []) in
    both_at a.fits a.pointers

-- The units of a counted string, as GetCountedUTF8String takes them.
abbrev pub counted_units : InBuffer → (location : ℕ) → List ℕ
counted_units b location = units b.word (location + 2) (b.word location / 2)

-- With the bytes of a UTF-8 string in a block of their own, up to a NUL.
unfoldable pub with_copy : (List ℕ → Cmd NtStatus) → Utf8String → Option ℕ → Cmd NtStatus
with_copy f v none = pure status_insufficient_resources
with_copy f v (some a) = do s ← f (c_string (take v.length_field v.buffer)); free a; pure s

unfoldable pub with_string : Wmi → (List ℕ → Cmd NtStatus) → Option Utf8String → Cmd NtStatus
with_string w f none = pure status_insufficient_resources
with_string w f (some v) = do
  p ← allocate_or_null w (v.length_field + 1)
  s ← with_copy f v p
  free_utf8_string v
  pure s

unfoldable pub with_utf8 : Wmi → (ustring : List ℕ) → (List ℕ → Cmd NtStatus) → Cmd NtStatus
with_utf8 w s f = get_utf8_string w.kernel s >>= with_string w f

unfoldable pub on_session : (XenStoreSession → Cmd NtStatus) → Found XenStoreSession → Cmd NtStatus
on_session f none = pure status_wmi_instance_not_found
on_session f (some (b, s, a)) = f s

-- The transaction of a call of the store, where there is one.
unfoldable pub inside : Option ℕ → Cmd (Unit {0})
inside none = pure tt
inside (some x) = record_event (in_transaction x)

unfoldable pub remove_value : Wmi → (path : List ℕ) → XenStoreSession → Cmd NtStatus
unfolding inside
remove_value w path s = do
  t ← history
  inside s.transaction
  record_event (store_remove path)
  pure (w.remove t s.transaction path)

-- The value is the format of XENBUS_STORE(Printf), and no argument follows it.
unfoldable pub set_value : Wmi → (path value : List ℕ) → XenStoreSession → Cmd NtStatus
unfolding inside has_conversion
set_value w path value s = do
  (if has_conversion value then (λ _. undefined) else pure tt)
  t ← history
  inside s.transaction
  record_event (store_printf path value)
  pure (w.printf t s.transaction path value)

-- Where the driver has its interfaces.
unfoldable pub acquired_or_fail : Cmd NtStatus → Cmd NtStatus
acquired_or_fail f = do
  fdo ← get_fdo
  if fdo.interfaces_acquired then f else pure status_insufficient_resources

unfoldable pub remove_value_at :
    Wmi → InBuffer → (instance_name : List ℕ) → Sessions → Option ℕ → Cmd NtStatus
remove_value_at w b name x none = pure status_invalid_device_request
remove_value_at w b name x (some p) = acquired_or_fail (
    with_utf8 w (counted_units b p)
      (λ path. on_session (remove_value w path) (find_session_by_instance_locked name x.head)))

unfoldable pub session_execute_remove_value :
    Wmi → InBuffer → (instance_name : List ℕ) → Sessions → Cmd NtStatus
session_execute_remove_value w b name x = remove_value_at w b name x (one_string b)

unfoldable pub set_value_at :
    Wmi → InBuffer → (instance_name : List ℕ) → Sessions → Option (ℕ × ℕ) → Cmd NtStatus
set_value_at w b name x none = pure status_invalid_device_request
set_value_at w b name x (some (p, q)) = acquired_or_fail (
    with_utf8 w (counted_units b p) (λ path.
      with_utf8 w (counted_units b q) (λ value.
        on_session (set_value w path value) (find_session_by_instance_locked name x.head))))

unfoldable pub session_execute_set_value :
    Wmi → InBuffer → (instance_name : List ℕ) → Sessions → Cmd NtStatus
session_execute_set_value w b name x = set_value_at w b name x (two_strings b)
