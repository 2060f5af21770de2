-- ===== src/Wmi/Session.antt =====
-- XenStoreSession and XenStoreWatch of src/xeniface/wmi.c, what Windows and XENBUS answer to their
-- functions, and the look-ups in their lists. A session that is found comes with the sessions
-- before and behind it, in place of a pointer.
use qubes_vmm_xen_win_pvdriv.Common.{
  Bool, List, Option, [], false, if◌then◌else◌, map, none, some, total, true, ℕ, ◌&&◌, ◌++◌, ◌+◌,
  ◌==◌, ◌∷◌,
}
use qubes_vmm_xen_win_pvdriv.Machine.{
  Answer, Kernel, NtStatus, Resource, Trace, one, pool, store_transaction, store_watch,
  thread_object,
}
pub mod Finding

-- The Buffer of a UNICODE_STRING, and its units.
pub record UnicodeString : Type 0 where
  pub buffer : ℕ
  pub text : List ℕ

pub record XenStoreWatch : Type 0 where
  pub address : ℕ
  pub path : UnicodeString
  pub suspendcount : ℕ
  pub finished : Bool
  pub watchhandle : Option ℕ

pub record XenStoreSession : Type 0 where
  pub address : ℕ
  pub id : ℕ
  pub stringid : UnicodeString
  pub instancename : UnicodeString
  pub transaction : Option ℕ
  pub watches : List XenStoreWatch
  pub watchcount : ℕ
  pub mapchanged : Bool
  pub closing : Bool
  pub suspended : Bool
  pub watch_thread : ℕ

-- Sessions and SessionHead of XENIFACE_FDO.
pub record Sessions : Type 0 where
  pub count : ℕ
  pub head : List XenStoreSession

-- The platform of the sessions. A transaction that is given back answers whether it has ended, and
-- the functions of the store take the transaction of the session.
pub record Wmi : Type 0 where
  pub kernel : Kernel
  -- RtlUnicodeStringToAnsiString with an allocation: its Buffer and its bytes
  pub unicode_to_ansi : Trace → List ℕ → Answer (ℕ × List ℕ)
  -- RtlAnsiStringToUnicodeString with an allocation
  pub ansi_to_unicode : Trace → List ℕ → Answer (ℕ × List ℕ)
  -- RtlStringCbVPrintfA of "Session_%s_%d", RtlUnicodeStringPrintf of SuggestedInstanceName and a
  -- name, and the Length of the former
  pub session_name : List ℕ → (count : ℕ) → List ℕ
  pub instance_name : List ℕ → Answer (List ℕ)
  pub suggested_length : ℕ
  -- RtlUnicodeStringCopy and RtlUnicodeStringCbCopyStringN into a block of the size of the string
  pub copy_string : List ℕ → NtStatus
  pub transaction_start : Trace → Answer ℕ
  pub transaction_end : Trace → (transaction : ℕ) → (commit : Bool) → Answer Bool
  pub printf : Trace → Option ℕ → (path format : List ℕ) → NtStatus
  pub remove : Trace → Option ℕ → (path : List ℕ) → NtStatus
  -- PsCreateSystemThread: the handle, and the object of it
  pub create_system_thread : Trace → Answer (ℕ × ℕ)

-- `CompareUnicodeStrings(...) == 0`
unfoldable pub equal_strings : List ℕ → List ℕ → Bool
equal_strings [] [] = true
equal_strings (c ∷ cs) (d ∷ ds) = c == d && equal_strings cs ds
equal_strings _ _ = false

abbrev pub Found : Type 0 → Type 0
Found A = Option (List A × A × List A)

abbrev pub behind : {A : Type 0} → A → Found A → Found A
behind x none = none
behind x (some (b, y, a)) = some (x ∷ b, y, a)

abbrev pub unless_suspended : XenStoreSession → List XenStoreSession → Found XenStoreSession
unless_suspended s ss = if s.suspended then none else some ([], s, ss)

unfoldable pub find_session_locked : (id : ℕ) → List XenStoreSession → Found XenStoreSession
find_session_locked id [] = none
find_session_locked id (s ∷ ss) =
    let rest = behind s (find_session_locked id ss) in
    if s.id == id then unless_suspended s ss else rest

unfoldable pub find_session_by_instance_locked :
    (instance_name : List ℕ) → List XenStoreSession → Found XenStoreSession
unfolding equal_strings
find_session_by_instance_locked name [] = none
find_session_by_instance_locked name (s ∷ ss) =
    let rest = behind s (find_session_by_instance_locked name ss) in
    if equal_strings name s.instancename.text then unless_suspended s ss else rest

-- Without the lock, which the caller gives back.
unfoldable pub session_find_watch_locked :
    (path : List ℕ) → List XenStoreWatch → Found XenStoreWatch
unfolding equal_strings
session_find_watch_locked path [] = none
session_find_watch_locked path (w ∷ ws) =
    let rest = behind w (session_find_watch_locked path ws) in
    if equal_strings path w.path.text then some ([], w, ws) else rest

-- What is held for a watch, and for a session.
abbrev pub handle_owned : Resource → Option ℕ → ℕ
handle_owned r none = 0
handle_owned r (some h) = one r (store_watch h)

abbrev pub watch_owned : Resource → XenStoreWatch → ℕ
watch_owned r w = one r (pool w.address) + one r (pool w.path.buffer) + handle_owned r w.watchhandle

abbrev pub transaction_owned : Resource → Option ℕ → ℕ
transaction_owned r none = 0
transaction_owned r (some t) = one r (store_transaction t)

abbrev pub session_owned : Resource → XenStoreSession → ℕ
session_owned r s =
    one r (pool s.address)
    + one r (pool s.stringid.buffer)
    + one r (pool s.instancename.buffer)
    + one r (thread_object s.watch_thread)
    + transaction_owned r s.transaction
    + total (watch_owned r) s.watches

abbrev pub sessions_owned : Resource → List XenStoreSession → ℕ
sessions_owned r = total (session_owned r)
