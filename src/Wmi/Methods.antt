-- ===== src/Wmi/Methods.antt =====
-- The methods of a session and AddSession in src/xeniface/wmi.c. A method takes the sessions to a
-- status and the sessions after it; `instance` is the name of the session in the request.
use qubes_vmm_xen_win_pvdriv.Common.{
  Bool, List, Option, [], if◌then◌else◌, false, length, ltb, none, not, some, suc, take, true, zero,
  ℕ, ◌%◌, ◌*◌, ◌++◌, ◌+◌, ◌/◌, ◌==◌, ◌^◌, ◌∷◌,
}
use qubes_vmm_xen_win_pvdriv.Machine.{
  Answer, Cmd, NtStatus, Trace, acquire, asked, free, get_fdo, history, nt_success, pool, pure,
  record_event, status_insufficient_resources, status_invalid_device_request, status_success,
  store_transaction, undefined, ◌>>=◌, ◌>>◌,
}
use qubes_vmm_xen_win_pvdriv.Store.Strings.{c_string}
use qubes_vmm_xen_win_pvdriv.Wmi.Buffer.{access_wmi_buffer, wmi_item, wmi_string, wmi_uint32}
use qubes_vmm_xen_win_pvdriv.Wmi.Text.{Utf8String, free_utf8_string, get_utf8_string}
use qubes_vmm_xen_win_pvdriv.Wmi.Session.{
  Found, Sessions, UnicodeString, Wmi, XenStoreSession, XenStoreWatch,
  find_session_by_instance_locked, session_find_watch_locked,
}
use qubes_vmm_xen_win_pvdriv.Wmi.Watch.{session_add_watch_locked, session_remove_watch_locked}
use qubes_vmm_xen_win_pvdriv.Wmi.Sessions.{end_transaction, fewer_sessions, remove_session_locked}
use qubes_vmm_xen_win_pvdriv.Wmi.Create.{allocate_or_null, create_new_session}
pub mod Ledger
pub mod Sound

abbrev pub status_wmi_instance_not_found : NtStatus
status_wmi_instance_not_found = 0xC000_0297

abbrev pub status_request_out_of_sequence : NtStatus
status_request_out_of_sequence = 0xC000_042A

abbrev pub status_buffer_too_small : NtStatus
status_buffer_too_small = 0xC000_0023

-- The buffer of a request, and the USHORT at an address.
pub record InBuffer : Type 0 where
  pub address : ℕ
  pub size : ℕ
  pub word : ℕ → ℕ

-- Where AccessWmiBuffer finds the only string of a buffer, or the first of two.
string_at : Bool → List (Option ℕ) → Option ℕ
string_at true (p ∷ _) = p
string_at _ _ = none

unfoldable pub one_string : InBuffer → Option ℕ
unfolding string_at
one_string b =
    let a = access_wmi_buffer b.word b.address true b.size (wmi_string 0 ∷ []) in
    string_at a.fits a.pointers

-- `n` units of memory.
unfoldable pub units : (word : ℕ → ℕ) → (location n : ℕ) → List ℕ
units word location zero = []
units word location (suc n) = word location ∷ units word (location + 2) n

-- The loop of GetUnicodeString: up to a NUL.
unfoldable pub unicode_loop : (word : ℕ → ℕ) → (location n : ℕ) → List ℕ
unicode_loop word location zero = []
unicode_loop word location (suc n) =
    let rest = unicode_loop word (location + 2) n in
    if word location == 0 then [] else word location ∷ rest

-- GetUnicodeString, of whose Length the USHORT may wrap.
unfoldable pub get_unicode_string : (word : ℕ → ℕ) → (maxlength location : ℕ) → UnicodeString
get_unicode_string word maxlength location =
    let text = unicode_loop word location ((maxlength + 1) / 2) in
    record { buffer = location; text = take (2 * length text % 2 ^ 16 / 2) text }

unfoldable pub get_counted_unicode_string : InBuffer → (location : ℕ) → UnicodeString
get_counted_unicode_string b location = get_unicode_string b.word (b.word location) (location + 2)

-- A copy in a block of `size` bytes, whose first unit AllocUnicodeStringBuffer sets; `copied` is the
-- status of the copy.
pub clone_string :
    Wmi → (size : ℕ) → (text : List ℕ) → (copied : NtStatus) → Cmd (Answer UnicodeString)
clone_string w size text copied = do
  p ← allocate_or_null w size
  elim p [
    | none ↦
        pure (record {
          status = status_insufficient_resources;
          out = record { buffer = 0; text = [] };
        })
    | some buffer ↦
        if ltb size 2
        then (λ _. undefined)
        else if nt_success copied
        then pure (record { status = copied; out = record { buffer = buffer; text = text } })
        else (do
          free buffer
          pure (record { status = copied; out = record { buffer = 0; text = [] } }))
  ]

unfoldable pub clone_unicode_string : Wmi → UnicodeString → Cmd (Answer UnicodeString)
unfolding clone_string
clone_unicode_string w s = clone_string w (2 * length s.text) s.text (w.copy_string s.text)

-- Where FindSessionByInstanceAndLock finds a session, `f` takes it to the status and the session.
pub at_session :
    Sessions
    → (XenStoreSession → Cmd (NtStatus × XenStoreSession))
    → Found XenStoreSession
    → Cmd (NtStatus × Sessions)
at_session x f none = pure (status_wmi_instance_not_found, x)
at_session x f (some (b, s, a)) = do r ← f s; pure (r.0, record x { head = b ++ r.1 ∷ a })

unfoldable pub with_session :
    (instance_name : List ℕ)
    → Sessions
    → (XenStoreSession → Cmd (NtStatus × XenStoreSession))
    → Cmd (NtStatus × Sessions)
unfolding at_session
with_session name x f = at_session x f (find_session_by_instance_locked name x.head)

-- `if (!fdoData->InterfacesAcquired)`
pub if_acquired : Sessions → Cmd (NtStatus × Sessions) → Cmd (NtStatus × Sessions)
if_acquired x f = do
  fdo ← get_fdo
  if fdo.interfaces_acquired then f else pure (status_insufficient_resources, x)

-- The status of TransactionStart is not looked at.
unfoldable pub start_transaction : Wmi → XenStoreSession → Cmd (NtStatus × XenStoreSession)
start_transaction w s = elim s.transaction [
  | some _ ↦ pure (status_request_out_of_sequence, s)
  | none ↦ do
    t ← history
    let a : Answer ℕ = w.transaction_start t
    if nt_success a.status
        then (do
          record_event (acquire (store_transaction a.out))
          pure (status_success, record s { transaction = some a.out }))
        else (do record_event asked; pure (status_success, s))
]

unfoldable pub finish_transaction :
    Wmi → (commit : Bool) → XenStoreSession → Cmd (NtStatus × XenStoreSession)
finish_transaction w commit s = elim s.transaction [
  | none ↦ pure (status_request_out_of_sequence, s)
  | some x ↦ do
    t ← history
    end_transaction w (some x) commit
    pure ((w.transaction_end t x commit).status, record s { transaction = none })
]

unfoldable pub session_execute_start_transaction :
    Wmi → (instance_name : List ℕ) → Sessions → Cmd (NtStatus × Sessions)
unfolding if_acquired
session_execute_start_transaction w name x =
    if_acquired x (with_session name x (start_transaction w))

unfoldable pub session_execute_commit_transaction :
    Wmi → (instance_name : List ℕ) → Sessions → Cmd (NtStatus × Sessions)
unfolding if_acquired
session_execute_commit_transaction w name x =
    if_acquired x (with_session name x (finish_transaction w true))

unfoldable pub session_execute_abort_transaction :
    Wmi → (instance_name : List ℕ) → Sessions → Cmd (NtStatus × Sessions)
unfolding if_acquired
session_execute_abort_transaction w name x =
    if_acquired x (with_session name x (finish_transaction w false))

-- RemoveSessionLocked takes the session off the list.
pub end_found : Wmi → Sessions → Found XenStoreSession → Cmd (NtStatus × Sessions)
end_found w x none = pure (status_wmi_instance_not_found, x)
end_found w x (some (b, s, a)) = do
  remove_session_locked w s
  pure (status_success, record { count = fewer_sessions x.count; head = b ++ a })

unfoldable pub session_execute_end_session :
    Wmi → (instance_name : List ℕ) → Sessions → Cmd (NtStatus × Sessions)
unfolding end_found
session_execute_end_session w name x = end_found w x (find_session_by_instance_locked name x.head)

-- The watch that SessionFindWatchLocked finds, in its session.
pub remove_found : Wmi → XenStoreSession → Found XenStoreWatch → Cmd (NtStatus × XenStoreSession)
remove_found w s none = pure (status_success, s)
remove_found w s (some (b, v, a)) = do
  v' ← session_remove_watch_locked w v
  pure (status_success, record s { watches = b ++ v' ∷ a })

unfoldable pub remove_watch_of :
    Wmi → (path : UnicodeString) → XenStoreSession → Cmd (NtStatus × XenStoreSession)
unfolding remove_found
remove_watch_of w path s = remove_found w s (session_find_watch_locked path.text s.watches)

-- With the path where AccessWmiBuffer finds it.
unfoldable pub remove_watch_at :
    Wmi → InBuffer → (instance_name : List ℕ) → Sessions → Option ℕ → Cmd (NtStatus × Sessions)
remove_watch_at w b name x none = pure (status_invalid_device_request, x)
remove_watch_at w b name x (some p) =
    with_session name x (remove_watch_of w (get_counted_unicode_string b p))

unfoldable pub session_execute_remove_watch :
    Wmi → InBuffer → (instance_name : List ℕ) → Sessions → Cmd (NtStatus × Sessions)
session_execute_remove_watch w b name x = remove_watch_at w b name x (one_string b)

-- With the copy of the path, which the watch keeps.
pub set_watch_of :
    Wmi → (path : UnicodeString) → Found XenStoreSession → Sessions → Cmd (NtStatus × Sessions)
set_watch_of w path none x = do free path.buffer; pure (status_wmi_instance_not_found, x)
set_watch_of w path (some (b, s, a)) x = do
  r ← session_add_watch_locked w s path
  if nt_success r.0
      then pure (status_success, record x { head = b ++ r.1 ∷ a })
      else (do free path.buffer; pure (r.0, record x { head = b ++ r.1 ∷ a }))

unfoldable pub set_watch :
    Wmi → Answer UnicodeString → List ℕ → Sessions → Cmd (NtStatus × Sessions)
unfolding set_watch_of
set_watch w path name x =
    if nt_success path.status
    then set_watch_of w path.out (find_session_by_instance_locked name x.head) x
    else pure (path.status, x)

unfoldable pub set_watch_at :
    Wmi → InBuffer → (instance_name : List ℕ) → Sessions → Option ℕ → Cmd (NtStatus × Sessions)
set_watch_at w b name x none = pure (status_invalid_device_request, x)
set_watch_at w b name x (some p) = do
  path ← clone_unicode_string w (get_counted_unicode_string b p)
  set_watch w path name x

unfoldable pub session_execute_set_watch :
    Wmi → InBuffer → (instance_name : List ℕ) → Sessions → Cmd (NtStatus × Sessions)
session_execute_set_watch w b name x = set_watch_at w b name x (one_string b)

-- After CreateNewSession of the name `stringid`.
unfoldable pub created_or_freed : UnicodeString → NtStatus × Sessions → Cmd (NtStatus × Sessions)
created_or_freed stringid r =
    if nt_success r.0 then pure (status_success, r.1) else (do free stringid.buffer; pure r)

-- With the name of the session, which it keeps.
unfoldable pub add_session : Wmi → Answer UnicodeString → Sessions → Cmd (NtStatus × Sessions)
add_session w stringid x =
    if nt_success stringid.status
    then create_new_session w x stringid.out >>= created_or_freed stringid.out
    else pure (stringid.status, x)

-- The copy is of all units that the buffer has.
unfoldable pub add_session_at :
    Wmi → InBuffer → (out_fits : Bool) → Sessions → Option ℕ → Cmd (NtStatus × Sessions)
unfolding clone_string
add_session_at w b out_fits x none = pure (status_invalid_device_request, x)
add_session_at w b false x (some p) = pure (status_buffer_too_small, x)
add_session_at w b true x (some p) = do
  let text : List ℕ = units b.word (p + 2) (b.word p / 2)
  stringid ← clone_string w (b.word p) text (w.copy_string text)
  add_session w stringid x

unfoldable pub base_execute_add_session :
    Wmi → InBuffer → (out_buffer out_size : ℕ) → Sessions → Cmd (NtStatus × Sessions)
base_execute_add_session w b out_buffer out_size x =
    add_session_at w b
      (access_wmi_buffer b.word out_buffer false out_size (wmi_item wmi_uint32 ∷ [])).fits x
      (one_string b)
