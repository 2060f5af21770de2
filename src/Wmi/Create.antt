-- ===== src/Wmi/Create.antt =====
-- CreateNewSession of src/xeniface/wmi.c, with Xmasprintf and GetInstanceName. The loops that have
-- no bound in the source take fuel; where it runs out, the loop is taken not to end.
use qubes_vmm_xen_win_pvdriv.Common.{
  Bool, List, Option, [], false, if◌then◌else◌, length, ltb, none, not, some, suc, true, zero, ℕ,
  ◌%◌, ◌*◌, ◌++◌, ◌+◌, ◌==◌, ◌∷◌, ◌^◌,
}
use qubes_vmm_xen_win_pvdriv.Machine.{
  Answer, Cmd, NtStatus, acquire, asked, free, get_fdo, history, nt_success, pool, pure,
  record_event, status_insufficient_resources, status_no_memory, status_success, thread_handle,
  thread_object, undefined, ◌>>=◌, ◌>>◌,
}
use qubes_vmm_xen_win_pvdriv.Wmi.Session.{
  Found, Sessions, UnicodeString, Wmi, XenStoreSession, find_session_by_instance_locked,
  find_session_locked,
}
pub mod Search
pub mod Names
pub mod Ledger
pub mod Creation

-- ExAllocatePoolWithTag of a size, or NULL.
unfoldable pub allocate_or_null : Wmi → (size : ℕ) → Cmd (Option ℕ)
allocate_or_null w size = do
  t ← history
  elim (w.kernel.allocate_pool t size) [
    | none ↦ do record_event asked; pure none
    | some p ↦ do record_event (acquire (pool p)); pure (some p)
  ]

-- The loop of Xmasprintf: blocks that double until the text and its NUL fit. `false` is NULL.
unfoldable pub xmasprintf_loop : Wmi → (fuel basesize length_of_text : ℕ) → Cmd Bool
xmasprintf_loop w zero basesize n = λ _. undefined
xmasprintf_loop w (suc fuel) basesize n = do
  p ← allocate_or_null w (basesize * 2)
  elim p [
    | none ↦ pure false
    | some out ↦ do
      free out
      elim (ltb n (basesize * 2)) [
        | true ↦ pure true
        | false ↦ xmasprintf_loop w fuel (basesize * 2) n
      ]
  ]

-- Xmasprintf, whose format gives `text`.
unfoldable pub xmasprintf : Wmi → (text : List ℕ) → Cmd (Option ℕ)
xmasprintf w text = do
  fits ← xmasprintf_loop w (length text + 1) 128 (length text)
  if fits then allocate_or_null w (length text + 1) else pure none

-- GetInstanceName, once the name is in Unicode, and where there is memory, in a block of `size` bytes,
-- whose first unit AllocUnicodeStringBuffer sets.
unfoldable pub instance_name_of : Wmi → (size : ℕ) → List ℕ → Option ℕ → Cmd (Answer UnicodeString)
instance_name_of w size unicode none =
    pure (record { status = status_insufficient_resources; out = record { buffer = 0; text = [] } })
instance_name_of w size unicode (some buffer) =
    let a : Answer (List ℕ) = w.instance_name unicode in
    if ltb size 2
    then (λ _. undefined)
    else if nt_success a.status
    then pure (record { status = status_success; out = record { buffer = buffer; text = a.out } })
    else (do
      free buffer
      pure (record { status = a.status; out = record { buffer = 0; text = [] } }))

-- destsz, a USHORT.
abbrev pub instance_name_size : Wmi → List ℕ → ℕ
instance_name_size w unicode = (w.suggested_length + 2 + 2 * length unicode) % 2 ^ 16

unfoldable pub get_instance_name : Wmi → (name : List ℕ) → Cmd (Answer UnicodeString)
unfolding allocate_or_null instance_name_of
get_instance_name w name = do
  t ← history
  let a : Answer (ℕ × List ℕ) = w.ansi_to_unicode t name
  if nt_success a.status
      then (do
        record_event (acquire (pool a.out.0))
        p ← allocate_or_null w (instance_name_size w a.out.1)
        r ← instance_name_of w (instance_name_size w a.out.1) a.out.1 p
        free a.out.0
        pure r)
      else (do
        record_event asked
        pure (record { status = a.status; out = record { buffer = 0; text = [] } }))

-- The body of the loop over the names: `p` is what Xmasprintf returned.
unfoldable pub with_name : Wmi → (name : List ℕ) → Option ℕ → Cmd (Answer UnicodeString)
with_name w name none =
    pure (record { status = status_no_memory; out = record { buffer = 0; text = [] } })
with_name w name (some p) = do a ← get_instance_name w name; free p; pure a

unfoldable pub try_name : Wmi → (name : List ℕ) → Cmd (Answer UnicodeString)
try_name w name = xmasprintf w name >>= with_name w name

-- An instance name that FindSessionByInstanceLocked does not find.
unfoldable pub name_loop :
    Wmi
    → (fuel : ℕ) → List XenStoreSession
    → (ansi : List ℕ) → (count : ℕ) → Cmd (Answer UnicodeString)
name_loop w zero ss ansi count = λ _. undefined
name_loop w (suc fuel) ss ansi count = do
  a ← try_name w (w.session_name ansi count)
  elim (nt_success a.status) [
    | false ↦ pure a
    | true ↦ elim (find_session_by_instance_locked a.out.text ss) [
      | none ↦ pure a
      | some _ ↦ do free a.out.buffer; name_loop w fuel ss ansi (count + 1)
    ]
  ]

-- MAX_SESSIONS
abbrev pub max_sessions : ℕ
max_sessions = 65536

-- `while (FindSessionLocked(fdoData, session->id))`
unfoldable pub id_loop : (fuel : ℕ) → List XenStoreSession → (id : ℕ) → Option ℕ
id_loop zero ss id = none
id_loop (suc fuel) ss id = elim (find_session_locked id ss) [
  | none ↦ some id
  | some _ ↦ id_loop fuel ss ((id + 1) % max_sessions)
]

unfoldable pub new_session_id : List XenStoreSession → Option ℕ
unfolding id_loop
new_session_id [] = some 0
new_session_id (s ∷ ss) = id_loop (length (s ∷ ss) + 1) (s ∷ ss) (s.id + 1)

-- sizeof(XenStoreSession) on x64
abbrev pub session_size : ℕ
session_size = 3768

-- From PsCreateSystemThread on: the session is in the list already. The handle of the thread is
-- not closed.
unfoldable pub session_thread :
    Wmi → (ansi : ℕ) → XenStoreSession → Sessions → Cmd (NtStatus × Sessions)
session_thread w ansi s x = do
  t ← history
  let a : Answer (ℕ × ℕ) = w.create_system_thread t
  let linked : Sessions = record {
    count = (x.count + 1) % 2 ^ 16;
    head = record s { watch_thread = a.out.1 } ∷ x.head;
  }
  if nt_success a.status
      then (do
        record_event (acquire (thread_handle a.out.0))
        record_event (acquire (thread_object a.out.1))
        free ansi
        pure (status_success, linked))
      else (do record_event asked; free ansi; free s.address; pure (a.status, linked))

abbrev pub new_session :
    (address id : ℕ)
    → (stringid instancename : UnicodeString) → (suspended : Bool) → XenStoreSession
new_session address id stringid name suspended = record {
  address = address;
  id = id;
  stringid = stringid;
  instancename = name;
  transaction = none;
  watches = [];
  watchcount = 0;
  mapchanged = true;
  closing = false;
  suspended = suspended;
  watch_thread = 0;
}

-- With the id of the session, where the search for it ends.
unfoldable pub session_numbered :
    Wmi
    → (address : ℕ) → (stringid instancename : UnicodeString) → (ansi : ℕ) → Sessions
    → Option ℕ
    → Cmd (NtStatus × Sessions)
session_numbered w address stringid name ansi x none = λ _. undefined
session_numbered w address stringid name ansi x (some id) = do
  fdo ← get_fdo
  session_thread w ansi (new_session address id stringid name (not fdo.interfaces_acquired)) x

-- With the name of the session, or the status with which there is none.
unfoldable pub session_named :
    Wmi
    → (address : ℕ) → (stringid : UnicodeString) → (ansi : ℕ) → Sessions
    → Answer UnicodeString
    → Cmd (NtStatus × Sessions)
session_named w address stringid ansi x name =
    if nt_success name.status
    then session_numbered w address stringid name.out ansi x (new_session_id x.head)
    else (do free ansi; free address; pure (name.status, x))

-- CreateNewSession: the status, and the sessions, of which the new one is the first.
unfoldable pub create_new_session : Wmi → Sessions → UnicodeString → Cmd (NtStatus × Sessions)
create_new_session w x stringid =
    if x.count == max_sessions then pure (status_insufficient_resources, x) else (do
      p ← allocate_or_null w session_size
      elim p [
        | none ↦ pure (status_insufficient_resources, x)
        | some address ↦ do
          t ← history
          let a : Answer (ℕ × List ℕ) = w.unicode_to_ansi t stringid.text
          if nt_success a.status
              then (do
                record_event (acquire (pool a.out.0))
                name ← name_loop w (length x.head + 1) x.head a.out.1 0
                session_named w address stringid a.out.0 x name)
              else (do record_event asked; free address; pure (a.status, x))
      ])
