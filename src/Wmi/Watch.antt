-- ===== src/Wmi/Watch.antt =====
-- The watches of a session in src/xeniface/wmi.c: StartWatch, SessionAddWatchLocked,
-- SessionRemoveWatchLocked, FireWatch, and WatchCallbackThread.
use qubes_vmm_xen_win_pvdriv.Common.{
  Bool, List, Option, [], false, if◌then◌else◌, length, ltb, map, none, not, some, true, ℕ, ◌%◌,
  ◌&&◌, ◌*◌, ◌++◌, ◌+◌, ◌-◌, ◌/◌, ◌==◌, ◌^◌, ◌||◌, ◌∷◌,
}
use qubes_vmm_xen_win_pvdriv.Machine.{
  Answer, Cmd, Kernel, NtStatus, acquire, asked, fire_event, free, history, nt_success, pool, pure,
  record_event, release, set_event, status_insufficient_resources, status_success, store_watch,
  undefined, ◌>>=◌, ◌>>◌,
}
use qubes_vmm_xen_win_pvdriv.Store.Strings.{c_string}
use qubes_vmm_xen_win_pvdriv.Wmi.Session.{UnicodeString, Wmi, XenStoreSession, XenStoreWatch}
use qubes_vmm_xen_win_pvdriv.Wmi.Buffer.{WmiAccess, access_wmi_buffer, wmi_string}
pub mod Ledger

-- MAX_WATCH_COUNT, with MAXIMUM_WAIT_OBJECTS
abbrev pub max_watch_count : ℕ
max_watch_count = 64 - 1

-- XENBUS_STORE(WatchAdd): the new handle, or the old one.
start_watch_add : Wmi → (address : ℕ) → Option ℕ → (path : List ℕ) → Cmd (NtStatus × Option ℕ)
start_watch_add w address handle path = do
  t ← history
  let a : Answer ℕ = w.kernel.watch_add t path address
  if nt_success a.status
      then (do record_event (acquire (store_watch a.out)); pure (status_success, some a.out))
      else (do record_event asked; pure (a.status, handle))

-- With the path in ANSI, which the caller gives back.
start_watch_ansi : Wmi → (address : ℕ) → Option ℕ → (text : List ℕ) → Cmd (NtStatus × Option ℕ)
unfolding start_watch_add c_string
start_watch_ansi w address handle text = do
  t ← history
  elim (w.kernel.allocate_pool t (length text + 1)) [
    | none ↦ do record_event asked; pure (status_insufficient_resources, handle)
    | some tmppath ↦ do
      record_event (acquire (pool tmppath))
      r ← start_watch_add w address handle (c_string text)
      free tmppath
      pure r
  ]

-- StartWatch: the status, and the watchhandle after it.
unfoldable pub start_watch :
    Wmi → (address : ℕ) → UnicodeString → Option ℕ → Cmd (NtStatus × Option ℕ)
unfolding start_watch_ansi
start_watch w address path handle = do
  t ← history
  let a : Answer (ℕ × List ℕ) = w.unicode_to_ansi t path.text
  if nt_success a.status
      then (do
        record_event (acquire (pool a.out.0))
        r ← start_watch_ansi w address handle a.out.1
        free a.out.0
        pure r)
      else (do record_event asked; pure (status_insufficient_resources, handle))

-- sizeof(XenStoreWatch) on x64
abbrev pub watch_size : ℕ
watch_size = 80

-- The end of SessionAddWatchLocked, with the result of StartWatch.
watch_started :
    XenStoreSession
    → (address count : ℕ) → UnicodeString
    → (status : NtStatus) → Option ℕ
    → Cmd (NtStatus × XenStoreSession)
watch_started s address count path status none = do
  free address
  pure (status_insufficient_resources, s)
watch_started s address count path status (some h) =
    if nt_success status
    then (do
      record_event (set_event s.address)
      pure (
        status_success,
        record s {
          mapchanged = true;
          watchcount = s.watchcount + 1;
          watches =
              record {
                address = address;
                path = path;
                suspendcount = count;
                finished = false;
                watchhandle = some h;
              }
              ∷ s.watches;
        },
      ))
    else (do free address; pure (status_insufficient_resources, s))

unfoldable pub session_add_watch_locked :
    Wmi → XenStoreSession → UnicodeString → Cmd (NtStatus × XenStoreSession)
unfolding start_watch watch_started
session_add_watch_locked w s path =
    if ltb s.watchcount max_watch_count
    then (do
      t ← history
      elim (w.kernel.allocate_pool t watch_size) [
        | none ↦ do record_event asked; pure (status_insufficient_resources, s)
        | some address ↦ do
          record_event (acquire (pool address))
          t' ← history
          r ← start_watch w address path none
          watch_started s address (w.kernel.suspend_count t') path r.0 r.1
      ])
    else pure (status_insufficient_resources, s)

-- XENBUS_STORE(WatchRemove), whose status is not looked at. It takes no NULL.
unfoldable pub remove_watch_handle : Wmi → Option ℕ → Cmd (Unit {0})
remove_watch_handle w none = λ _. undefined
remove_watch_handle w (some h) = do
  t ← history
  if nt_success (w.kernel.watch_remove t h)
      then record_event (release (store_watch h))
      else record_event asked

-- Where there is a handle.
remove_handle : Wmi → XenStoreWatch → Option ℕ → Cmd XenStoreWatch
unfolding remove_watch_handle
remove_handle w v none = pure v
remove_handle w v (some h) = do
  remove_watch_handle w (some h)
  record_event (set_event v.address)
  pure (record v { watchhandle = none; finished = true })

unfoldable pub session_remove_watch_locked : Wmi → XenStoreWatch → Cmd XenStoreWatch
unfolding remove_handle
session_remove_watch_locked w v = remove_handle w v v.watchhandle

unfoldable pub session_remove_watches_locked : Wmi → List XenStoreWatch → Cmd (List XenStoreWatch)
unfolding session_remove_watch_locked
session_remove_watches_locked w [] = pure []
session_remove_watches_locked w (v ∷ vs) = do
  v' ← session_remove_watch_locked w v
  vs' ← session_remove_watches_locked w vs
  pure (v' ∷ vs')

-- WatchCallbackThread, when a watch is finished, and its end, when the session is closing.
unfoldable pub free_watch : XenStoreWatch → Cmd (Unit {0})
free_watch v = do free v.path.buffer; free v.address

unfoldable pub free_watches : List XenStoreWatch → Cmd (Unit {0})
unfolding free_watch
free_watches [] = pure tt
free_watches (v ∷ vs) = free_watch v >> free_watches vs

-- FireWatch: the event's data are the counted path, where there is memory for them. WMI frees them.
unfoldable pub fire_watch : Wmi → XenStoreWatch → Cmd (Unit {0})
fire_watch w v = do
  t ← history
  let size : ℕ = 2 * length v.path.text + 2
  let block : WmiAccess = access_wmi_buffer (λ _. 0) 0 false 0 (wmi_string size ∷ [])
  elim (w.kernel.allocate_pool t block.required_size) [
    | none ↦ record_event asked
    | some p ↦ record_event (fire_event ((2 * length v.path.text) ∷ v.path.text))
  ]

-- The watch is set anew after a suspend.
unfoldable pub renew_watch : Wmi → (count : ℕ) → XenStoreWatch → Cmd XenStoreWatch
renew_watch w count v = do
  remove_watch_handle w v.watchhandle
  r ← start_watch w v.address v.path none
  pure (record v { suspendcount = count; watchhandle = r.1 })

-- WatchCallbackThread: a session whose watch `v`, with `before` and `after` around it, has been
-- signalled. First where the watch is not finished.
unfoldable pub live_watch_signalled :
    Wmi
    → XenStoreSession
    → (before : List XenStoreWatch) → XenStoreWatch
    → (after : List XenStoreWatch) → Cmd XenStoreSession
unfolding fire_watch
live_watch_signalled w s before v after = do
  t ← history
  let count : ℕ = w.kernel.suspend_count t
  if not s.suspended && not (v.suspendcount == count)
      then (do v' ← renew_watch w count v; pure (record s { watches = before ++ v' ∷ after }))
      else (do fire_watch w v; pure s)

-- The count is not 0, since it is that of the watches.
unfoldable pub watch_signalled :
    Wmi
    → XenStoreSession
    → (before : List XenStoreWatch) → XenStoreWatch
    → (after : List XenStoreWatch) → Cmd XenStoreSession
unfolding free_watch
watch_signalled w s before v after =
    if v.finished
    then (do
      free_watch v
      pure (record s {
        watches = before ++ after;
        mapchanged = true;
        watchcount = s.watchcount - 1;
      }))
    else live_watch_signalled w s before v after
