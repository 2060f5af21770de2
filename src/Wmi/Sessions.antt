-- ===== src/Wmi/Sessions.antt =====
-- The sessions of src/xeniface/wmi.c: removal, suspend and resume. The caller has the lock. The
-- thread of a session runs, when it is closed, to its end.
use qubes_vmm_xen_win_pvdriv.Common.{
  Bool, List, Option, [], false, if◌then◌else◌, none, some, true, ℕ, ◌%◌, ◌++◌, ◌+◌, ◌-◌, ◌==◌, ◌∷◌,
  ◌^◌,
}
use qubes_vmm_xen_win_pvdriv.Machine.{
  Answer, Cmd, acquire, asked, free, history, pool, pure, record_event, release, set_event,
  store_transaction, thread_object, ◌>>=◌, ◌>>◌,
}
use qubes_vmm_xen_win_pvdriv.Wmi.Session.{Sessions, Wmi, XenStoreSession, XenStoreWatch}
use qubes_vmm_xen_win_pvdriv.Wmi.Watch.{
  free_watches, session_remove_watches_locked, start_watch, remove_watch_handle,
}
pub mod Ledger
pub mod Suspension

-- XENBUS_STORE(TransactionEnd), where there is a transaction.
unfoldable pub end_transaction : Wmi → Option ℕ → (commit : Bool) → Cmd (Unit {0})
end_transaction w none commit = pure tt
end_transaction w (some x) commit = do
  t ← history
  if (w.transaction_end t x commit).out
      then record_event (release (store_transaction x))
      else record_event asked

-- WatchCallbackThread, when the session is closing: its watches, if the count is not 0.
unfoldable pub watch_thread_closing : (watchcount : ℕ) → List XenStoreWatch → Cmd (Unit {0})
watch_thread_closing count watches = if count == 0 then pure tt else free_watches watches

-- RemoveSessionLocked of `s`; the caller takes it off the list.
unfoldable pub remove_session_locked : Wmi → XenStoreSession → Cmd (Unit {0})
remove_session_locked w s = do
  watches ← session_remove_watches_locked w s.watches
  end_transaction w s.transaction false
  record_event (set_event s.address)
  watch_thread_closing s.watchcount watches
  record_event (release (thread_object s.watch_thread))
  free s.stringid.buffer
  free s.instancename.buffer
  free s.address

-- `Sessions--` of the USHORT
abbrev pub fewer_sessions : ℕ → ℕ
fewer_sessions count = (count + 2 ^ 16 - 1) % 2 ^ 16

remove_all_loop : Wmi → (count : ℕ) → List XenStoreSession → Cmd Sessions
remove_all_loop w count [] = pure (record { count = count; head = [] })
remove_all_loop w count (s ∷ ss) = do
  remove_session_locked w s
  remove_all_loop w (fewer_sessions count) ss

unfoldable pub sessions_remove_all : Wmi → Sessions → Cmd Sessions
unfolding remove_all_loop
sessions_remove_all w x = remove_all_loop w x.count x.head

-- SessionUnwatchWatchesLocked.
unfoldable pub unwatch_loop : Wmi → List XenStoreWatch → Cmd (List XenStoreWatch)
unwatch_loop w [] = pure []
unwatch_loop w (v ∷ vs) = do
  remove_watch_handle w v.watchhandle
  vs' ← unwatch_loop w vs
  pure (record v { watchhandle = none } ∷ vs')

unfoldable pub suspend_session_locked : Wmi → XenStoreSession → Cmd XenStoreSession
suspend_session_locked w s = do
  watches ← unwatch_loop w s.watches
  end_transaction w s.transaction false
  pure (record s { watches = watches; suspended = true; transaction = none })

suspend_all_loop : Wmi → List XenStoreSession → Cmd (List XenStoreSession)
suspend_all_loop w [] = pure []
suspend_all_loop w (s ∷ ss) = do
  s' ← suspend_session_locked w s
  ss' ← suspend_all_loop w ss
  pure (s' ∷ ss')

unfoldable pub wmi_sessions_suspend_all : Wmi → Sessions → Cmd Sessions
unfolding suspend_all_loop
wmi_sessions_suspend_all w x = do ss ← suspend_all_loop w x.head; pure (record x { head = ss })

-- SessionRenewWatchesLocked: a status of StartWatch is not looked at.
unfoldable pub renew_one : Wmi → XenStoreWatch → Cmd XenStoreWatch
renew_one w v = if v.finished then pure v else (do
  t ← history
  let count : ℕ = w.kernel.suspend_count t
  r ← start_watch w v.address v.path v.watchhandle
  pure (record v { suspendcount = count; watchhandle = r.1 }))

unfoldable pub renew_loop : Wmi → List XenStoreWatch → Cmd (List XenStoreWatch)
renew_loop w [] = pure []
renew_loop w (v ∷ vs) = do v' ← renew_one w v; vs' ← renew_loop w vs; pure (v' ∷ vs')

unfoldable pub resume_session_locked : Wmi → XenStoreSession → Cmd XenStoreSession
unfolding renew_loop renew_one
resume_session_locked w s = do
  watches ← renew_loop w s.watches
  record_event (set_event s.address)
  pure (record s { watches = watches; suspended = false; mapchanged = true })

unfoldable pub resume_all_loop : Wmi → List XenStoreSession → Cmd (List XenStoreSession)
resume_all_loop w [] = pure []
resume_all_loop w (s ∷ ss) = do
  s' ← resume_session_locked w s
  ss' ← resume_all_loop w ss
  pure (s' ∷ ss')

unfoldable pub wmi_sessions_resume_all : Wmi → Sessions → Cmd Sessions
unfolding resume_all_loop
wmi_sessions_resume_all w x = do ss ← resume_all_loop w x.head; pure (record x { head = ss })
