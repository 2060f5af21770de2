-- ===== src/Wmi/Sessions/Ledger.antt =====
-- What RemoveSessionLocked and SessionsRemoveAll of src/xeniface/wmi.c give back.
use qubes_vmm_xen_win_pvdriv.Common.{
  sym, ◌∙◌, All, Bool, List, Option, [], arith, false, length, none, some, total, true, ℕ, ◌∷◌, ◌≡◌,
}
use qubes_vmm_xen_win_pvdriv.Machine.{
  Changes, Goes, Goes-and, Goes-bind, Machine, Reliable, Resource, Trace,
}
use qubes_vmm_xen_win_pvdriv.Wmi.Session.{
  Sessions, Wmi, XenStoreSession, XenStoreWatch, session_owned, sessions_owned, transaction_owned,
  watch_owned,
}
use qubes_vmm_xen_win_pvdriv.Wmi.Watch.{session_remove_watches_locked}
use qubes_vmm_xen_win_pvdriv.Wmi.Watch.Ledger.{
  NoHandle, free_watches-Changes, remove_watches-Changes, remove_watches-NoHandle,
}
use qubes_vmm_xen_win_pvdriv.Wmi.Sessions.{
  fewer_sessions, remove_all_loop, remove_session_locked, sessions_remove_all, end_transaction,
  watch_thread_closing,
}

-- XENBUS takes watches and transactions back when it is asked to.
pub record TakesBack (w : Wmi) : Type 0 where
  pub reliable : Reliable w.kernel
  pub ends : (t : Trace) (x : ℕ) (commit : Bool) → (w.transaction_end t x commit).out ≡ true

-- The count of a session is that of its watches.
abbrev pub IsCountedSession : XenStoreSession → Type 0
IsCountedSession s = s.watchcount ≡ length s.watches

pub end_transaction-Changes :
    (r : Resource) (w : Wmi) (x : Option ℕ) (commit : Bool) (m : Machine)
    → TakesBack w
    → Goes
        (λ _ n. Changes r 0 (transaction_owned r x) m n)
        (λ _ _. ⊥)
        (end_transaction w x commit m)
unfolding end_transaction
end_transaction-Changes r w none commit m h = ground arith
end_transaction-Changes r w (some x) commit m h = ground (arith, h.ends m.trace x commit)

closing-Changes :
    (r : Resource) (count : ℕ) (vs : List XenStoreWatch) (m : Machine)
    → count ≡ length vs
    → All NoHandle vs
    → Goes
        (λ _ n. Changes r 0 (total (watch_owned r) vs) m n)
        (λ _ _. ⊥)
        (watch_thread_closing count vs m)
unfolding watch_thread_closing
closing-Changes r count [] m q h = ground arith
closing-Changes r count (v ∷ vs) m q h = ground (arith, free_watches-Changes r (v ∷ vs) m h)

pub remove_session-Changes :
    (r : Resource) (w : Wmi) (s : XenStoreSession) (m : Machine)
    → TakesBack w
    → IsCountedSession s
    → Goes (λ _ n. Changes r 0 (session_owned r s) m n) (λ _ _. ⊥) (remove_session_locked w s m)
unfolding remove_session_locked
remove_session-Changes r w s m h counted =
    Goes-bind
      (λ vs n.
        Changes r (total (watch_owned r) vs) (total (watch_owned r) s.watches) m n
        × (All NoHandle vs × (length vs ≡ length s.watches)))
      (λ _ _. ⊥) (λ _ _. ⊥) _ (session_remove_watches_locked w s.watches m) _
      (Goes-and _ _ (session_remove_watches_locked w s.watches m)
        (remove_watches-Changes r w s.watches m h.reliable) (remove_watches-NoHandle w s.watches m))
      (λ _ _ e. e)
      (λ vs n c. grind (
        arith,
        c,
        counted,
        λ (o : Machine). end_transaction-Changes r w s.transaction false o h,
        λ (o : Machine). closing-Changes r s.watchcount vs o (counted ∙ sym c.1.1) c.1.0,
      ))

remove_all_loop-Changes :
    (r : Resource) (w : Wmi) (count : ℕ) (ss : List XenStoreSession) (m : Machine)
    → TakesBack w
    → All IsCountedSession ss
    → Goes
        (λ x n. Changes r 0 (sessions_owned r ss) m n × (x.head ≡ []))
        (λ _ _. ⊥)
        (remove_all_loop w count ss m)
unfolding remove_all_loop
remove_all_loop-Changes r w count [] m h counted = ground arith
remove_all_loop-Changes r w count (s ∷ ss) m h counted = grind (
  arith,
  remove_session-Changes r w s m h counted.0,
  λ (o : Machine). remove_all_loop-Changes r w (fewer_sessions count) ss o h counted.1,
)

-- Where XENBUS takes watches and transactions back when asked, and each session counts its
-- watches: SessionsRemoveAll ends, with no session left, and has given back exactly what was held
-- for the sessions: their memory, strings, threads, transactions, watches and handles.
pub sessions_remove_all-Changes :
    (r : Resource) (w : Wmi) (x : Sessions) (m : Machine)
    → TakesBack w
    → All IsCountedSession x.head
    → Goes
        (λ y n. Changes r 0 (sessions_owned r x.head) m n × (y.head ≡ []))
        (λ _ _. ⊥)
        (sessions_remove_all w x m)
unfolding sessions_remove_all
sessions_remove_all-Changes r w x m h counted =
    remove_all_loop-Changes r w x.count x.head m h counted
