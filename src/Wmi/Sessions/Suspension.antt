-- ===== src/Wmi/Sessions/Suspension.antt =====
-- On WmiSessionsSuspendAll and WmiSessionsResumeAll of src/xeniface/wmi.c.
use qubes_vmm_xen_win_pvdriv.Common.{
  All, List, [], arith, false, length, none, total, true, ◌∷◌, ◌≡◌,
}
use qubes_vmm_xen_win_pvdriv.Machine.{Changes, Goes, Machine, Reliable, Resource}
use qubes_vmm_xen_win_pvdriv.Wmi.Session.{
  Sessions, Wmi, XenStoreSession, XenStoreWatch, session_owned, sessions_owned, watch_owned,
}
use qubes_vmm_xen_win_pvdriv.Wmi.Watch.{start_watch, remove_watch_handle}
use qubes_vmm_xen_win_pvdriv.Wmi.Watch.Ledger.{HasHandle, NoHandle, Started, start_watch-Started}
use qubes_vmm_xen_win_pvdriv.Wmi.Sessions.{
  renew_loop, renew_one, resume_all_loop, resume_session_locked, suspend_all_loop,
  suspend_session_locked, unwatch_loop, wmi_sessions_resume_all, wmi_sessions_suspend_all,
}
use qubes_vmm_xen_win_pvdriv.Wmi.Sessions.Ledger.{TakesBack, end_transaction-Changes}

unwatch-Changes :
    (r : Resource) (w : Wmi) (vs : List XenStoreWatch) (m : Machine)
    → Reliable w.kernel
    → All HasHandle vs
    → Goes
        (λ vs' n.
          Changes r (total (watch_owned r) vs') (total (watch_owned r) vs) m n
          × All NoHandle vs'
          × (length vs' ≡ length vs))
        (λ _ _. ⊥)
        (unwatch_loop w vs m)
unfolding unwatch_loop remove_watch_handle
unwatch-Changes r w [] m h held = ground arith
unwatch-Changes r w (v ∷ vs) m h held =
    grind (arith, held.0, h.watch_removed, λ (n : Machine). unwatch-Changes r w vs n h held.1)

-- A session that a suspend has stopped: nothing of XENBUS is held for it.
pub record IsSuspended (s : XenStoreSession) : Type 0 where
  pub is_suspended : s.suspended ≡ true
  pub no_transaction : s.transaction ≡ none
  pub no_handle : All NoHandle s.watches

-- The session is the same to its users.
pub record Same (s t : XenStoreSession) : Type 0 where
  pub id_kept : t.id ≡ s.id
  pub same_name : t.instancename ≡ s.instancename
  pub same_count : t.watchcount ≡ s.watchcount
  pub same_length : length t.watches ≡ length s.watches

abbrev pub AllSame : List XenStoreSession → List XenStoreSession → Type 0
AllSame [] [] = Unit
AllSame (s ∷ ss) (t ∷ ts) = Same s t × AllSame ss ts
AllSame _ _ = ⊥

suspend-Changes :
    (r : Resource) (w : Wmi) (s : XenStoreSession) (m : Machine)
    → TakesBack w
    → All HasHandle s.watches
    → Goes
        (λ s' n.
          Changes r (session_owned r s') (session_owned r s) m n × IsSuspended s' × Same s s')
        (λ _ _. ⊥)
        (suspend_session_locked w s m)
unfolding suspend_session_locked
suspend-Changes r w s m h held = grind (
  arith,
  unwatch-Changes r w s.watches m h.reliable held,
  λ (o : Machine). end_transaction-Changes r w s.transaction false o h,
)

suspend_all_loop-Changes :
    (r : Resource) (w : Wmi) (ss : List XenStoreSession) (m : Machine)
    → TakesBack w
    → All (λ s. All HasHandle s.watches) ss
    → Goes
        (λ ss' n.
          Changes r (sessions_owned r ss') (sessions_owned r ss) m n
          × All IsSuspended ss'
          × AllSame ss ss')
        (λ _ _. ⊥)
        (suspend_all_loop w ss m)
unfolding suspend_all_loop
suspend_all_loop-Changes r w [] m h held = ground arith
suspend_all_loop-Changes r w (s ∷ ss) m h held = grind (
  arith,
  suspend-Changes r w s m h held.0,
  λ (o : Machine). suspend_all_loop-Changes r w ss o h held.1,
)

-- Where XENBUS takes watches and transactions back when asked, and every watch of a session has a
-- handle: WmiSessionsSuspendAll ends with every session suspended, without a transaction and
-- without a watch handle, in the same order with the same ids, names and numbers of watches, and
-- every resource is accounted for.
pub wmi_sessions_suspend_all-Changes :
    (r : Resource) (w : Wmi) (x : Sessions) (m : Machine)
    → TakesBack w
    → All (λ s. All HasHandle s.watches) x.head
    → Goes
        (λ y n.
          Changes r (sessions_owned r y.head) (sessions_owned r x.head) m n
          × All IsSuspended y.head
          × AllSame x.head y.head
          × (y.count ≡ x.count))
        (λ _ _. ⊥)
        (wmi_sessions_suspend_all w x m)
unfolding wmi_sessions_suspend_all
wmi_sessions_suspend_all-Changes r w x m h held =
    grind (arith, suspend_all_loop-Changes r w x.head m h held)

renew_one-Changes :
    (r : Resource) (w : Wmi) (v : XenStoreWatch) (m : Machine)
    → NoHandle v
    → Goes (λ v' n. Changes r (watch_owned r v') (watch_owned r v) m n) (λ _ _. ⊥) (renew_one w v m)
unfolding renew_one
renew_one-Changes r w v m h =
    let started : Goes (Started r m) (λ _ _. ⊥) (start_watch w v.address v.path v.watchhandle m) =
      rw h (start_watch-Started r w v.address v.path m) in
    grind (arith, h, started)

renew-Changes :
    (r : Resource) (w : Wmi) (vs : List XenStoreWatch) (m : Machine)
    → All NoHandle vs
    → Goes
        (λ vs' n.
          Changes r (total (watch_owned r) vs') (total (watch_owned r) vs) m n
          × (length vs' ≡ length vs))
        (λ _ _. ⊥)
        (renew_loop w vs m)
unfolding renew_loop
renew-Changes r w [] m h = ground arith
renew-Changes r w (v ∷ vs) m h =
    grind (arith, renew_one-Changes r w v m h.0, λ (n : Machine). renew-Changes r w vs n h.1)

resume-Changes :
    (r : Resource) (w : Wmi) (s : XenStoreSession) (m : Machine)
    → All NoHandle s.watches
    → Goes
        (λ s' n.
          Changes r (session_owned r s') (session_owned r s) m n
          × (s'.suspended ≡ false)
          × Same s s')
        (λ _ _. ⊥)
        (resume_session_locked w s m)
unfolding resume_session_locked
resume-Changes r w s m h = grind (arith, renew-Changes r w s.watches m h)

abbrev pub Unsuspended : XenStoreSession → Type 0
Unsuspended s = s.suspended ≡ false

resume_all_loop-Changes :
    (r : Resource) (w : Wmi) (ss : List XenStoreSession) (m : Machine)
    → All (λ s. All NoHandle s.watches) ss
    → Goes
        (λ ss' n.
          Changes r (sessions_owned r ss') (sessions_owned r ss) m n
          × All Unsuspended ss'
          × AllSame ss ss')
        (λ _ _. ⊥)
        (resume_all_loop w ss m)
unfolding resume_all_loop
resume_all_loop-Changes r w [] m h = ground arith
resume_all_loop-Changes r w (s ∷ ss) m h =
    grind (arith, resume-Changes r w s m h.0, λ (o : Machine). resume_all_loop-Changes r w ss o h.1)

-- Where no watch of a session has a handle, WmiSessionsResumeAll ends with no session suspended,
-- in the same order with the same ids, names and numbers of watches, and every resource is
-- accounted for: the handles that it acquires are those of the watches.
pub wmi_sessions_resume_all-Changes :
    (r : Resource) (w : Wmi) (x : Sessions) (m : Machine)
    → All (λ s. All NoHandle s.watches) x.head
    → Goes
        (λ y n.
          Changes r (sessions_owned r y.head) (sessions_owned r x.head) m n
          × All Unsuspended y.head
          × AllSame x.head y.head
          × (y.count ≡ x.count))
        (λ _ _. ⊥)
        (wmi_sessions_resume_all w x m)
unfolding wmi_sessions_resume_all
wmi_sessions_resume_all-Changes r w x m h = grind (arith, resume_all_loop-Changes r w x.head m h)
