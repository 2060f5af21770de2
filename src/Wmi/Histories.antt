-- ===== src/Wmi/Histories.antt =====
-- Histories of the sessions of src/xeniface/wmi.c: methods, signalled watches, suspends, resumes
-- and the removal of all sessions, one after the other.
use qubes_vmm_xen_win_pvdriv.Common.{
  All, List, [], ap, arith, false, inl, inr, length, refl, subst, sym, true, ◌++◌, ◌+◌, ◌<◌, ◌∷◌,
  ◌≡◌,
}
use qubes_vmm_xen_win_pvdriv.Machine.{
  Fdo, Goes, Goes-and, Machine, Resource, Run, assertion_failure, exit, ok, undefined, acquired,
  released,
}
use qubes_vmm_xen_win_pvdriv.Wmi.Session.{
  Sessions, Wmi, XenStoreSession, XenStoreWatch, session_owned, sessions_owned,
}
use qubes_vmm_xen_win_pvdriv.Wmi.Watch.{watch_signalled}
use qubes_vmm_xen_win_pvdriv.Wmi.Watch.Ledger.{HasHandle, NoHandle, watch_signalled-Changes}
use qubes_vmm_xen_win_pvdriv.Wmi.Sessions.{
  sessions_remove_all, wmi_sessions_resume_all, wmi_sessions_suspend_all,
}
use qubes_vmm_xen_win_pvdriv.Wmi.Sessions.Ledger.{sessions_remove_all-Changes}
use qubes_vmm_xen_win_pvdriv.Wmi.Sessions.Suspension.{
  wmi_sessions_resume_all-Changes, wmi_sessions_suspend_all-Changes,
}
use qubes_vmm_xen_win_pvdriv.Wmi.Create.{max_sessions}
use qubes_vmm_xen_win_pvdriv.Wmi.Soundness.{
  sound_sessions-IsCountedSession, wmi_sessions_resume_all-IsSound, suspended-IsSound,
  watch_signalled-IsSound,
}
use qubes_vmm_xen_win_pvdriv.Wmi.Methods.Ledger.{
  All-append, All-split, IsSound, IsSoundWatch, Kept, total-split,
}
use qubes_vmm_xen_win_pvdriv.Wmi.Methods.Sound.{
  HasText, IsDocumentedWmi, Method, NoThreadHandle, execute, execute-Kept,
}

-- The sessions and the machine after a command.
abbrev pub Leaves : {A : Type 0} → (A → Sessions) → Run A → Sessions → Machine → Type 0
Leaves {A} f r y n = Goes (λ a o. (f a ≡ y) × (o ≡ n)) (λ _ _. ⊥) r

-- A step: the sessions and the machine before, and after.
pub data SessionStep (w : Wmi) : Sessions → Machine → Sessions → Machine → Type 0 where
  method :
      {x y : Sessions} {m n : Machine} (c : Method)
      → length x.head < max_sessions
      → HasText c
      → Leaves (λ q. q.1) (execute w c x m) y n
      → SessionStep w x m y n
  -- a watch of the session `s` is signalled
  signalled :
      {x y : Sessions} {m n : Machine} (b : List XenStoreSession) (s : XenStoreSession)
      (a : List XenStoreSession) (before : List XenStoreWatch) (v : XenStoreWatch)
      (after : List XenStoreWatch)
      → x.head ≡ b ++ s ∷ a
      → s.watches ≡ before ++ v ∷ after
      → (v.finished ≡ false → s.suspended ≡ false → HasHandle v)
      → Leaves (λ s'. record x { head = b ++ s' ∷ a }) (watch_signalled w s before v after m) y n
      → SessionStep w x m y n
  suspend :
      {x y : Sessions} {m n : Machine}
      → All (λ s. All HasHandle s.watches) x.head
      → Leaves (λ z. z) (wmi_sessions_suspend_all w x m) y n
      → SessionStep w x m y n
  resume :
      {x y : Sessions} {m n : Machine}
      → All (λ s. All NoHandle s.watches) x.head
      → Leaves (λ z. z) (wmi_sessions_resume_all w x m) y n
      → SessionStep w x m y n
  remove_all :
      {x y : Sessions} {m n : Machine}
      → Leaves (λ z. z) (sessions_remove_all w x m) y n
      → SessionStep w x m y n
  -- the device has changed its power state, or served other requests, which leave the resources
  -- of the sessions alone
  power : {x : Sessions} {m : Machine} (fdo : Fdo) → SessionStep w x m x (record m { fdo = fdo })

pub data SessionReach (w : Wmi) (m : Machine) : Sessions → Machine → Type 0 where
  no_session : SessionReach w m (record { count = 0; head = [] }) m
  one_more :
      {x y : Sessions} {n o : Machine}
      → SessionReach w m x n
      → SessionStep w x n y o
      → SessionReach w m y o

-- What every step keeps.
abbrev pub Sound : Resource → Sessions → Machine → Sessions → Machine → Type 0
Sound r x m y n =
    (acquired r n.trace + released r m.trace + sessions_owned r x.head
      ≡ acquired r m.trace + released r n.trace + sessions_owned r y.head)
    × All IsSound y.head

leaves_lem :
    {A : Type 0} (r : Resource) (x : Sessions) (m : Machine) (f : A → Sessions)
    (Q : A → Machine → Type 0) (c : Run A) (y : Sessions) (n : Machine)
    → Goes Q (λ _ _. ⊥) c
    → Leaves f c y n
    → ((a : A) (o : Machine) → Q a o → Sound r x m (f a) o)
    → Sound r x m y n
leaves_lem r x m f Q (ok a o) y n g l keeps =
    subst (λ z. Sound r x m z n) l.0 (subst (λ z. Sound r x m (f a) z) l.1 (keeps a o g))
leaves_lem r x m f Q (exit a o) y n g l keeps = elim g [ ]
leaves_lem r x m f Q assertion_failure y n g l keeps = elim g [ ]
leaves_lem r x m f Q undefined y n g l keeps = elim g [ ]

finished-NoHandle : (v : XenStoreWatch) → IsSoundWatch v → v.finished ≡ true → NoHandle v
finished-NoHandle v (inl live) e = cc
finished-NoHandle v (inr unheld) e = unheld

SessionStep-Sound :
    (r : Resource) (other : NoThreadHandle r) (w : Wmi) (h : IsDocumentedWmi w) {x y : Sessions}
    {m n : Machine}
    → All IsSound x.head
    → SessionStep w x m y n
    → Sound r x m y n
SessionStep-Sound r other w h sound (method {x} {y} {m} {n} c few text l) =
    leaves_lem r x m _ (Kept r x m) (execute w c x m) y n
      (execute-Kept r other w x h sound c m few text) l (λ q o k. (omega (arith, k.0.1), k.1))
SessionStep-Sound r other w h sound
      (signalled {x} {y} {m} {n} b s a before v after split watches held l) =
    let (b', here, a') = All-split IsSound b s a (subst (All IsSound) split sound) in
    let (_, sound_watch, _) =
      All-split IsSoundWatch before v after (subst (All IsSoundWatch) watches here.1) in
    leaves_lem r x m _ _ (watch_signalled w s before v after m) y n
      (Goes-and _ _ (watch_signalled w s before v after m)
        (watch_signalled-Changes r w s before v after m h.takes_back.reliable watches
          (finished-NoHandle v sound_watch) held)
        (watch_signalled-IsSound w s before v after m watches here held))
      l
      (λ s' o k. (
        omega (
          arith,
          k.0.1,
          total-split (session_owned r) b s' a,
          total-split (session_owned r) b s a,
          ap (sessions_owned r) split,
        ),
        All-append IsSound b (s' ∷ a) b' (k.1, a'),
      ))
SessionStep-Sound r other w h sound (suspend {x} {y} {m} {n} held l) =
    leaves_lem r x m _ _ (wmi_sessions_suspend_all w x m) y n
      (wmi_sessions_suspend_all-Changes r w x m h.takes_back held) l
      (λ z o k. (omega (arith, k.0.1), suspended-IsSound x.head z.head sound k.2 k.1))
SessionStep-Sound r other w h sound (resume {x} {y} {m} {n} unheld l) =
    leaves_lem r x m _ _ (wmi_sessions_resume_all w x m) y n
      (Goes-and _ _ (wmi_sessions_resume_all w x m) (wmi_sessions_resume_all-Changes r w x m unheld)
        (wmi_sessions_resume_all-IsSound w x m unheld sound))
      l (λ z o k. (omega (arith, k.0.0.1), k.1))
SessionStep-Sound r other w h sound (remove_all {x} {y} {m} {n} l) =
    leaves_lem r x m _ _ (sessions_remove_all w x m) y n
      (sessions_remove_all-Changes r w x m h.takes_back
        (sound_sessions-IsCountedSession x.head sound))
      l
      (λ z o k. (omega (arith, k.0.1, ap (sessions_owned r) k.1), subst (All IsSound) (sym k.1) tt))
SessionStep-Sound r other w h sound (power {x} {m} fdo) = (refl, sound)

SessionReach-Sound :
    (r : Resource) (other : NoThreadHandle r) (w : Wmi) (m : Machine) (x : Sessions) (n : Machine)
    → IsDocumentedWmi w
    → SessionReach w m x n
    → Sound r (record { count = 0; head = [] }) m x n
SessionReach-Sound r other w m x n h no_session = (refl, tt)
SessionReach-Sound r other w m x n h (one_more {x = y} {n = o} reach step) =
    let a = SessionReach-Sound r other w m y o h reach in
    let b = SessionStep-Sound r other w h a.1 step in (omega (arith, a.0, b.0), b.1)

-- Where XENBUS takes watches and transactions back when asked, PsCreateSystemThread succeeds,
-- instance names with different numbers differ, and the size of none wraps to 0: after any
-- history, from no session on, of the methods AddSession, EndSession, SetWatch, RemoveWatch,
-- StartTransaction, CommitTransaction and AbortTransaction with fewer than 65536 sessions and
-- names and paths that are not empty, of watches signalled while they have a handle, are finished
-- or their session is suspended, of suspends where every watch has a handle, of resumes where
-- none has, and of removals of all sessions, each resource but the handles of the threads, which
-- no code closes, was handed out exactly as often as it was given back, plus once for each time
-- that a session owns it. And each session counts its watches, of which a finished one has no
-- handle.
pub SessionReach-accounts :
    (r : Resource) (other : NoThreadHandle r) (w : Wmi) (fdo : Fdo) (x : Sessions) (n : Machine)
    → IsDocumentedWmi w
    → SessionReach w (record { fdo = fdo; trace = [] }) x n
    → (acquired r n.trace ≡ released r n.trace + sessions_owned r x.head) × All IsSound x.head
SessionReach-accounts r other w fdo x n h reach =
    let a = SessionReach-Sound r other w (record { fdo = fdo; trace = [] }) x n h reach in
    (omega (arith, a.0), a.1)
