-- ===== src/Wmi/Methods/Ledger.antt =====
-- What the parts of the methods of a session (src/xeniface/wmi.c) acquire and give back.
use qubes_vmm_xen_win_pvdriv.Common.{
  All, Bool, List, Option, [], ap, arith, false, if◌then◌else◌, inr, length, none, refl, some,
  subst, total, total-append, true, ℕ, ◌++◌, ◌+◌, ◌∷◌, ◌≡◌, ◌≤◌, ◌⊎◌,
}
use qubes_vmm_xen_win_pvdriv.Machine.{
  Answer, Changes, Cmd, Goes, Goes-bind, Machine, NtStatus, Resource, nt_success, one, pool, pure,
  Goes-and, status_insufficient_resources,
}
use qubes_vmm_xen_win_pvdriv.Wmi.Session.{
  Found, Sessions, UnicodeString, Wmi, XenStoreSession, XenStoreWatch,
  find_session_by_instance_locked, session_owned, sessions_owned, watch_owned,
}
use qubes_vmm_xen_win_pvdriv.Wmi.Session.Finding.{Splits, find_by_instance-Splits}
use qubes_vmm_xen_win_pvdriv.Wmi.Watch.{session_add_watch_locked, session_remove_watch_locked}
use qubes_vmm_xen_win_pvdriv.Wmi.Watch.Ledger.{
  NoHandle, remove_watch-NoHandle, remove_watch-Changes,
}
use qubes_vmm_xen_win_pvdriv.Wmi.Sessions.Ledger.{
  IsCountedSession, TakesBack, end_transaction-Changes, remove_session-Changes,
}
use qubes_vmm_xen_win_pvdriv.Wmi.Create.{allocate_or_null}
use qubes_vmm_xen_win_pvdriv.Wmi.Methods.{
  clone_string, at_session, end_found, finish_transaction, if_acquired, remove_found,
  start_transaction, with_session,
}

-- A finished watch has no handle.
abbrev pub IsSoundWatch : XenStoreWatch → Type 0
IsSoundWatch v = (v.finished ≡ false) ⊎ NoHandle v

abbrev pub IsSound : XenStoreSession → Type 0
IsSound s = IsCountedSession s × All IsSoundWatch s.watches

-- Of one session, and of all.
abbrev pub SessionKept :
    Resource → XenStoreSession → Machine → NtStatus × XenStoreSession → Machine → Type 0
SessionKept r s m q n = Changes r (session_owned r q.1) (session_owned r s) m n × IsSound q.1

abbrev pub Kept : Resource → Sessions → Machine → NtStatus × Sessions → Machine → Type 0
Kept r x m q n =
    Changes r (sessions_owned r q.1.head) (sessions_owned r x.head) m n × All IsSound q.1.head

module _ {A : Type 0} (P : A → Type 0) where
  pub All-append : (b a : List A) → All P b → All P a → All P (b ++ a)
  All-append [] a h k = k
  All-append (x ∷ b) a h k = (h.0, All-append b a h.1 k)

  pub All-split : (b : List A) (x : A) (a : List A) → All P (b ++ x ∷ a) → All P b × P x × All P a
  All-split [] x a h = (tt, h.0, h.1)
  All-split (y ∷ b) x a h =
      let (before, here, after) = All-split b x a h.1 in ((h.0, before), here, after)

module _ {A : Type 0} (f : A → ℕ) where
  pub total-split :
      (b : List A) (x : A) (a : List A) → total f (b ++ x ∷ a) ≡ total f b + (f x + total f a)
  total-split b x a = total-append f b (x ∷ a)

pub length-split :
    {A : Type 0} (b : List A) (x : A) (a : List A) → length (b ++ x ∷ a) ≡ length (b ++ a) + 1
length-split [] x a = omega arith
length-split (y ∷ b) x a = omega (arith, length-split b x a)

pub length-replace :
    {A : Type 0} (b : List A) (x y : A) (a : List A) → length (b ++ x ∷ a) ≡ length (b ++ y ∷ a)
length-replace b x y a = omega (arith, length-split b x a, length-split b y a)

module _ (r : Resource) (x : Sessions) (sound : All IsSound x.head) where
  pub at_session-Kept :
      (f : XenStoreSession → Cmd (NtStatus × XenStoreSession)) (q : Found XenStoreSession)
      (m : Machine)
      → Splits x.head q
      → ((s : XenStoreSession) (m : Machine)
          → IsSound s
          → Goes (SessionKept r s m) (λ _ _. ⊥) (f s m))
      → Goes (Kept r x m) (λ _ _. ⊥) (at_session x f q m)
  unfolding at_session
  at_session-Kept f none m split keeps = ((refl, omega arith), sound)
  at_session-Kept f (some (b, s, a)) m split keeps =
      let (before, here, after) = All-split IsSound b s a (subst (All IsSound) split sound) in
      Goes-bind (SessionKept r s m) (λ _ _. ⊥) (λ _ _. ⊥) (Kept r x m) (f s m) _ (keeps s m here)
        (λ _ _ z. z)
        (λ q n h. (
          (
            h.0.0,
            omega (
              arith,
              h.0.1,
              total-split (session_owned r) b q.1 a,
              total-split (session_owned r) b s a,
              ap (sessions_owned r) split,
            ),
          ),
          All-append IsSound b (q.1 ∷ a) before (h.1, after),
        ))

  pub with_session-Kept :
      (name : List ℕ) (f : XenStoreSession → Cmd (NtStatus × XenStoreSession)) (m : Machine)
      → ((s : XenStoreSession) (m : Machine)
          → IsSound s
          → Goes (SessionKept r s m) (λ _ _. ⊥) (f s m))
      → Goes (Kept r x m) (λ _ _. ⊥) (with_session name x f m)
  unfolding with_session
  with_session-Kept name f m keeps =
      at_session-Kept f (find_session_by_instance_locked name x.head) m
        (find_by_instance-Splits name x.head) keeps

  pub tested-Kept :
      (b : Bool) (f : Cmd (NtStatus × Sessions)) (m : Machine)
      → Goes (Kept r x m) (λ _ _. ⊥) (f m)
      → Goes (Kept r x m) (λ _ _. ⊥) ((if b then f else pure (status_insufficient_resources, x)) m)
  tested-Kept true f m h = h
  tested-Kept false f m h = ((refl, omega arith), sound)

  pub if_acquired-Kept :
      (f : Cmd (NtStatus × Sessions)) (m : Machine)
      → Goes (Kept r x m) (λ _ _. ⊥) (f m)
      → Goes (Kept r x m) (λ _ _. ⊥) (if_acquired x f m)
  unfolding if_acquired
  if_acquired-Kept f m h = tested-Kept m.fdo.interfaces_acquired f m h

pub start_transaction-Kept :
    (r : Resource) (w : Wmi) (s : XenStoreSession) (m : Machine)
    → IsSound s
    → Goes (SessionKept r s m) (λ _ _. ⊥) (start_transaction w s m)
unfolding start_transaction
start_transaction-Kept r w s m h = ground (arith, h)

pub finish_transaction-Kept :
    (r : Resource) (w : Wmi) (commit : Bool) (s : XenStoreSession) (m : Machine)
    → TakesBack w
    → IsSound s
    → Goes (SessionKept r s m) (λ _ _. ⊥) (finish_transaction w commit s m)
unfolding finish_transaction
finish_transaction-Kept r w commit s m h sound =
    grind (arith, sound, λ (x : Option ℕ). end_transaction-Changes r w x commit m h)

pub remove_found-Kept :
    (r : Resource) (w : Wmi) (s : XenStoreSession) (q : Found XenStoreWatch) (m : Machine)
    → TakesBack w
    → IsSound s
    → Splits s.watches q
    → Goes (SessionKept r s m) (λ _ _. ⊥) (remove_found w s q m)
unfolding remove_found
remove_found-Kept r w s none m h sound split = ((refl, omega arith), sound)
remove_found-Kept r w s (some (b, v, a)) m h sound split =
    let (before, here, after) =
      All-split IsSoundWatch b v a (subst (All IsSoundWatch) split sound.1) in
    Goes-bind (λ v' n. Changes r (watch_owned r v') (watch_owned r v) m n × NoHandle v') (λ _ _. ⊥)
      (λ _ _. ⊥) (SessionKept r s m) (session_remove_watch_locked w v m) _
      (Goes-and _ _ (session_remove_watch_locked w v m) (remove_watch-Changes r w v m h.reliable)
        (remove_watch-NoHandle w v m))
      (λ _ _ z. z)
      (λ v' n k. (
        (
          k.0.0,
          omega (
            arith,
            k.0.1,
            total-split (watch_owned r) b v' a,
            total-split (watch_owned r) b v a,
            ap (total (watch_owned r)) split,
          ),
        ),
        (
          omega (arith, sound.0, ap length split, length-replace b v v' a),
          All-append IsSoundWatch b (v' ∷ a) before (inr k.1, after),
        ),
      ))

-- RemoveSessionLocked, of a session that has been found.
pub end_found-Kept :
    (r : Resource) (w : Wmi) (x : Sessions) (q : Found XenStoreSession) (m : Machine)
    → TakesBack w
    → All IsSound x.head
    → Splits x.head q
    → Goes (Kept r x m) (λ _ _. ⊥) (end_found w x q m)
unfolding end_found
end_found-Kept r w x none m h sound split = ((refl, omega arith), sound)
end_found-Kept r w x (some (b, s, a)) m h sound split =
    let (before, here, after) = All-split IsSound b s a (subst (All IsSound) split sound) in
    Goes-bind (λ _ n. Changes r 0 (session_owned r s) m n) (λ _ _. ⊥) (λ _ _. ⊥) (Kept r x m) _ _
      (remove_session-Changes r w s m h here.0) (λ _ _ z. z)
      (λ _ n k. (
        (
          k.0,
          omega (
            arith,
            k.1,
            total-append (session_owned r) b a,
            total-split (session_owned r) b s a,
            ap (sessions_owned r) split,
          ),
        ),
        All-append IsSound b a before after,
      ))

pub add_watch-IsSound :
    (w : Wmi) (s : XenStoreSession) (path : UnicodeString) (m : Machine)
    → IsSound s
    → Goes (λ q n. IsSound q.1) (λ _ _. ⊥) (session_add_watch_locked w s path m)
unfolding session_add_watch_locked
add_watch-IsSound w s path m h = ground (arith, h)

-- What is held for the copy of a string.
abbrev pub Cloned : Resource → Machine → Answer UnicodeString → Machine → Type 0
Cloned r m a n = Changes r (if nt_success a.status then one r (pool a.out.buffer) else 0) 0 m n

pub clone_string-Cloned :
    (r : Resource) (w : Wmi) (size : ℕ) (text : List ℕ) (copied : NtStatus) (m : Machine)
    → 2 ≤ size
    → Goes (Cloned r m) (λ _ _. ⊥) (clone_string w size text copied m)
unfolding clone_string allocate_or_null
clone_string-Cloned r w size text copied m h = ground arith
