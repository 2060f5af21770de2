-- ===== src/Wmi/Watch/Ledger.antt =====
-- What the functions of a session's watches acquire and give back.
use qubes_vmm_xen_win_pvdriv.Common.{
  All, List, Option, Bool-cases, inl, inr, [], ap, arith, false, if◌then◌else◌, none, some, total,
  total-append, true, ℕ, ◌&&◌, ◌==◌, ◌+◌, ◌∙◌, ◌∷◌, ◌≡◌, ◌++◌, refl, not, length, Bool, ◌≢◌,
}
use qubes_vmm_xen_win_pvdriv.Machine.{
  Changes, Goes, Goes-bind, Machine, NtStatus, Resource, nt_success, one, pool, store_watch,
  Reliable,
}
use qubes_vmm_xen_win_pvdriv.Wmi.Session.{
  UnicodeString, Wmi, XenStoreSession, XenStoreWatch, session_owned, watch_owned,
}
use qubes_vmm_xen_win_pvdriv.Wmi.Watch.{
  free_watches, session_add_watch_locked, session_remove_watch_locked,
  session_remove_watches_locked, start_watch, remove_watch_handle, watch_signalled,
  live_watch_signalled, renew_watch,
}

-- StartWatch of a watch without a handle: its handle, if it succeeds, and no other gain.
abbrev pub Started : Resource → Machine → NtStatus × Option ℕ → Machine → Type 0
Started r m (s, none) n = Changes r 0 0 m n × (nt_success s ≡ false)
Started r m (s, some h) n = Changes r (one r (store_watch h)) 0 m n × (nt_success s ≡ true)

pub start_watch-Started :
    (r : Resource) (w : Wmi) (address : ℕ) (path : UnicodeString) (m : Machine)
    → Goes (Started r m) (λ _ _. ⊥) (start_watch w address path none m)
unfolding start_watch
start_watch-Started r w address path m = ground arith

pub add_watch-Changes :
    (r : Resource) (w : Wmi) (s : XenStoreSession) (path : UnicodeString) (m : Machine)
    → Goes
        (λ q n.
          Changes r
            (session_owned r q.1)
            (session_owned r s + (if nt_success q.0 then one r (pool path.buffer) else 0))
            m
            n)
        (λ _ _. ⊥)
        (session_add_watch_locked w s path m)
unfolding session_add_watch_locked
add_watch-Changes r w s path m = ground arith

pub remove_watch-Changes :
    (r : Resource) (w : Wmi) (v : XenStoreWatch) (m : Machine)
    → Reliable w.kernel
    → Goes
        (λ v' n. Changes r (watch_owned r v') (watch_owned r v) m n)
        (λ _ _. ⊥)
        (session_remove_watch_locked w v m)
unfolding session_remove_watch_locked
remove_watch-Changes r w v m h = grind (arith, h.watch_removed)

abbrev pub NoHandle : XenStoreWatch → Type 0
NoHandle v = v.watchhandle ≡ none

abbrev pub HasHandle : XenStoreWatch → Type 0
HasHandle v = v.watchhandle ≢ none

pub remove_watch-NoHandle :
    (w : Wmi) (v : XenStoreWatch) (m : Machine)
    → Goes (λ v' n. NoHandle v') (λ _ _. ⊥) (session_remove_watch_locked w v m)
unfolding session_remove_watch_locked
remove_watch-NoHandle w v m = ground arith

pub remove_watches-Changes :
    (r : Resource) (w : Wmi) (vs : List XenStoreWatch) (m : Machine)
    → Reliable w.kernel
    → Goes
        (λ vs' n. Changes r (total (watch_owned r) vs') (total (watch_owned r) vs) m n)
        (λ _ _. ⊥)
        (session_remove_watches_locked w vs m)
unfolding session_remove_watches_locked
remove_watches-Changes r w [] m h = ground arith
remove_watches-Changes r w (v ∷ vs) m h =
    grind
      (arith, remove_watch-Changes r w v m h, λ (n : Machine). remove_watches-Changes r w vs n h)

pub free_watches-Changes :
    (r : Resource) (vs : List XenStoreWatch) (m : Machine)
    → All NoHandle vs
    → Goes (λ _ n. Changes r 0 (total (watch_owned r) vs) m n) (λ _ _. ⊥) (free_watches vs m)
unfolding free_watches
free_watches-Changes r [] m h = ground arith
free_watches-Changes r (v ∷ vs) m h =
    grind (arith, h.0, λ (n : Machine). free_watches-Changes r vs n h.1)

-- After SessionRemoveWatchesLocked no watch has a handle.
pub remove_watches-NoHandle :
    (w : Wmi) (vs : List XenStoreWatch) (m : Machine)
    → Goes
        (λ vs' n. All NoHandle vs' × (length vs' ≡ length vs))
        (λ _ _. ⊥)
        (session_remove_watches_locked w vs m)
unfolding session_remove_watches_locked
remove_watches-NoHandle w [] m = (tt, refl)
remove_watches-NoHandle w (v ∷ vs) m =
    grind (arith, remove_watch-NoHandle w v, remove_watches-NoHandle w vs)

pub renew_watch-Changes :
    (r : Resource) (w : Wmi) (count : ℕ) (v : XenStoreWatch) (m : Machine)
    → Reliable w.kernel
    → HasHandle v
    → Goes
        (λ v' n. Changes r (watch_owned r v') (watch_owned r v) m n)
        (λ _ _. ⊥)
        (renew_watch w count v m)
unfolding renew_watch remove_watch_handle
renew_watch-Changes r w count v m h held =
    grind (arith, held, h.watch_removed, start_watch-Started r w v.address v.path)

pub awake : (b c : Bool) → (not b && c) ≡ true → b ≡ false
awake true c e = cc
awake false c e = refl

module _ (r : Resource) (w : Wmi) (s : XenStoreSession) (before : List XenStoreWatch)
    (v : XenStoreWatch) (after : List XenStoreWatch) (m : Machine) (h : Reliable w.kernel)
    (split : s.watches ≡ before ++ v ∷ after) (unheld : v.finished ≡ true → NoHandle v)
    (held : v.finished ≡ false → s.suspended ≡ false → HasHandle v) where
  owned_before :
      total (watch_owned r) s.watches
      ≡ total (watch_owned r) before + (watch_owned r v + total (watch_owned r) after)
  owned_before = ap (total (watch_owned r)) split ∙ total-append (watch_owned r) before (v ∷ after)

  live_watch_signalled-Changes :
      v.finished ≡ false
      → Goes
          (λ s' n. Changes r (session_owned r s') (session_owned r s) m n)
          (λ _ _. ⊥)
          (live_watch_signalled w s before v after m)
  unfolding live_watch_signalled
  live_watch_signalled-Changes live =
      let count = w.kernel.suspend_count m.trace in
      elim (Bool-cases (not s.suspended && not (v.suspendcount == count))) [
        | inl e ↦ rw e (
            Goes-bind (λ v' n. Changes r (watch_owned r v') (watch_owned r v) m n) (λ _ _. ⊥)
              (λ _ _. ⊥) _ (renew_watch w count v m) _
              (renew_watch-Changes r w count v m h (held live (awake s.suspended _ e))) (λ _ _ z. z)
              (λ v' n c. (
                c.0,
                omega (arith, c.1, owned_before, total-append (watch_owned r) before (v' ∷ after)),
              )))
        | inr e ↦ rw e (ground arith)
      ]

  -- Where XENBUS removes watches when asked, a finished watch has no handle, and a watch that is not
  -- finished has one unless the session is suspended: when the thread
  -- of a session finds one of its watches signalled, it ends the round with every resource
  -- accounted for, on each of its three branches: it frees a finished watch, sets a watch anew
  -- after a suspend, and otherwise fires the event.
  pub watch_signalled-Changes :
      Goes
        (λ s' n. Changes r (session_owned r s') (session_owned r s) m n)
        (λ _ _. ⊥)
        (watch_signalled w s before v after m)
  unfolding watch_signalled
  watch_signalled-Changes = elim (Bool-cases v.finished) [
    | inl e ↦
        rw e (ground (arith, owned_before, unheld e, total-append (watch_owned r) before after))
    | inr e ↦ ground (arith, e, live_watch_signalled-Changes e)
  ]
