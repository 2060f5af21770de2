-- ===== src/Wmi/Methods/Sound.antt =====
-- On all the methods that change a session in src/xeniface/wmi.c.
use qubes_vmm_xen_win_pvdriv.Common.{
  All, Bool, Bool-cases, List, Option, [], ap, arith, false, if◌then◌else◌, inl, inr, length, none,
  refl, some, subst, sym, true, ℕ, ◌*◌, ◌+◌, ◌<◌, ◌≤◌, ◌≡◌, ◌∙◌, ◌∷◌,
}
use qubes_vmm_xen_win_pvdriv.Machine.{
  Answer, Changes, Cmd, Goes, Goes-and, Goes-bind, Machine, NtStatus, Resource, nt_success, one,
  pool, thread_handle,
}
use qubes_vmm_xen_win_pvdriv.Wmi.Session.{
  Found, Sessions, UnicodeString, Wmi, XenStoreSession, find_session_by_instance_locked,
  session_find_watch_locked, session_owned, sessions_owned,
}
use qubes_vmm_xen_win_pvdriv.Wmi.Session.Finding.{
  Splits, find_by_instance-Splits, find_watch-Splits,
}
use qubes_vmm_xen_win_pvdriv.Wmi.Watch.{session_add_watch_locked}
use qubes_vmm_xen_win_pvdriv.Wmi.Watch.Ledger.{add_watch-Changes}
use qubes_vmm_xen_win_pvdriv.Wmi.Sessions.Ledger.{TakesBack}
use qubes_vmm_xen_win_pvdriv.Wmi.Create.{create_new_session, max_sessions}
use qubes_vmm_xen_win_pvdriv.Wmi.Create.Names.{NamesDiffer}
use qubes_vmm_xen_win_pvdriv.Wmi.Create.Creation.{
  Begins, Created, ThreadsStart, create_new_session-Created,
}
use qubes_vmm_xen_win_pvdriv.Wmi.Methods.{
  InBuffer, add_session_at, created_or_freed, remove_watch_at, set_watch_at, with_session,
  add_session, base_execute_add_session, clone_unicode_string, finish_transaction,
  get_counted_unicode_string, one_string, remove_watch_of, session_execute_abort_transaction,
  session_execute_commit_transaction, session_execute_end_session, session_execute_remove_watch,
  session_execute_set_watch, session_execute_start_transaction, set_watch, set_watch_of,
  start_transaction,
}
use qubes_vmm_xen_win_pvdriv.Wmi.Methods.Ledger.{
  All-append, All-split, Cloned, IsSound, IsSoundWatch, Kept, add_watch-IsSound,
  clone_string-Cloned, end_found-Kept, finish_transaction-Kept, if_acquired-Kept, remove_found-Kept,
  start_transaction-Kept, total-split, with_session-Kept,
}

-- A request for one of the methods.
pub data Method : Type 0 where
  add_session_to : InBuffer → (out_buffer out_size : ℕ) → Method
  start_transaction_in commit_transaction_in abort_transaction_in end_session_of : List ℕ → Method
  set_watch_in remove_watch_in : InBuffer → List ℕ → Method

unfoldable pub execute : Wmi → Method → Sessions → Cmd (NtStatus × Sessions)
execute w (add_session_to b p size) x = base_execute_add_session w b p size x
execute w (start_transaction_in name) x = session_execute_start_transaction w name x
execute w (commit_transaction_in name) x = session_execute_commit_transaction w name x
execute w (abort_transaction_in name) x = session_execute_abort_transaction w name x
execute w (end_session_of name) x = session_execute_end_session w name x
execute w (set_watch_in b name) x = session_execute_set_watch w b name x
execute w (remove_watch_in b name) x = session_execute_remove_watch w b name x

-- What the methods rely on.
pub record IsDocumentedWmi (w : Wmi) : Type 0 where
  pub takes_back : TakesBack w
  pub threads : ThreadsStart w
  pub names : NamesDiffer w

-- A string that is found has at least a unit.
abbrev HasUnit : (size : ℕ → ℕ) → Option ℕ → Type 0
HasUnit size none = Unit
HasUnit size (some p) = 2 ≤ size p

-- The name of a new session and the path of a new watch are not empty.
abbrev pub HasText : Method → Type 0
HasText (add_session_to b _ _) = HasUnit b.word (one_string b)
HasText (set_watch_in b _) =
    HasUnit (λ p. 2 * length (get_counted_unicode_string b p).text) (one_string b)
HasText _ = Unit

-- No handle of a thread.
abbrev pub NoThreadHandle : Resource → Type 0
NoThreadHandle r = (handle : ℕ) → one r (thread_handle handle) ≡ 0

module _ (r : Resource) (other : NoThreadHandle r) (w : Wmi) (x : Sessions) (h : IsDocumentedWmi w)
    (sound : All IsSound x.head) where
  set_watch_of-Kept :
      (path : UnicodeString) (q : Found XenStoreSession) (m n : Machine)
      → Splits x.head q
      → Changes r (one r (pool path.buffer)) 0 m n
      → Goes (Kept r x m) (λ _ _. ⊥) (set_watch_of w path q x n)
  unfolding set_watch_of
  set_watch_of-Kept path none m n split c = ((c.0, omega (arith, c.1)), sound)
  set_watch_of-Kept path (some (b, s, a)) m n split c =
      let (before, here, after) = All-split IsSound b s a (subst (All IsSound) split sound) in
      Goes-bind
        (λ q o.
          Changes r (session_owned r q.1)
            (session_owned r s + (if nt_success q.0 then one r (pool path.buffer) else 0)) n o
          × IsSound q.1)
        (λ _ _. ⊥) (λ _ _. ⊥) (Kept r x m) (session_add_watch_locked w s path n) _
        (Goes-and _ _ (session_add_watch_locked w s path n) (add_watch-Changes r w s path n)
          (add_watch-IsSound w s path n here))
        (λ _ _ z. z)
        (λ q o k.
          let all = All-append IsSound b (q.1 ∷ a) before (k.1, after) in
          let after_sum = total-split (session_owned r) b q.1 a in
          let before_sum = total-split (session_owned r) b s a in
          let sum = ap (sessions_owned r) split in
          elim (Bool-cases (nt_success q.0)) [
            | inl e ↦
                rw e ((k.0.0 ∙ c.0, ground (arith, e, k.0.1, c.1, after_sum, before_sum, sum)), all)
            | inr e ↦
                rw e ((k.0.0 ∙ c.0, ground (arith, e, k.0.1, c.1, after_sum, before_sum, sum)), all)
          ])

  set_watch-Kept :
      (a : Answer UnicodeString) (name : List ℕ) (m n : Machine)
      → Cloned r m a n
      → Goes (Kept r x m) (λ _ _. ⊥) (set_watch w a name x n)
  unfolding set_watch
  set_watch-Kept a name m n c = elim (Bool-cases (nt_success a.status)) [
    | inl e ↦ rw e (
        set_watch_of-Kept a.out (find_session_by_instance_locked name x.head) m n
          (find_by_instance-Splits name x.head) (c.0, ground (arith, e, c.1)))
    | inr e ↦ rw e ((c.0, ground (arith, e, c.1)), sound)
  ]

  set_watch_at-Kept :
      (b : InBuffer) (name : List ℕ) (q : Option ℕ) (m : Machine)
      → HasUnit (λ p. 2 * length (get_counted_unicode_string b p).text) q
      → Goes (Kept r x m) (λ _ _. ⊥) (set_watch_at w b name x q m)
  unfolding set_watch_at clone_unicode_string
  set_watch_at-Kept b name none m u = ((refl, omega arith), sound)
  set_watch_at-Kept b name (some p) m u =
      Goes-bind (Cloned r m) (λ _ _. ⊥) (λ _ _. ⊥) (Kept r x m) _ _
        (clone_string-Cloned r w _ _ _ m u) (λ _ _ z. z) (λ a n c. set_watch-Kept a name m n c)

  remove_watch_at-Kept :
      (b : InBuffer) (name : List ℕ) (q : Option ℕ) (m : Machine)
      → Goes (Kept r x m) (λ _ _. ⊥) (remove_watch_at w b name x q m)
  unfolding remove_watch_at remove_watch_of
  remove_watch_at-Kept b name none m = ((refl, omega arith), sound)
  remove_watch_at-Kept b name (some p) m =
      let path = get_counted_unicode_string b p in
      with_session-Kept r x sound name (remove_watch_of w path) m (λ s n k.
        remove_found-Kept r w s (session_find_watch_locked path.text s.watches) n h.takes_back k
          (find_watch-Splits path.text s.watches))

  transaction-Kept :
      (commit : Bool) (name : List ℕ) (m : Machine)
      → Goes (Kept r x m) (λ _ _. ⊥) (with_session name x (finish_transaction w commit) m)
  transaction-Kept commit name m =
      with_session-Kept r x sound name (finish_transaction w commit) m
        (λ s n k. finish_transaction-Kept r w commit s n h.takes_back k)

  Begins-IsSound :
      (stringid : UnicodeString) (ss : List XenStoreSession)
      → Begins stringid ss x.head
      → All IsSound ss
  Begins-IsSound stringid [] b = elim b [ ]
  Begins-IsSound stringid (s ∷ ss) b = (
    (b.6 ∙ sym (ap length b.4), subst (All IsSoundWatch) (sym b.4) tt),
    subst (All IsSound) (sym b.0) sound,
  )

  created_or_freed-Kept :
      (name : UnicodeString) (m n : Machine) (q : NtStatus × Sessions) (o : Machine)
      → Changes r (one r (pool name.buffer)) 0 m n
      → Created r x name n q o
      → Goes (Kept r x m) (λ _ _. ⊥) (created_or_freed name q o)
  unfolding created_or_freed
  created_or_freed-Kept name m n q o c (inl (failed, same, k)) = rw failed (
    (k.0 ∙ c.0, omega (arith, k.1, c.1, ap (λ y. sessions_owned r y.head) same)),
    subst (λ y. All IsSound y.head) (sym same) sound,
  )
  created_or_freed-Kept name m n q o c (inr (made, begins, handle, k)) =
      rw made
        ((k.0 ∙ c.0, omega (arith, k.1, c.1, other handle)), Begins-IsSound name q.1.head begins)

  add_session-Kept :
      (a : Answer UnicodeString) (m n : Machine)
      → length x.head < max_sessions
      → Cloned r m a n
      → Goes (Kept r x m) (λ _ _. ⊥) (add_session w a x n)
  unfolding add_session
  add_session-Kept a m n few c = elim (Bool-cases (nt_success a.status)) [
    | inl e ↦ rw e (
        Goes-bind (Created r x a.out n) (λ _ _. ⊥) (λ _ _. ⊥) (Kept r x m)
          (create_new_session w x a.out n) (created_or_freed a.out)
          (create_new_session-Created r w x a.out h.threads few h.names n) (λ _ _ z. z)
          (λ q o k. created_or_freed-Kept a.out m n q o (c.0, ground (arith, e, c.1)) k))
    | inr e ↦ rw e ((c.0, ground (arith, e, c.1)), sound)
  ]

  add_session_at-Kept :
      (b : InBuffer) (out_fits : Bool) (q : Option ℕ) (m : Machine)
      → length x.head < max_sessions
      → HasUnit b.word q
      → Goes (Kept r x m) (λ _ _. ⊥) (add_session_at w b out_fits x q m)
  unfolding add_session_at
  add_session_at-Kept b out_fits none m few u = ((refl, omega arith), sound)
  add_session_at-Kept b false (some p) m few u = ((refl, omega arith), sound)
  add_session_at-Kept b true (some p) m few u =
      Goes-bind (Cloned r m) (λ _ _. ⊥) (λ _ _. ⊥) (Kept r x m) _ _
        (clone_string-Cloned r w _ _ _ m u) (λ _ _ z. z) (λ a n c. add_session-Kept a m n few c)

  pub execute-Kept :
      (method : Method) (m : Machine)
      → length x.head < max_sessions
      → HasText method
      → Goes (Kept r x m) (λ _ _. ⊥) (execute w method x m)
  unfolding execute session_execute_remove_watch session_execute_set_watch base_execute_add_session
      session_execute_start_transaction session_execute_commit_transaction
      session_execute_abort_transaction session_execute_end_session
  execute-Kept (add_session_to b p size) m few u = add_session_at-Kept b _ (one_string b) m few u
  execute-Kept (start_transaction_in name) m few u = if_acquired-Kept r x sound _ m (
      with_session-Kept r x sound name (start_transaction w) m
        (λ s n k. start_transaction-Kept r w s n k))
  execute-Kept (commit_transaction_in name) m few u =
      if_acquired-Kept r x sound _ m (transaction-Kept true name m)
  execute-Kept (abort_transaction_in name) m few u =
      if_acquired-Kept r x sound _ m (transaction-Kept false name m)
  execute-Kept (end_session_of name) m few u =
      end_found-Kept r w x (find_session_by_instance_locked name x.head) m h.takes_back sound
        (find_by_instance-Splits name x.head)
  execute-Kept (set_watch_in b name) m few u = set_watch_at-Kept b name (one_string b) m u
  execute-Kept (remove_watch_in b name) m few u = remove_watch_at-Kept b name (one_string b) m
