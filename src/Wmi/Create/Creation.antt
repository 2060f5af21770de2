-- ===== src/Wmi/Create/Creation.antt =====
-- On CreateNewSession of src/xeniface/wmi.c, from the allocation to the thread.
use qubes_vmm_xen_win_pvdriv.Common.{
  Bool, Bool-cases, List, Option-cases, [], arith, false, inl, inr, length, none, refl, true, ℕ,
  ◌+◌, ◌<◌, ◌==◌, ◌∙◌, ◌∷◌, ◌≡◌, ◌⊎◌,
}
use qubes_vmm_xen_win_pvdriv.Machine.{
  acquire, Answer, Changes, Goes, Goes-bind, Machine, NtStatus, Resource, Trace, nt_success, one,
  pool, release, thread_handle, ◌>>=◌,
}
use qubes_vmm_xen_win_pvdriv.Wmi.Session.{
  Sessions, UnicodeString, Wmi, XenStoreSession, find_session_by_instance_locked,
  find_session_locked, sessions_owned,
}
use qubes_vmm_xen_win_pvdriv.Wmi.Create.{
  allocate_or_null, create_new_session, max_sessions, name_loop, new_session, new_session_id,
  session_named, session_numbered, session_thread, session_size,
}
use qubes_vmm_xen_win_pvdriv.Wmi.Create.Search.{new_session_id_lem}
use qubes_vmm_xen_win_pvdriv.Wmi.Create.Names.{NameHeld, NamesDiffer}
use qubes_vmm_xen_win_pvdriv.Wmi.Create.Ledger.{
  Meets, NewName, name_loop_ends, names, held_if_success, length-names,
}

-- PsCreateSystemThread succeeds.
pub record ThreadsStart (w : Wmi) : Type 0 where
  pub starts : (t : Trace) → nt_success (w.create_system_thread t).status ≡ true

-- The first session is new: the look-ups do not find its id or its name among the others.
abbrev pub Begins : UnicodeString → List XenStoreSession → List XenStoreSession → Type 0
Begins stringid [] old = ⊥
Begins stringid (s ∷ ss) old =
    (ss ≡ old)
    × (find_session_locked s.id old ≡ none)
    × (find_session_by_instance_locked s.instancename.text old ≡ none)
    × (s.stringid ≡ stringid)
    × (s.watches ≡ [])
    × (s.transaction ≡ none)
    × (s.watchcount ≡ 0)

abbrev pub Created :
    Resource → Sessions → UnicodeString → Machine → NtStatus × Sessions → Machine → Type 0
Created r x stringid m q n =
    ((nt_success q.0 ≡ false) × (q.1 ≡ x) × Changes r 0 0 m n)
    ⊎ ((nt_success q.0 ≡ true)
        × Begins stringid q.1.head x.head
        × (handle : ℕ) × Changes r (sessions_owned r q.1.head + one r (thread_handle handle))
            (sessions_owned r x.head + one r (pool stringid.buffer)) m n)

found_if_success :
    (name : Answer UnicodeString) (ss : List XenStoreSession)
    → nt_success name.status ≡ true
    → (nt_success name.status ≡ false) ⊎ (find_session_by_instance_locked name.out.text ss ≡ none)
    → find_session_by_instance_locked name.out.text ss ≡ none
found_if_success name ss e (inl f) = cc
found_if_success name ss e (inr h) = h

failed_name :
    (r : Resource) (address ansi : ℕ) (name : Answer UnicodeString) (m n o : Machine)
    → nt_success name.status ≡ false
    → Changes r (one r (pool address) + one r (pool ansi)) 0 m n
    → NameHeld r n name o
    → Changes r 0 0 m (record o { trace = release (pool address) ∷ release (pool ansi) ∷ o.trace })
failed_name r address ansi name m n o e c h = ground (arith, e, c, h)

module _ (r : Resource) (w : Wmi) (x : Sessions) (stringid : UnicodeString) (start : ThreadsStart w)
    (few : length x.head < max_sessions) where
  thread-Created :
      (address id ansi : ℕ) (name : UnicodeString) (suspended : Bool) (m o : Machine)
      → find_session_locked id x.head ≡ none
      → find_session_by_instance_locked name.text x.head ≡ none
      → Changes r (one r (pool address) + one r (pool ansi) + one r (pool name.buffer)) 0 m o
      → Goes
          (Created r x stringid m)
          (λ _ _. ⊥)
          (session_thread w ansi (new_session address id stringid name suspended) x o)
  unfolding session_thread
  thread-Created address id ansi name suspended m o new_id new_name c = rw (start.starts o.trace) (
      inr (
        refl,
        (refl, new_id, new_name, refl, refl, refl, refl),
        (w.create_system_thread o.trace).out.0,
        (c.0, omega (arith, c.1)),
      ))

  numbered-Created :
      (address ansi : ℕ) (name : UnicodeString) (m o : Machine)
      → find_session_by_instance_locked name.text x.head ≡ none
      → Changes r (one r (pool address) + one r (pool ansi) + one r (pool name.buffer)) 0 m o
      → Goes
          (Created r x stringid m)
          (λ _ _. ⊥)
          (session_numbered w address stringid name ansi x (new_session_id x.head) o)
  unfolding session_numbered
  numbered-Created address ansi name m o new_name c =
      let (id, e, new_id) = new_session_id_lem x.head few in
      rw e (thread-Created address id ansi name _ m o new_id new_name c)

  named-Created :
      (address ansi : ℕ) (name : Answer UnicodeString) (m n o : Machine)
      → Changes r (one r (pool address) + one r (pool ansi)) 0 m n
      → NewName r x.head n name o
      → Goes (Created r x stringid m) (λ _ _. ⊥) (session_named w address stringid ansi x name o)
  unfolding session_named
  named-Created address ansi name m n o c h = elim (Bool-cases (nt_success name.status)) [
    | inl e ↦
        let held = held_if_success r n name o e h.0 in
        rw e (
          numbered-Created address ansi name.out m o (found_if_success name x.head e h.1)
            (held.0 ∙ c.0, omega (arith, held.1, c.1)))
    | inr e ↦ rw e (inl (e, refl, failed_name r address ansi name m n o e c h.0))
  ]

  -- With the text of `stringid` in ANSI.
  with_text-Created :
      NamesDiffer w
      → (address : ℕ) (a : Answer (ℕ × List ℕ)) (m n : Machine)
      → Changes r (one r (pool address) + one r (pool a.out.0)) 0 m n
      → Goes
          (Created r x stringid m)
          (λ _ _. ⊥)
          ((name_loop w (length x.head + 1) x.head a.out.1 0
              >>= session_named w address stringid a.out.0 x)
            n)
  unfolding Meets
  with_text-Created differ address a m n c =
      Goes-bind (NewName r x.head n) (λ _ _. ⊥) (λ _ _. ⊥) (Created r x stringid m)
        (name_loop w (length x.head + 1) x.head a.out.1 0 n)
        (session_named w address stringid a.out.0 x)
        (name_loop_ends r w x.head a.out.1 differ (length x.head + 1) 0 (names x.head) n
          (omega (arith, length-names x.head)) (λ i text _ _ k. k))
        (λ _ _ z. z) (λ name o h. named-Created address a.out.0 name m n o c h)

  -- Where PsCreateSystemThread succeeds, instance names with different numbers differ, the size
  -- of none wraps to 0, and there are fewer than 65536 sessions: CreateNewSession ends, its
  -- searches for a name and for an id with it. It either fails, changes no session and holds
  -- nothing; or it puts one session in front of the others, whose id FindSessionLocked and whose
  -- name FindSessionByInstanceLocked do not find among them, with no watch and no transaction;
  -- and what it holds is that session's, and the handle of the thread, which no code closes.
  pub create_new_session-Created :
      NamesDiffer w
      → (m : Machine) → Goes (Created r x stringid m) (λ _ _. ⊥) (create_new_session w x stringid m)
  unfolding create_new_session allocate_or_null
  create_new_session-Created differ m = elim (Bool-cases (x.count == max_sessions)) [
    | inl e ↦ rw e (inl (refl, refl, (refl, omega arith)))
    | inr e ↦ rw e (elim (Option-cases (w.kernel.allocate_pool m.trace session_size)) [
      | inl f ↦ rw f (inl (refl, refl, (refl, omega arith)))
      | inr (address, f) ↦
          rw f
            (elim (Bool-cases (
              nt_success
                (w.unicode_to_ansi (acquire (pool address) ∷ m.trace) stringid.text).status)) [
                  | inr g ↦ rw g (inl (g, refl, (refl, omega arith)))
                  | inl g ↦ rw g (
                      with_text-Created differ address
                        (w.unicode_to_ansi (acquire (pool address) ∷ m.trace) stringid.text) m _
                        (refl, omega arith))
                ])
    ])
  ]
