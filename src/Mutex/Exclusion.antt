-- ===== src/Mutex/Exclusion.antt =====
-- Mutual exclusion of the threads that use a XENIFACE_MUTEX.
use qubes_vmm_xen_win_pvdriv.Common.{
  ==_self, ==_iff, Bool-cases, sym, subst, Bool, false, none, some, true, if◌then◌else◌, ℕ, ◌==◌,
  ◌≡◌, arith, refl, ◌⊎◌, inl, inr,
}
use qubes_vmm_xen_win_pvdriv.Mutex.{
  XenIfaceMutex, Place, outside, admitted, inside, leaving, asserting, Threads, arrive,
  initialize_mutex, acquire_mutex, release_mutex, MutexReach, mutex_start, mutex_acquire,
  mutex_release,
}

-- The mutex is as the thread at `p` left it.
abbrev pub Holder : ℕ → Place → XenIfaceMutex → Type 0
Holder t outside m = ⊥
Holder t admitted m = m.owner ≡ none
Holder t inside m = m.owner ≡ some t
Holder t leaving m = m.owner ≡ none
Holder t asserting m = ⊥

-- Nobody uses the mutex, and its event is set; or one thread does.
abbrev pub Free : Threads → Type 0
Free s = (s.mutex.event ≡ true) × (s.mutex.owner ≡ none) × ((u : ℕ) → s.place u ≡ outside)

pub record HeldBy (t : ℕ) (s : Threads) : Type 0 where
  event_is_reset : s.mutex.event ≡ false
  holder : Holder t (s.place t) s.mutex
  others_outside : (u : ℕ) → (u == t) ≡ false → s.place u ≡ outside

abbrev pub Exclusive : Threads → Type 0
Exclusive s = Free s ⊎ ((t : ℕ) × HeldBy t s)

-- A thread that comes to a place where it holds the mutex, while all others are outside.
arrive-HeldBy :
    (t : ℕ) (p : Place) (m : XenIfaceMutex) (s : Threads)
    → m.event ≡ false
    → Holder t p m
    → ((u : ℕ) → (u == t) ≡ false → s.place u ≡ outside)
    → HeldBy t (arrive t p m s)
unfolding arrive
arrive-HeldBy t p m s reset h others = record {
  event_is_reset = reset;
  holder = rw (==_self t) h;
  others_outside = λ u d. rw d (others u d);
}

all_outside :
    (t : ℕ) (s : Threads)
    → ((u : ℕ) → (u == t) ≡ false → s.place u ≡ outside)
    → (u : ℕ) → (if u == t then outside else s.place u) ≡ outside
all_outside t s others u = elim (Bool-cases (u == t)) [
  | inl e ↦ rw (e) refl
  | inr d ↦ rw d (others u d)
]

-- What the thread that uses the mutex leaves of it.
Holder-at : (t : ℕ) (s : Threads) (p : Place) → s.place t ≡ p → HeldBy t s → Holder t p s.mutex
Holder-at t s p at h = subst (λ x. Holder t x s.mutex) at h.holder

acquire_mutex-HeldBy :
    (dbg : Bool) (t : ℕ) (s v : Threads) (p : Place)
    → s.place t ≡ p
    → acquire_mutex dbg t s ≡ some v
    → HeldBy t s
    → HeldBy t v
unfolding acquire_mutex arrive
acquire_mutex-HeldBy dbg t s v outside at q h = absurd (Holder-at t s outside at h)
acquire_mutex-HeldBy dbg t s v admitted at q h =
    let owner = Holder-at t s admitted at h in
    subst (HeldBy t) (grind (arith, at, q, owner)) (
      arrive-HeldBy t inside (record s.mutex { owner = some t }) s h.event_is_reset refl
        h.others_outside)
acquire_mutex-HeldBy dbg t s v inside at q h = absurd (grind (arith, at, q))
acquire_mutex-HeldBy dbg t s v leaving at q h = absurd (grind (arith, at, q))
acquire_mutex-HeldBy dbg t s v asserting at q h = absurd (grind (arith, at, q))

acquire_mutex-Exclusive :
    (dbg : Bool) (t : ℕ) (s v : Threads)
    → acquire_mutex dbg t s ≡ some v
    → Exclusive s
    → Exclusive v
unfolding acquire_mutex arrive
acquire_mutex-Exclusive dbg t s v q (inl h) = inr (
  t,
  subst (HeldBy t) (grind (arith, q, h.0, h.2 t))
      (arrive-HeldBy t admitted (record s.mutex { event = false }) s refl h.1 λ u _. h.2 u),
)
acquire_mutex-Exclusive dbg t s v q (inr (w, h)) = elim (Bool-cases (t == w)) [
  | inl e ↦ inr (
    t,
    acquire_mutex-HeldBy dbg t s v (s.place t) refl q
        (subst (λ x. HeldBy x s) (sym ((==_iff t w).0 e)) h),
  )
  | inr d ↦ absurd (grind (arith, q, h.others_outside t d, h.event_is_reset))
]

release_mutex-Exclusive_self :
    (dbg : Bool) (t : ℕ) (s v : Threads) (p : Place)
    → s.place t ≡ p
    → release_mutex dbg t s ≡ some v
    → HeldBy t s
    → Exclusive v
unfolding release_mutex arrive
release_mutex-Exclusive_self dbg t s v outside at q h = absurd (Holder-at t s outside at h)
release_mutex-Exclusive_self dbg t s v admitted at q h = absurd (grind (arith, at, q))
release_mutex-Exclusive_self dbg t s v inside at q h =
    let owner = Holder-at t s inside at h in
    inr (
      t,
      subst (HeldBy t) (grind (arith, at, q, owner, ==_self t)) (
          arrive-HeldBy t leaving (record s.mutex { owner = none }) s h.event_is_reset refl
            h.others_outside),
    )
release_mutex-Exclusive_self dbg t s v leaving at q h = inl (
    subst Free (grind (arith, at, q))
      (refl, Holder-at t s leaving at h, all_outside t s h.others_outside))
release_mutex-Exclusive_self dbg t s v asserting at q h = absurd (grind (arith, at, q))

release_mutex-Exclusive :
    (dbg : Bool) (t : ℕ) (s v : Threads)
    → release_mutex dbg t s ≡ some v
    → Exclusive s
    → Exclusive v
unfolding release_mutex arrive
release_mutex-Exclusive dbg t s v q (inl h) = absurd (grind (arith, q, h.2 t))
release_mutex-Exclusive dbg t s v q (inr (w, h)) = elim (Bool-cases (t == w)) [
  | inl e ↦
      release_mutex-Exclusive_self dbg t s v (s.place t) refl q
        (subst (λ x. HeldBy x s) (sym ((==_iff t w).0 e)) h)
  | inr d ↦ absurd (grind (arith, q, h.others_outside t d))
]

MutexReach-Exclusive : (dbg : Bool) (s : Threads) → MutexReach dbg s → Exclusive s
unfolding initialize_mutex
MutexReach-Exclusive dbg s mutex_start = inl (refl, refl, λ u. refl)
MutexReach-Exclusive dbg v (mutex_acquire {s} r t q) =
    acquire_mutex-Exclusive dbg t s v q (MutexReach-Exclusive dbg s r)
MutexReach-Exclusive dbg v (mutex_release {s} r t q) =
    release_mutex-Exclusive dbg t s v q (MutexReach-Exclusive dbg s r)

-- A thread can move.
abbrev pub Moves : Bool → Threads → Type 0
Moves dbg s =
    (t : ℕ) × (((v : Threads) × (acquire_mutex dbg t s ≡ some v))
      ⊎ ((v : Threads) × (release_mutex dbg t s ≡ some v)))

HeldBy-Moves :
    (dbg : Bool) (t : ℕ) (s : Threads) (p : Place) → s.place t ≡ p → HeldBy t s → Moves dbg s
unfolding acquire_mutex release_mutex
HeldBy-Moves dbg t s outside at h = absurd (Holder-at t s outside at h)
HeldBy-Moves dbg t s admitted at h =
    let owner = Holder-at t s admitted at h in
    (t, inl (arrive t inside (record s.mutex { owner = some t }) s, grind (arith, at, owner)))
HeldBy-Moves dbg t s inside at h =
    let owner = Holder-at t s inside at h in
    (
      t,
      inr (
        arrive t leaving (record s.mutex { owner = none }) s,
        grind (arith, at, owner, ==_self t),
      ),
    )
HeldBy-Moves dbg t s leaving at h =
    (t, inr (arrive t outside (record s.mutex { event = true }) s, grind (arith, at)))
HeldBy-Moves dbg t s asserting at h = absurd (Holder-at t s asserting at h)

Exclusive-Moves : (dbg : Bool) (s : Threads) → Exclusive s → Moves dbg s
unfolding acquire_mutex
Exclusive-Moves dbg s (inl h) =
    (0, inl (arrive 0 admitted (record s.mutex { event = false }) s, grind (arith, h.0, h.2 0)))
Exclusive-Moves dbg s (inr (t, h)) = HeldBy-Moves dbg t s (s.place t) refl h

-- At every point of every interleaving of any number of threads that use a XENIFACE_MUTEX, either
-- no thread is past the wait of AcquireMutex and before the end of ReleaseMutex, the event is set
-- and there is no owner; or exactly one thread is there, and it is the owner between the two
-- calls. No ASSERT of the two routines has failed, and some thread can move.
pub MutexReach-Safe : (dbg : Bool) (s : Threads) → MutexReach dbg s → Exclusive s × Moves dbg s
MutexReach-Safe dbg s r = let h = MutexReach-Exclusive dbg s r in (h, Exclusive-Moves dbg s h)
