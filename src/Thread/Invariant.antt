-- ===== src/Thread/Invariant.antt =====
-- Who holds a reference to the XENIFACE_THREAD: at every point of every interleaving the count is
-- what the two sides hold, and one side frees the memory once the count is 0.
use qubes_vmm_xen_win_pvdriv.Thread.{
  Memory, Move, Owner, Reach, System, Worker, absent, alerting, assertion_failed, corrupted, count,
  decrement, done, dropped, dropping, failed, free_at_zero, freed, has_terminated, holding, idle,
  join_step, joined, joining, last, live, owner_call, owner_moves, owner_step, reach_call,
  reach_move, reach_start, referencing, releasing, returning, running, starting, ended,
  thread_alert, thread_free, thread_wake, unallocated, unborn, update, worker_moves, worker_step,
}
use qubes_vmm_xen_win_pvdriv.Common.{
  Bool, arith, false, if◌then◌else◌, refl, some, true, zero, ℕ, ◌+◌, ◌==◌, ◌≡◌,
}

-- The references that a side still has to give back.
abbrev pub owner_share : Owner → ℕ
owner_share starting = 1
owner_share referencing = 1
owner_share alerting = 1
owner_share releasing = 1
owner_share holding = 1
owner_share joining = 1
owner_share joined = 1
owner_share _ = 0

abbrev pub worker_share : Worker → ℕ
worker_share unborn = 1
worker_share running = 1
worker_share returning = 1
worker_share _ = 0

-- Whether a side is about to free the memory.
abbrev pub owner_frees : Owner → ℕ
owner_frees (dropping zero) = 1
owner_frees (last zero) = 1
owner_frees _ = 0

abbrev pub worker_frees : Worker → ℕ
worker_frees (dropped zero) = 1
worker_frees _ = 0

-- `n` references are held, and `f` sides are about to free.
abbrev pub Held : (n f : ℕ) → Memory → Type 0
Held n f unallocated = (n ≡ 0) × (f ≡ 0)
Held n f (live t) = (t.references ≡ n) × (f ≡ (if n == 0 then 1 else 0))
Held n f freed = (n ≡ 0) × (f ≡ 0)
Held n f corrupted = ⊥

abbrev pub Launched : Worker → Type 0
Launched running = Unit
Launched returning = Unit
Launched (dropped n) = Unit
Launched ended = Unit
Launched _ = ⊥

abbrev pub HasEnded : Worker → Type 0
HasEnded ended = Unit
HasEnded _ = ⊥

abbrev pub Settled : Worker → Type 0
Settled unborn = ⊥
Settled _ = Unit

-- Where the thread is while its owner is at a place, and whether the handle is open.
abbrev pub InStep : Owner → Worker → (open_handle : Bool) → Type 0
InStep idle w h = (w ≡ absent) × (h ≡ false)
InStep starting w h = (w ≡ unborn) × (h ≡ false)
InStep referencing w h = Launched w × (h ≡ true)
InStep alerting w h = Launched w × (h ≡ true)
InStep releasing w h = Settled w × (h ≡ false)
InStep (dropping n) w h = Settled w × (h ≡ false)
InStep failed w h = Settled w × (h ≡ false)
InStep holding w h = Launched w × (h ≡ false)
InStep joining w h = Launched w × (h ≡ false)
InStep joined w h = HasEnded w × (h ≡ false)
InStep (last n) w h = (n ≡ 0) × HasEnded w × (h ≡ false)
InStep done w h = HasEnded w × (h ≡ false)
InStep assertion_failed w h = ⊥

pub record Inv (s : System) : Type 0 where
  pub held :
      Held
        (owner_share s.owner + worker_share s.worker)
        (owner_frees s.owner + worker_frees s.worker)
        s.memory
  pub in_step : InStep s.owner s.worker s.open_handle

owner_step-Inv :
    (dbg success : Bool) (s t : System) → owner_step dbg success s ≡ some t → Inv s → Inv t
unfolding owner_step join_step update thread_free decrement count thread_alert thread_wake
    has_terminated free_at_zero
owner_step-Inv dbg success s t q inv = ground (arith, inv.held, inv.in_step)

worker_place-Inv :
    (o : Owner) (w : Worker) (m : Memory) (h : Bool) (t : System)
    → worker_step (record { owner = o; worker = w; memory = m; open_handle = h }) ≡ some t
    → Held (owner_share o + worker_share w) (owner_frees o + worker_frees w) m
    → InStep o w h
    → Inv t
unfolding worker_step update thread_free decrement count free_at_zero
worker_place-Inv o absent m h t q held place = cc
worker_place-Inv o unborn m h t q held place = cc
worker_place-Inv o running m h t q held place = ground (arith, q, held, place)
worker_place-Inv o returning m h t q held place = ground (arith, q, held, place)
worker_place-Inv o (dropped n) m h t q held place = ground (arith, q, held, place)
worker_place-Inv o ended m h t q held place = cc

worker_step-Inv : (s t : System) → worker_step s ≡ some t → Inv s → Inv t
worker_step-Inv s t q inv =
    worker_place-Inv s.owner s.worker s.memory s.open_handle t q inv.held inv.in_step

pub owner_call-Inv : (alert : Bool) (s t : System) → owner_call alert s ≡ some t → Inv s → Inv t
unfolding owner_call update thread_alert thread_wake
owner_call-Inv alert s t q inv = ground (arith, inv.held, inv.in_step)

pub Move-Inv : (dbg : Bool) (s t : System) → Move dbg s t → Inv s → Inv t
Move-Inv dbg s t (owner_moves success q) inv = owner_step-Inv dbg success s t q inv
Move-Inv dbg s t (worker_moves q) inv = worker_step-Inv s t q inv

-- At every point of every interleaving of a thread and its owner, the count of the
-- XENIFACE_THREAD is that of the references which the two still have to give back; it is freed
-- only at 0, by one side and once, and never used afterwards; the ASSERT of ThreadJoin holds, and
-- the handle is open exactly from PsCreateSystemThread to ZwClose.
pub Reach-Inv : (dbg : Bool) (s : System) → Reach dbg s → Inv s
Reach-Inv dbg s reach_start = record { held = (refl, refl); in_step = (refl, refl) }
Reach-Inv dbg s (reach_move {s = a} r move) = Move-Inv dbg a s move (Reach-Inv dbg a r)
Reach-Inv dbg s (reach_call {s = a} r alert q) = owner_call-Inv alert a s q (Reach-Inv dbg a r)
