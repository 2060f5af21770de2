-- ===== src/Thread/Liveness.antt =====
-- That the two sides end: no interleaving is stuck before the owner and the thread are finished,
-- and each one finishes, where the thread can count on its owner and the owner on the thread.
use qubes_vmm_xen_win_pvdriv.Common.{Bool, false, some, true, ℕ, ◌*◌, ◌+◌, if◌then◌else◌, ◌≡◌}
use qubes_vmm_xen_win_pvdriv.Thread.{
  Memory, Owner, System, Worker, absent, alerting, done, dropped, dropping, failed, freed, holding,
  initial, live, owner_call, idle, joined, joining, last, owner_step, referencing, releasing,
  returning, running, starting, ended, unallocated, unborn, worker_step,
}
use qubes_vmm_xen_win_pvdriv.Thread.Invariant.{Inv}

-- Both sides are at their ends, the memory is given back and the handle closed.
abbrev pub OwnerFinished : Owner → Type 0
OwnerFinished failed = Unit
OwnerFinished done = Unit
OwnerFinished _ = ⊥

abbrev pub WorkerFinished : Worker → Type 0
WorkerFinished absent = Unit
WorkerFinished ended = Unit
WorkerFinished _ = ⊥

abbrev pub GivenBack : Memory → Type 0
GivenBack unallocated = Unit
GivenBack freed = Unit
GivenBack _ = ⊥

pub record Finished (s : System) : Type 0 where
  owner_at_end : OwnerFinished s.owner
  worker_at_end : WorkerFinished s.worker
  memory_given_back : GivenBack s.memory
  handle_closed : s.open_handle ≡ false

abbrev pub is_alerted : Memory → Bool
is_alerted (live t) = t.alerted
is_alerted _ = false

-- Whether the next step of the thread is sure to come: Function is relied on to return once the
-- thread is alerted, and may return before.
abbrev pub is_due : Worker → Memory → Bool
is_due running m = is_alerted m
is_due _ m = true

-- The owner calls ThreadAlert before ThreadJoin.
abbrev pub may_go_on : Owner → Memory → Bool
may_go_on holding m = is_alerted m
may_go_on _ m = true

-- A step in the life of a thread; if `due`, it is one that is sure to come.
pub data LifeStep (dbg due : Bool) (s t : System) : Type 0 where
  owner_goes_on :
      (success : Bool)
      → may_go_on s.owner s.memory ≡ true
      → owner_step dbg success s ≡ some t
      → LifeStep dbg due s t
  owner_alerts : is_alerted s.memory ≡ false → owner_call true s ≡ some t → LifeStep dbg due s t
  worker_goes_on :
      (due ≡ true → is_due s.worker s.memory ≡ true) → worker_step s ≡ some t → LifeStep dbg due s t

pub data Life (dbg : Bool) : System → Type 0 where
  life_start : Life dbg initial
  life_step : {s t : System} (due : Bool) → Life dbg s → LifeStep dbg due s t → Life dbg t

-- Whichever steps are made from `s`, `P` holds after finitely many of them, and until then one is
-- sure to come.
pub data Eventually (dbg : Bool) (P : System → Type 0) : System → Type 0 where
  now : {s : System} → P s → Eventually dbg P s
  later :
      {s : System} (t : System)
      → LifeStep dbg true s t
      → ((due : Bool) (u : System) → LifeStep dbg due s u → Eventually dbg P u)
      → Eventually dbg P s

-- Behind the alert of the owner.
abbrev past_alert : Owner → Bool
past_alert releasing = true
past_alert (dropping n) = true
past_alert failed = true
past_alert joining = true
past_alert joined = true
past_alert (last n) = true
past_alert done = true
past_alert _ = false

abbrev Alerted : System → Type 0
Alerted s = past_alert s.owner ≡ true → s.worker ≡ running → is_alerted s.memory ≡ true

-- What holds along a life.
abbrev Lives : System → Type 0
Lives s = Inv s × Alerted s

abbrev owner_left : Owner → ℕ
owner_left idle = 20
owner_left starting = 11
owner_left referencing = 10
owner_left alerting = 9
owner_left releasing = 8
owner_left (dropping n) = 7
owner_left holding = 4
owner_left joining = 3
owner_left joined = 2
owner_left (last n) = 1
owner_left _ = 0

abbrev worker_left : Worker → ℕ
worker_left unborn = 3
worker_left running = 3
worker_left returning = 2
worker_left (dropped n) = 1
worker_left _ = 0

-- How many steps the two sides have left at most, and whether the alert is.
abbrev places_left : System → ℕ
places_left s = owner_left s.owner + worker_left s.worker

abbrev alert_left : Memory → ℕ
alert_left m = if is_alerted m then 0 else 1

abbrev left : System → ℕ
left s = places_left s * 2 + alert_left s.memory
