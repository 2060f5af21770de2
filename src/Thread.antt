-- ===== src/Thread.antt =====
-- src/xeniface/thread.c: a system thread and its owner, which run at the same time and share the
-- reference-counted XENIFACE_THREAD. A state holds the memory of that structure and the place of
-- both sides in their code; the places lie between the accesses to shared memory. The function
-- that the thread runs is not code of thread.c: it runs until it returns.
use qubes_vmm_xen_win_pvdriv.Common.{
  Bool, Option, false, none, not, some, suc, true, zero, ℕ, ◌%◌, ◌&&◌, ◌+◌, ◌-◌, ◌==◌, ◌^◌, ◌≡◌,
}
pub mod Invariant
pub mod Liveness

-- The fields that the two sides change. `event` tells whether the event is set.
pub record XenIfaceThread : Type 0 where
  pub event : Bool
  pub alerted : Bool
  pub references : ℕ

-- An access outside a live allocation, or a second free, makes the memory `corrupted`.
pub data Memory : Type 0 where
  unallocated : Memory
  live : XenIfaceThread → Memory
  freed : Memory
  corrupted : Memory

-- ThreadCreate to its return, then the owner to the return of ThreadJoin.
pub data Owner : Type 0 where
  -- before ThreadCreate
  idle : Owner
  -- before PsCreateSystemThread
  starting : Owner
  -- before ObReferenceObjectByHandle
  referencing : Owner
  -- at fail3, before ThreadAlert
  alerting : Owner
  -- at fail2, before the decrement
  releasing : Owner
  -- at fail2, with the decremented count
  dropping : ℕ → Owner
  -- ThreadCreate returned an error
  failed : Owner
  -- ThreadCreate returned a thread
  holding : Owner
  -- in the wait of ThreadJoin
  joining : Owner
  -- after that wait
  joined : Owner
  -- before the ASSERT of ThreadJoin, with the decremented count
  last : ℕ → Owner
  -- ThreadJoin returned
  done : Owner
  assertion_failed : Owner

-- ThreadFunction.
pub data Worker : Type 0 where
  -- there is no thread
  absent : Worker
  -- the thread is yet to be created, and has its reference
  unborn : Worker
  running : Worker
  -- Function returned
  returning : Worker
  -- with the decremented count
  dropped : ℕ → Worker
  -- PsTerminateSystemThread
  ended : Worker

pub record System : Type 0 where
  pub owner : Owner
  pub worker : Worker
  pub memory : Memory
  -- whether the handle of PsCreateSystemThread is open
  pub open_handle : Bool

abbrev pub initial : System
initial = record { owner = idle; worker = absent; memory = unallocated; open_handle = false }

unfoldable pub update : (XenIfaceThread → XenIfaceThread) → Memory → Memory
update f (live t) = live (f t)
update f _ = corrupted

unfoldable pub thread_free : Memory → Memory
thread_free (live t) = freed
thread_free _ = corrupted

-- A LONG less one.
abbrev pub decremented : ℕ → ℕ
decremented n = (n + (2 ^ 32 - 1)) % 2 ^ 32

unfoldable pub decrement : XenIfaceThread → XenIfaceThread
decrement t = record t { references = decremented t.references }

-- The value that InterlockedDecrement returns.
unfoldable pub count : Memory → ℕ
unfolding decrement
count (live t) = (decrement t).references
count _ = 0

unfoldable pub thread_wake : XenIfaceThread → XenIfaceThread
thread_wake t = record t { event = true }

unfoldable pub thread_alert : XenIfaceThread → XenIfaceThread
unfolding thread_wake
thread_alert t = thread_wake (record t { alerted = true })

unfoldable pub thread_is_alerted : XenIfaceThread → Bool
thread_is_alerted t = t.alerted

unfoldable pub has_terminated : Worker → Bool
has_terminated ended = true
has_terminated _ = false

-- `if (n == 0) __ThreadFree(...)`.
unfoldable pub free_at_zero : ℕ → Memory → Memory
unfolding thread_free
free_at_zero zero m = thread_free m
free_at_zero (suc n) m = m

-- The call of ThreadJoin, or one step inside it. `dbg` is whether ASSERT is in the build.
unfoldable pub join_step : (dbg : Bool) → System → Option System
unfolding update thread_free decrement count has_terminated
join_step dbg s = elim s.owner [
  | holding ↦ some (record s { owner = joining })
  | joining ↦ elim (has_terminated s.worker) [
    | true ↦ some (record s { owner = joined })
    | false ↦ none
  ]
  | joined ↦ some (record s { owner = last (count s.memory); memory = update decrement s.memory })
  | last n ↦ elim (dbg && not (n == 0)) [
    | true ↦ some (record s { owner = assertion_failed })
    | false ↦ some (record s { owner = done; memory = thread_free s.memory })
  ]
  | _ ↦ none
]

-- One step of ThreadCreate, or of what follows it. `success` is the answer of the call that the
-- step makes, where it makes one.
unfoldable pub owner_step : (dbg success : Bool) → System → Option System
unfolding update thread_free decrement count thread_alert free_at_zero join_step
owner_step dbg success s = elim s.owner [
  | idle ↦ elim success [
    | true ↦ some (record s {
      owner = starting;
      worker = unborn;
      memory = live (record { event = false; alerted = false; references = 2 });
    })
    | false ↦ some (record s { owner = failed })
  ]
  | starting ↦ elim success [
    | true ↦ some (record s { owner = referencing; worker = running; open_handle = true })
    | false ↦
        some (record s { owner = releasing; worker = absent; memory = update decrement s.memory })
  ]
  | referencing ↦ elim success [
    | true ↦ some (record s { owner = holding; open_handle = false })
    | false ↦ some (record s { owner = alerting })
  ]
  | alerting ↦
      some
        (record s { owner = releasing; memory = update thread_alert s.memory; open_handle = false })
  | releasing ↦
      some (record s { owner = dropping (count s.memory); memory = update decrement s.memory })
  | dropping n ↦ some (record s { owner = failed; memory = free_at_zero n s.memory })
  | _ ↦ join_step dbg s
]

-- One step of ThreadFunction.
unfoldable pub worker_step : System → Option System
unfolding update thread_free decrement count free_at_zero
worker_step s = elim s.worker [
  | running ↦ some (record s { worker = returning })
  | returning ↦
      some (record s { worker = dropped (count s.memory); memory = update decrement s.memory })
  | dropped n ↦ some (record s { worker = ended; memory = free_at_zero n s.memory })
  | _ ↦ none
]

-- ThreadWake or ThreadAlert by the owner, between ThreadCreate and ThreadJoin.
unfoldable pub owner_call : (alert : Bool) → System → Option System
unfolding update thread_wake thread_alert
owner_call alert s = elim s.owner [
  | holding ↦ some (record s {
    memory = elim alert [
      | true ↦ update thread_alert s.memory
      | false ↦ update thread_wake s.memory
    ];
  })
  | _ ↦ none
]

-- The interleavings: one side moves at a time. A move brings a side further in its code.
pub data Move (dbg : Bool) (s t : System) : Type 0 where
  owner_moves : (success : Bool) → owner_step dbg success s ≡ some t → Move dbg s t
  worker_moves : worker_step s ≡ some t → Move dbg s t

pub data Reach (dbg : Bool) : System → Type 0 where
  reach_start : Reach dbg initial
  reach_move : {s t : System} → Reach dbg s → Move dbg s t → Reach dbg t
  reach_call :
      {s t : System} → Reach dbg s → (alert : Bool) → owner_call alert s ≡ some t → Reach dbg t
