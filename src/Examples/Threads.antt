-- ===== src/Examples/Threads.antt =====
-- A thread that is created, terminates and is joined; its owner is halfway.
use qubes_vmm_xen_win_pvdriv.Mutex.{
  MutexReach, acquire_mutex, admitted, arrive, initialize_mutex, inside, mutex_acquire, mutex_start,
}
use qubes_vmm_xen_win_pvdriv.Mutex.Exclusion.{Exclusive, Moves, MutexReach-Safe}
use qubes_vmm_xen_win_pvdriv.Common.{none, some, false, refl, true}
use qubes_vmm_xen_win_pvdriv.Thread.{
  Reach, System, count, decrement, done, free_at_zero, freed, has_terminated, holding, join_step,
  joined, live, owner_call, owner_moves, owner_step, reach_call, reach_move, reach_start, running,
  starting, ended, thread_alert, thread_free, thread_wake, unborn, update, worker_moves,
  worker_step,
}
use qubes_vmm_xen_win_pvdriv.Thread.Invariant.{Inv, Reach-Inv}

-- Two references, the thread runs, and its owner has alerted it.
abbrev alerted_thread : System
alerted_thread = record {
  owner = holding;
  worker = running;
  memory = live (record { event = true; alerted = true; references = 2 });
  open_handle = false;
}

starts : Reach true (record {
  owner = starting;
  worker = unborn;
  memory = live (record { event = false; alerted = false; references = 2 });
  open_handle = false;
})
unfolding owner_step join_step
starts = reach_move reach_start (owner_moves true refl)

creates : Reach true (record {
  owner = holding;
  worker = running;
  memory = live (record { event = false; alerted = false; references = 2 });
  open_handle = false;
})
unfolding owner_step join_step
creates = reach_move (reach_move starts (owner_moves true refl)) (owner_moves true refl)

alerts : Reach true alerted_thread
unfolding owner_call update thread_alert thread_wake
alerts = reach_call creates true refl

-- Both sides go to their ends from there: the thread drops its reference first.
ends : Reach true (record { owner = done; worker = ended; memory = freed; open_handle = false })
unfolding owner_step join_step worker_step update decrement count free_at_zero thread_free
    has_terminated
ends =
    let finish : Reach true (record {
      owner = holding;
      worker = ended;
      memory = live (record { event = true; alerted = true; references = 1 });
      open_handle = false;
    }) =
      reach_move (reach_move (reach_move alerts (worker_moves refl)) (worker_moves refl))
        (worker_moves refl) in
    let waits : Reach true (record {
      owner = joined;
      worker = ended;
      memory = live (record { event = true; alerted = true; references = 1 });
      open_handle = false;
    }) =
      reach_move (reach_move finish (owner_moves true refl)) (owner_moves true refl) in
    reach_move (reach_move waits (owner_moves true refl)) (owner_moves true refl)

Reach-Inv_example : Inv alerted_thread
Reach-Inv_example = Reach-Inv true alerted_thread alerts

-- Thread 3 has passed the wait.
waits :
    MutexReach true (arrive 3 admitted (record { owner = none; event = false }) initialize_mutex)
unfolding initialize_mutex acquire_mutex arrive
waits = mutex_acquire mutex_start 3 refl

-- Thread 3 has the mutex.
MutexReach_example :
    let s =
      arrive 3 inside
        (record { owner = some 3; event = false })
        (arrive 3 admitted (record { owner = none; event = false }) initialize_mutex) in
    Exclusive s × Moves true s
unfolding initialize_mutex acquire_mutex arrive
MutexReach_example =
    MutexReach-Safe true
      (arrive 3 inside (record { owner = some 3; event = false })
        (arrive 3 admitted (record { owner = none; event = false }) initialize_mutex))
      (mutex_acquire waits 3 refl)
