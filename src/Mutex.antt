-- ===== src/Mutex.antt =====
-- src/xeniface/mutex.h: XENIFACE_MUTEX and the threads that use it, each one with its place in
-- AcquireMutex and ReleaseMutex. The places lie between the accesses to the mutex. Windows passes
-- a wait on the event, which is a synchronization event, when it is set, and resets it with that.
use qubes_vmm_xen_win_pvdriv.Common.{
  Bool, Option, false, none, some, true, if◌then◌else◌, not, ℕ, ◌&&◌, ◌==◌, ◌≡◌,
}
pub mod Exclusion

pub record XenIfaceMutex : Type 0 where
  pub owner : Option ℕ
  pub event : Bool

-- `outside`: before AcquireMutex or after ReleaseMutex. `admitted`: KeWaitForSingleObject has
-- returned. `inside`: between the two calls. `leaving`: before KeSetEvent. `asserting`: an ASSERT
-- has failed.
pub data Place : Type 0 where
  outside : Place
  admitted : Place
  inside : Place
  leaving : Place
  asserting : Place

pub record Threads : Type 0 where
  pub mutex : XenIfaceMutex
  pub place : ℕ → Place

-- The thread `t` comes to the place `p`, and leaves the mutex as `m`.
unfoldable pub arrive : ℕ → Place → XenIfaceMutex → Threads → Threads
arrive t p m s = record { mutex = m; place = λ u. if u == t then p else s.place u }

unfoldable pub initialize_mutex : Threads
initialize_mutex = record { mutex = record { owner = none; event = true }; place = λ _. outside }

abbrev pub is_null : Option ℕ → Bool
is_null none = true
is_null (some _) = false

abbrev pub is_thread : ℕ → Option ℕ → Bool
is_thread t none = false
is_thread t (some u) = u == t

-- AcquireMutex of the thread `t`: the wait, which does not return while the event is not set, and
-- the rest of it.
unfoldable pub acquire_mutex : (dbg : Bool) → ℕ → Threads → Option Threads
unfolding arrive
acquire_mutex dbg t s = elim (s.place t) [
  | outside ↦ elim s.mutex.event [
    | true ↦ some (arrive t admitted (record s.mutex { event = false }) s)
    | false ↦ none
  ]
  | admitted ↦ elim (dbg && not (is_null s.mutex.owner)) [
    | true ↦ some (arrive t asserting s.mutex s)
    | false ↦ some (arrive t inside (record s.mutex { owner = some t }) s)
  ]
  | _ ↦ none
]

-- ReleaseMutex of the thread `t`.
unfoldable pub release_mutex : (dbg : Bool) → ℕ → Threads → Option Threads
unfolding arrive
release_mutex dbg t s = elim (s.place t) [
  | inside ↦ elim (dbg && not (is_thread t s.mutex.owner)) [
    | true ↦ some (arrive t asserting s.mutex s)
    | false ↦ some (arrive t leaving (record s.mutex { owner = none }) s)
  ]
  | leaving ↦ some (arrive t outside (record s.mutex { event = true }) s)
  | _ ↦ none
]

-- The interleavings of any number of threads.
pub data MutexReach (dbg : Bool) : Threads → Type 0 where
  mutex_start : MutexReach dbg initialize_mutex
  mutex_acquire :
      {s u : Threads}
      → MutexReach dbg s
      → (t : ℕ) → acquire_mutex dbg t s ≡ some u
      → MutexReach dbg u
  mutex_release :
      {s u : Threads}
      → MutexReach dbg s
      → (t : ℕ) → release_mutex dbg t s ≡ some u
      → MutexReach dbg u
