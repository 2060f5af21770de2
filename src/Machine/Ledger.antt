-- ===== src/Machine/Ledger.antt =====
-- What is stated of a run: an outcome on every path, and that no resource is lost or given back
-- twice.
use qubes_vmm_xen_win_pvdriv.Common.{
  List, false, if◌then◌else◌, subst, true, ℕ, ◌+◌, ◌==◌, ◌≡◌, ◌≢◌, none,
}
use qubes_vmm_xen_win_pvdriv.Machine.Status.{nt_success, status_pending}
use qubes_vmm_xen_win_pvdriv.Machine.Calls.{Resource, Trace, acquired, one, released, request_irp}
use qubes_vmm_xen_win_pvdriv.Machine.Device.{owned}
use qubes_vmm_xen_win_pvdriv.Machine.Answers.{Kernel, exception}
use qubes_vmm_xen_win_pvdriv.Machine.Commands.{
  Cmd, Machine, Reply, Run, and_then, assertion_failure, exit, ok, undefined,
}

-- Between two states, the calls that handed out `r` exceed those that took it back by as much as
-- the lists of the device own more of it.
abbrev pub Conserves : Resource → Machine → Machine → Type 0
Conserves r m n =
    acquired r n.trace + released r m.trace + owned r m.fdo
    ≡ acquired r m.trace + released r n.trace + owned r n.fdo

-- The handler ends, with a reply and a state that satisfy `P`: no ASSERT fails, and nothing is
-- undefined.
abbrev pub Ends : (Reply → Machine → Type 0) → Run Reply → Type 0
Ends P (ok a m) = P a m
Ends P (exit a m) = P a m
Ends P assertion_failure = ⊥
Ends P undefined = ⊥

-- The command goes on, and `Q` holds, or it returns, and `P` holds.
abbrev pub Goes :
    {A : Type 0} → (A → Machine → Type 0) → (Reply → Machine → Type 0) → Run A → Type 0
Goes Q P (ok a m) = Q a m
Goes Q P (exit a m) = P a m
Goes Q P assertion_failure = ⊥
Goes Q P undefined = ⊥

-- The lists are the same, and of the resource `r` the driver holds `gain` more, or `loss` less.
abbrev pub Changes : Resource → (gain loss : ℕ) → Machine → Machine → Type 0
Changes r gain loss m n =
    (n.fdo ≡ m.fdo)
    × (acquired r n.trace + released r m.trace + loss
        ≡ acquired r m.trace + released r n.trace + gain)

-- The rule for a command in two parts: what holds where the first part goes on or returns.
pub Goes-bind :
    {A B : Type 0} (Q : A → Machine → Type 0) (P P' : Reply → Machine → Type 0)
    (Q' : B → Machine → Type 0) (r : Run A) (k : A → Cmd B)
    → Goes Q P r
    → ((a : Reply) (n : Machine) → P a n → P' a n)
    → ((a : A) (n : Machine) → Q a n → Goes Q' P' (k a n))
    → Goes Q' P' (and_then r k)
Goes-bind Q P P' Q' (ok a n) k g weaken next = next a n g
Goes-bind Q P P' Q' (exit a n) k g weaken next = weaken a n g
Goes-bind Q P P' Q' assertion_failure k g weaken next = g
Goes-bind Q P P' Q' undefined k g weaken next = g

pub Goes-and :
    {A : Type 0} (Q Q' : A → Machine → Type 0) (r : Run A)
    → Goes Q (λ _ _. ⊥) r
    → Goes Q' (λ _ _. ⊥) r
    → Goes (λ a n. Q a n × Q' a n) (λ _ _. ⊥) r
Goes-and Q Q' (ok a n) g h = (g, h)
Goes-and Q Q' (exit a n) g h = elim g [ ]
Goes-and Q Q' assertion_failure g h = elim g [ ]
Goes-and Q Q' undefined g h = elim g [ ]

pub Goes-mono :
    {A : Type 0} (Q Q' : A → Machine → Type 0) (r : Run A)
    → Goes Q (λ _ _. ⊥) r
    → ((a : A) (n : Machine) → Q a n → Q' a n)
    → Goes Q' (λ _ _. ⊥) r
Goes-mono Q Q' (ok a n) g h = h a n g
Goes-mono Q Q' (exit a n) g h = g
Goes-mono Q Q' assertion_failure g h = g
Goes-mono Q Q' undefined g h = g

pub Goes-Ends : (P : Reply → Machine → Type 0) (r : Run Reply) → Goes P P r → Ends P r
Goes-Ends P (ok a n) g = g
Goes-Ends P (exit a n) g = g
Goes-Ends P assertion_failure g = g
Goes-Ends P undefined g = g

-- The same at the end of a handler for the request `irp`, which is handed back only later where it
-- is pending.
abbrev pub Settled : Resource → (irp : ℕ) → Machine → Reply → Machine → Type 0
Settled r irp m a n =
    acquired r n.trace
      + released r m.trace
      + owned r m.fdo
      + (if a.status == status_pending then one r (request_irp irp) else 0)
    ≡ acquired r m.trace + released r n.trace + owned r n.fdo

-- A handler that leaves nothing pending: the request is completed with its reply.
abbrev pub Completes : Resource → Machine → Reply → Machine → Type 0
Completes r m a n = ((a.status == status_pending) ≡ false) × Conserves r m n

-- The calls that complete at once, with a status that the driver passes on.
pub record Synchronous (k : Kernel) : Type 0 where
  pub prints :
      (t : Trace) (path text : List ℕ) → (k.store_printf t path text == status_pending) ≡ false
  pub removals : (t : Trace) (path : List ℕ) → (k.store_remove t path == status_pending) ≡ false
  pub watches :
      (t : Trace) (path : List ℕ) (event : ℕ)
      → ((k.watch_add t path event).status == status_pending) ≡ false
  pub references :
      (t : Trace) (handle : ℕ) → ((k.reference_event t handle).status == status_pending) ≡ false

-- IoAllocateWorkItem finds memory.
pub record WorkItems (k : Kernel) : Type 0 where
  pub allocated : (t : Trace) → k.allocate_work_item t ≢ none

-- What the driver relies on where it asserts that a call succeeded.
pub record Reliable (k : Kernel) : Type 0 where
  pub watch_removed : (t : Trace) (w : ℕ) → nt_success (k.watch_remove t w) ≡ true
  pub access_revoked : (t : Trace) (e : ℕ) → nt_success (k.revoke_foreign_access t e) ≡ true
  pub pages_unmapped : (t : Trace) (a : ℕ) → nt_success (k.unmap_foreign_pages t a) ≡ true

-- An exception that the code catches has an error code, so that NT_SUCCESS fails on it.
pub record FaultsFail (k : Kernel) : Type 0 where
  pub reads :
      (t : Trace) (address size code : ℕ)
      → k.probe_for_read t address size ≡ exception code
      → nt_success code ≡ false
  pub writes :
      (t : Trace) (size code : ℕ)
      → k.probe_for_write t size ≡ exception code
      → nt_success code ≡ false
  pub locks :
      (t : Trace) (mdl code : ℕ)
      → k.map_locked_pages t mdl ≡ exception code
      → nt_success code ≡ false

-- The run goes on from, or returns with, the state `n`.
abbrev pub Finishes : {A : Type 0} → Run A → Machine → Type 0
Finishes (ok _ m) n = m ≡ n
Finishes (exit _ m) n = m ≡ n
Finishes assertion_failure n = ⊥
Finishes undefined n = ⊥

pub Finishes-Ends :
    (P : Machine → Type 0) (r : Run Reply) (n : Machine) → Ends (λ _ o. P o) r → Finishes r n → P n
Finishes-Ends P (ok a m) n e f = subst P f e
Finishes-Ends P (exit a m) n e f = subst P f e
Finishes-Ends P assertion_failure n e f = elim f [ ]
Finishes-Ends P undefined n e f = elim f [ ]

pub Finishes-Goes :
    {A : Type 0} (P : Machine → Type 0) (Q : A → Machine → Type 0) (r : Run A) (n : Machine)
    → Goes Q (λ _ _. ⊥) r
    → ((a : A) (o : Machine) → Q a o → P o)
    → Finishes r n
    → P n
Finishes-Goes P Q (ok a m) n g weaken f = subst P f (weaken a m g)
Finishes-Goes P Q (exit a m) n g weaken f = elim g [ ]
Finishes-Goes P Q assertion_failure n g weaken f = elim f [ ]
Finishes-Goes P Q undefined n g weaken f = elim f [ ]
