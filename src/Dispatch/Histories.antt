-- ===== src/Dispatch/Histories.antt =====
-- Histories of the device: requests, clean-ups and cancellations, one after the other.
use qubes_vmm_xen_win_pvdriv.Common.{Option, [], arith, none, refl, some, true, ℕ, ◌+◌, ◌≡◌}
use qubes_vmm_xen_win_pvdriv.Machine.{
  Conserves, ContextId, Finishes, Finishes-Ends, Finishes-Goes, Irp, Kernel, Machine, Resource,
  acquired, owned, released,
}
use qubes_vmm_xen_win_pvdriv.IrpQueue.{IoCsq, csq_peek_next_irp}
use qubes_vmm_xen_win_pvdriv.IrpQueue.Order.{DistinctIrps}
use qubes_vmm_xen_win_pvdriv.Gnttab.Cancel.{cancel_irp}
use qubes_vmm_xen_win_pvdriv.Gnttab.Cancel.Ledger.{cancel_irp_lem}
use qubes_vmm_xen_win_pvdriv.Cleanup.{xen_iface_cleanup}
use qubes_vmm_xen_win_pvdriv.Cleanup.Lists.{cleanup_lem}
use qubes_vmm_xen_win_pvdriv.Dispatch.{Ioctl, Request, xen_iface_ioctl}
use qubes_vmm_xen_win_pvdriv.Dispatch.Ledger.{Admissible, Platform, xen_iface_ioctl-Conserves}

-- A step of the device: a request, the clean-up of a file object, or the cancellation of a pending
-- request. The last state is the one after the step.
pub data Step (k : Kernel) (q : IoCsq) : Machine → Machine → Type 0 where
  request :
      {m n : Machine} (r : Request) (code : Ioctl)
      → Admissible r code m.fdo
      → Finishes (xen_iface_ioctl k q r code m) n
      → Step k q m n
  clean : {m n : Machine} (file : Option ℕ) → Finishes (xen_iface_cleanup k file m) n → Step k q m n
  cancel :
      {m n : Machine} (i : Irp) (id : ContextId)
      → DistinctIrps m.fdo.irp_list
      → csq_peek_next_irp m.fdo.irp_list none (some id) ≡ some i
      → Finishes (cancel_irp k i m) n
      → Step k q m n

pub data Reach (k : Kernel) (q : IoCsq) (m : Machine) : Machine → Type 0 where
  here : Reach k q m m
  next : {n o : Machine} → Reach k q m n → Step k q n o → Reach k q m o

Step-Conserves :
    (s : Resource) (k : Kernel) (q : IoCsq) (p : Platform k q) {m n : Machine}
    → Step k q m n
    → Conserves s m n
unfolding csq_peek_next_irp
Step-Conserves s k q p (request {m} {n} r code a f) =
    Finishes-Ends (λ o. Conserves s m o) _ n (xen_iface_ioctl-Conserves s k q r code m p a) f
Step-Conserves s k q p (clean {m} {n} file f) =
    Finishes-Goes (λ o. Conserves s m o) _ _ n (cleanup_lem s k file m p.reliable) (λ _ _ h. h.1) f
Step-Conserves s k q p (cancel {m} {n} i id d e f) =
    Finishes-Goes (λ o. Conserves s m o) _ _ n (cancel_irp_lem s k i id m p.reliable p.items d e)
      (λ _ _ h. h.1) f

Reach-Conserves :
    (s : Resource) (k : Kernel) (q : IoCsq) (p : Platform k q) {m n : Machine}
    → Reach k q m n
    → Conserves s m n
Reach-Conserves s k q p here = refl
Reach-Conserves s k q p (next {n} {o} h st) =
    let a = Reach-Conserves s k q p h in let b = Step-Conserves s k q p st in omega arith

abbrev pub initial : Machine
initial = record {
  fdo = record {
    interfaces_acquired = true;
    store_watch_list = [];
    evtchn_list = [];
    suspend_list = [];
    irp_list = [];
  };
  trace = [];
}

-- After any history of admissible requests, clean-ups and cancellations from an empty device, on
-- a documented platform in a checked build, where IoAllocateWorkItem does not answer NULL, each
-- resource was handed out exactly as often as it was given back, plus once for each time that a
-- context in a list of the device owns it: none is lost, and none is given back twice. Of an IRP:
-- it was completed as often as it was received, but for the times that it is pending.
pub Reach-accounts :
    (s : Resource) (k : Kernel) (q : IoCsq) (m : Machine)
    → Platform k q
    → Reach k q initial m
    → acquired s m.trace ≡ released s m.trace + owned s m.fdo
Reach-accounts s k q m p h = let c = Reach-Conserves s k q p h in omega arith
