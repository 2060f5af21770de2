-- ===== src/Suspend/Deregistration.antt =====
-- Who can take a suspend event off the list, and what becomes of it.
use qubes_vmm_xen_win_pvdriv.Common.{
  Bool, List, [], arith, false, keep, none, not, refl, total, true, ℕ, ◌++◌, ◌+◌, ◌∷◌, ◌≡◌, ◌≢◌,
  ◌⊎◌,
}
use qubes_vmm_xen_win_pvdriv.Machine.{
  Completes, Conserves, Ends, Machine, Resource, SuspendContext, event_object, ok, owned_suspend,
  pool, release, reply, status_not_found, status_success, zero_memory,
}
use qubes_vmm_xen_win_pvdriv.ContextList.{accepted}
use qubes_vmm_xen_win_pvdriv.ContextList.Walk.{
  DistinctContexts, has_foreign, has_own, is_own, own_weight, walk_foreign_last, walk_lem,
}
use qubes_vmm_xen_win_pvdriv.Suspend.{ioctl_suspend_deregister, suspend_free_event, suspend_walk}

module _ (target file : ℕ) where
  abbrev pub own_suspend : SuspendContext → Bool
  own_suspend = is_own (λ c. c.address) (λ c. c.file_object) target file

  abbrev pub has_own_suspend : List SuspendContext → Bool
  has_own_suspend = has_own (λ c. c.address) (λ c. c.file_object) target file

  -- Another file object's event is at the address.
  abbrev pub has_foreign_suspend : List SuspendContext → Bool
  has_foreign_suspend = has_foreign (λ c. c.address) (λ c. c.file_object) target file

abbrev pub DistinctSuspends : List SuspendContext → Type 0
DistinctSuspends = DistinctContexts (λ c. c.address) (λ c. c.file_object)

suspend_walk_lem :
    (r : Resource) (target file : ℕ) (l : List SuspendContext)
    → has_foreign_suspend target file l ≡ false
    → DistinctSuspends l
    → let found = suspend_walk target file l in
      let taken = accepted (λ c. c.address) (λ c. c.file_object) target file found.0 in
      (found.1 ≡ keep (λ c. not (own_suspend target file c)) l)
      × (total (owned_suspend r) l
          ≡ total (owned_suspend r) found.1
            + own_weight (λ c. c.address) (λ c. c.file_object) target file (owned_suspend r) taken)
      × (((has_own_suspend target file l ≡ true) × (taken ≢ none))
          ⊎ ((has_own_suspend target file l ≡ false) × (taken ≡ none) × (found.1 ≡ l)))
unfolding suspend_walk
suspend_walk_lem r target file l h d =
    walk_lem (λ c. c.address) (λ c. c.file_object) target file (owned_suspend r) none l h refl d

-- A request to deregister a suspend event, with buffers of the right sizes, where no event of
-- another file object is at the address that it names and the listed contexts have distinct
-- addresses: it succeeds exactly if the caller has an event at the address, takes that one off
-- the list and gives back what it owned; otherwise the status is STATUS_NOT_FOUND and nothing
-- changes.
pub deregister_lem :
    (r : Resource) (target file : ℕ) (m : Machine)
    → has_foreign_suspend target file m.fdo.suspend_list ≡ false
    → DistinctSuspends m.fdo.suspend_list
    → Ends
        (λ a n.
          Conserves r m n
          × (((a.status ≡ status_success)
                × (has_own_suspend target file m.fdo.suspend_list ≡ true)
                × (n.fdo ≡ record m.fdo {
                  suspend_list = keep (λ c. not (own_suspend target file c)) m.fdo.suspend_list;
                }))
              ⊎ ((a.status ≡ status_not_found)
                  × (has_own_suspend target file m.fdo.suspend_list ≡ false)
                  × (n ≡ m))))
        (ioctl_suspend_deregister target 8 0 file m)
unfolding ioctl_suspend_deregister
deregister_lem r target file m h d =
    ground (arith, suspend_walk_lem r target file m.fdo.suspend_list h d)

-- A caller who names the last event of the list, which another file object registered, and who
-- has none before it at that address, gets it freed, and the freed context stays in the list.
pub deregister_of_foreign_last :
    (target file : ℕ) (m : Machine) (cs : List SuspendContext) (c : SuspendContext)
    → m.fdo.suspend_list ≡ cs ++ c ∷ []
    → c.address ≡ target
    → c.file_object ≢ file
    → has_own_suspend target file cs ≡ false
    → ioctl_suspend_deregister target 8 0 file m
      ≡ ok (reply status_success) (record m {
        trace =
            release (pool c.address)
            ∷ zero_memory c.address
            ∷ release (event_object c.event)
            ∷ m.trace;
      })
unfolding ioctl_suspend_deregister suspend_walk suspend_free_event
deregister_of_foreign_last target file m cs c e a f h =
    ground
      (arith, walk_foreign_last (λ c. c.address) (λ c. c.file_object) target file none cs c a f h)

pub deregister-Completes :
    (r : Resource) (target in_len out_len file : ℕ) (m : Machine)
    → has_foreign_suspend target file m.fdo.suspend_list ≡ false
    → DistinctSuspends m.fdo.suspend_list
    → Ends (Completes r m) (ioctl_suspend_deregister target in_len out_len file m)
unfolding ioctl_suspend_deregister
deregister-Completes r target in_len out_len file m h d =
    grind (arith, suspend_walk_lem r target file m.fdo.suspend_list h d)
