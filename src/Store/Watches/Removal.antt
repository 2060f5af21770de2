-- ===== src/Store/Watches/Removal.antt =====
-- Who can remove a watch, and what becomes of it.
use qubes_vmm_xen_win_pvdriv.Common.{
  Bool, List, [], arith, false, keep, none, not, refl, total, true, ℕ, ◌++◌, ◌+◌, ◌∷◌, ◌≡◌, ◌≢◌,
  ◌⊎◌,
}
use qubes_vmm_xen_win_pvdriv.Machine.{
  Changes, Completes, Conserves, Ends, Goes, Kernel, Machine, Reliable, Resource, StoreContext,
  event_object, ok, owned_store, pool, release, reply, status_not_found, status_success,
  store_watch, zero_memory,
}
use qubes_vmm_xen_win_pvdriv.ContextList.{accepted}
use qubes_vmm_xen_win_pvdriv.ContextList.Walk.{
  DistinctContexts, has_foreign, has_own, is_own, own_weight, walk_foreign_last, walk_lem,
}
use qubes_vmm_xen_win_pvdriv.Store.Watches.{ioctl_store_remove_watch, store_free_watch, watch_walk}

module _ (target file : ℕ) where
  abbrev pub own_watch : StoreContext → Bool
  own_watch = is_own (λ c. c.address) (λ c. c.file_object) target file

  abbrev pub has_own_watch : List StoreContext → Bool
  has_own_watch = has_own (λ c. c.address) (λ c. c.file_object) target file

  -- Another file object's watch is at the address.
  abbrev pub has_foreign_watch : List StoreContext → Bool
  has_foreign_watch = has_foreign (λ c. c.address) (λ c. c.file_object) target file

abbrev pub DistinctWatches : List StoreContext → Type 0
DistinctWatches = DistinctContexts (λ c. c.address) (λ c. c.file_object)

pub free_watch-Changes :
    (r : Resource) (k : Kernel) (reliable : Reliable k) (c : StoreContext) (m : Machine)
    → Goes (λ _ n. Changes r 0 (owned_store r c) m n) (λ _ _. ⊥) (store_free_watch k c m)
unfolding store_free_watch
free_watch-Changes r k reliable c m = grind (arith, reliable.watch_removed)

watch_walk_lem :
    (r : Resource) (target file : ℕ) (l : List StoreContext)
    → has_foreign_watch target file l ≡ false
    → DistinctWatches l
    → let found = watch_walk target file l in
      let taken = accepted (λ c. c.address) (λ c. c.file_object) target file found.0 in
      (found.1 ≡ keep (λ c. not (own_watch target file c)) l)
      × (total (owned_store r) l
          ≡ total (owned_store r) found.1
            + own_weight (λ c. c.address) (λ c. c.file_object) target file (owned_store r) taken)
      × (((has_own_watch target file l ≡ true) × (taken ≢ none))
          ⊎ ((has_own_watch target file l ≡ false) × (taken ≡ none) × (found.1 ≡ l)))
unfolding watch_walk
watch_walk_lem r target file l h d =
    walk_lem (λ c. c.address) (λ c. c.file_object) target file (owned_store r) none l h refl d

-- A request to remove a watch, with buffers of the right sizes, where no watch of another file
-- object is at the address that it names, the listed contexts have distinct addresses, and the
-- store removes watches when asked: it succeeds exactly if the caller has a watch at the address,
-- takes that one off the list and gives back what it owned; otherwise the status is
-- STATUS_NOT_FOUND and nothing changes.
pub remove_watch_lem :
    (r : Resource) (k : Kernel) (target file : ℕ) (m : Machine)
    → Reliable k
    → has_foreign_watch target file m.fdo.store_watch_list ≡ false
    → DistinctWatches m.fdo.store_watch_list
    → Ends
        (λ a n.
          Conserves r m n
          × (((a.status ≡ status_success)
                × (has_own_watch target file m.fdo.store_watch_list ≡ true)
                × (n.fdo ≡ record m.fdo {
                  store_watch_list =
                      keep (λ c. not (own_watch target file c)) m.fdo.store_watch_list;
                }))
              ⊎ ((a.status ≡ status_not_found)
                  × (has_own_watch target file m.fdo.store_watch_list ≡ false)
                  × (n ≡ m))))
        (ioctl_store_remove_watch k target 8 0 file m)
unfolding ioctl_store_remove_watch
remove_watch_lem r k target file m reliable h d = grind (
  arith,
  watch_walk_lem r target file m.fdo.store_watch_list h d,
  free_watch-Changes r k reliable,
)

-- A caller who names the last watch of the list, which another file object added, and who has
-- none before it at that address, gets it removed from the store, where the store removes watches
-- when asked, and freed, and the freed context stays in the list.
pub remove_watch_of_foreign_last :
    (k : Kernel) (target file : ℕ) (m : Machine) (cs : List StoreContext) (c : StoreContext)
    → Reliable k
    → m.fdo.store_watch_list ≡ cs ++ c ∷ []
    → c.address ≡ target
    → c.file_object ≢ file
    → has_own_watch target file cs ≡ false
    → ioctl_store_remove_watch k target 8 0 file m
      ≡ ok (reply status_success) (record m {
        trace =
            release (pool c.address)
            ∷ zero_memory c.address
            ∷ release (event_object c.event)
            ∷ release (store_watch c.watch)
            ∷ m.trace;
      })
unfolding ioctl_store_remove_watch watch_walk store_free_watch
remove_watch_of_foreign_last k target file m cs c reliable e a f h = ground (
  arith,
  reliable.watch_removed m.trace c.watch,
  walk_foreign_last (λ c. c.address) (λ c. c.file_object) target file none cs c a f h,
)

pub remove_watch-Completes :
    (r : Resource) (k : Kernel) (target in_len out_len file : ℕ) (m : Machine)
    → Reliable k
    → has_foreign_watch target file m.fdo.store_watch_list ≡ false
    → DistinctWatches m.fdo.store_watch_list
    → Ends (Completes r m) (ioctl_store_remove_watch k target in_len out_len file m)
unfolding ioctl_store_remove_watch
remove_watch-Completes r k target in_len out_len file m reliable h d = grind (
  arith,
  watch_walk_lem r target file m.fdo.store_watch_list h d,
  free_watch-Changes r k reliable,
)
