-- ===== src/Cleanup/Lists.antt =====
-- What XenIfaceCleanup takes off the lists, and that it gives back what those contexts owned.
use qubes_vmm_xen_win_pvdriv.Common.{
  List, Option, [], arith, keep, not, refl, total, ℕ, ◌+◌, ◌∷◌, ◌≡◌,
}
use qubes_vmm_xen_win_pvdriv.Machine.{
  Changes, Conserves, EvtchnContext, Fdo, Goes, Kernel, Machine, Reliable, Resource, StoreContext,
  SuspendContext, acquired, owned_evtchn, owned_store, owned_suspend, released,
}
use qubes_vmm_xen_win_pvdriv.Evtchn.{evtchn_free, same_file}
use qubes_vmm_xen_win_pvdriv.Suspend.{suspend_free_event}
use qubes_vmm_xen_win_pvdriv.Store.Watches.Removal.{free_watch-Changes}
use qubes_vmm_xen_win_pvdriv.Cleanup.{
  cleanup_suspends, cleanup_watches, evtchn_stay, evtchn_to_free, free_channels, xen_iface_cleanup,
}

cleanup_watches_lem :
    (r : Resource) (k : Kernel) (reliable : Reliable k) (file : Option ℕ) (l : List StoreContext)
    (m : Machine)
    → Goes
        (λ l' n.
          (l' ≡ keep (λ c. not (same_file file c.file_object)) l)
          × (n.fdo ≡ m.fdo)
          × (acquired r n.trace + released r m.trace + total (owned_store r) l
              ≡ acquired r m.trace + released r n.trace + total (owned_store r) l'))
        (λ _ _. ⊥)
        (cleanup_watches k file l m)
unfolding cleanup_watches
cleanup_watches_lem r k reliable file [] m = ground arith
cleanup_watches_lem r k reliable file (c ∷ cs) m =
    grind (arith, free_watch-Changes r k reliable c m, cleanup_watches_lem r k reliable file cs)

cleanup_suspends_lem :
    (r : Resource) (file : Option ℕ) (l : List SuspendContext) (m : Machine)
    → Goes
        (λ l' n.
          (l' ≡ keep (λ c. not (same_file file c.file_object)) l)
          × (n.fdo ≡ m.fdo)
          × (acquired r n.trace + released r m.trace + total (owned_suspend r) l
              ≡ acquired r m.trace + released r n.trace + total (owned_suspend r) l'))
        (λ _ _. ⊥)
        (cleanup_suspends file l m)
unfolding cleanup_suspends suspend_free_event
cleanup_suspends_lem r file [] m = ground arith
cleanup_suspends_lem r file (c ∷ cs) m = grind (arith, cleanup_suspends_lem r file cs)

free_channels_lem :
    (r : Resource) (l : List EvtchnContext) (m : Machine)
    → Goes (λ _ n. Changes r 0 (total (owned_evtchn r) l) m n) (λ _ _. ⊥) (free_channels l m)
unfolding free_channels evtchn_free
free_channels_lem r [] m = ground arith
free_channels_lem r (c ∷ cs) m = grind (arith, free_channels_lem r cs)

total-split :
    (r : Resource) (file : Option ℕ) (l : List EvtchnContext)
    → total (owned_evtchn r) l
      ≡ total (owned_evtchn r) (evtchn_stay file l) + total (owned_evtchn r) (evtchn_to_free file l)
unfolding evtchn_stay evtchn_to_free
total-split r file [] = omega arith
total-split r file (c ∷ cs) = ground (arith, total-split r file cs)

evtchn_stay_lem :
    (file : Option ℕ) (l : List EvtchnContext)
    → evtchn_stay file l ≡ keep (λ c. not (same_file file c.file_object)) l
unfolding evtchn_stay
evtchn_stay_lem file l = refl

-- The lists without the contexts of a file object, or of all of them.
abbrev pub without : Option ℕ → Fdo → Fdo
without file f = record f {
  store_watch_list = keep (λ c. not (same_file file c.file_object)) f.store_watch_list;
  evtchn_list = keep (λ c. not (same_file file c.file_object)) f.evtchn_list;
  suspend_list = keep (λ c. not (same_file file c.file_object)) f.suspend_list;
}

-- Where the store removes watches when asked, XenIfaceCleanup ends, takes exactly the contexts of
-- the file object off the three lists, all contexts if it is NULL, keeps the order of the others
-- and the pending requests, and gives back exactly what the contexts owned.
pub cleanup_lem :
    (r : Resource) (k : Kernel) (file : Option ℕ) (m : Machine)
    → Reliable k
    → Goes
        (λ _ n. (n.fdo ≡ without file m.fdo) × Conserves r m n)
        (λ _ _. ⊥)
        (xen_iface_cleanup k file m)
unfolding xen_iface_cleanup
cleanup_lem r k file m reliable = grind (
  arith,
  cleanup_watches_lem r k reliable file m.fdo.store_watch_list m,
  free_channels_lem r (evtchn_to_free file m.fdo.evtchn_list),
  total-split r file m.fdo.evtchn_list,
  cleanup_suspends_lem r file m.fdo.suspend_list,
  evtchn_stay_lem file m.fdo.evtchn_list,
)
