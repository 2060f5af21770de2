-- ===== src/Evtchn/Channels.antt =====
-- Which channel a caller reaches by a port, and what a close takes off the list.
use qubes_vmm_xen_win_pvdriv.Common.{
  Bool, List, Option, Option-cases, [], arith, false, if◌then◌else◌, inl, inr, keep, length, none,
  not, refl, some, true, ℕ, ◌&&◌, ◌+◌, ◌==◌, ◌||◌, ◌∷◌, ◌≡◌, ◌⊎◌,
}
use qubes_vmm_xen_win_pvdriv.Machine.{
  Conserves, Ends, Event, EvtchnContext, Machine, NtStatus, Reply, Resource, send,
  status_invalid_parameter, status_not_found, status_success, unmask,
}
use qubes_vmm_xen_win_pvdriv.Evtchn.{
  evtchn_find_channel, evtchn_free, evtchn_notify, evtchn_unlink, ioctl_evtchn_close,
  ioctl_evtchn_notify, ioctl_evtchn_unmask, same_file,
}
use qubes_vmm_xen_win_pvdriv.Evtchn.Ledger.{total-unlink}

-- A channel that the look-up may answer.
abbrev pub matches : (port : ℕ) → Option ℕ → EvtchnContext → Bool
matches port file c = c.local_port == port && same_file file c.file_object

abbrev pub has_channel : List EvtchnContext → (port : ℕ) → Option ℕ → Bool
has_channel [] port file = false
has_channel (c ∷ l) port file = matches port file c || has_channel l port file

abbrev pub is_some {ℓ} : {A : Type ℓ} → Option A → Bool
is_some none = false
is_some (some _) = true

find-matches :
    (l : List EvtchnContext) (port : ℕ) (file : Option ℕ) (c : EvtchnContext)
    → evtchn_find_channel l port file ≡ some c
    → matches port file c ≡ true
unfolding evtchn_find_channel
find-matches [] port file c h = cc
find-matches (d ∷ l) port file c h = ground (arith, find-matches l port file c)

find-has_channel :
    (l : List EvtchnContext) (port : ℕ) (file : Option ℕ)
    → is_some (evtchn_find_channel l port file) ≡ has_channel l port file
unfolding evtchn_find_channel
find-has_channel [] port file = refl
find-has_channel (d ∷ l) port file = ground (arith, find-has_channel l port file)

-- A close leaves every channel of another file object where it is.
others-unlink :
    (l : List EvtchnContext) (port file : ℕ)
    → keep (λ c. not (c.file_object == file)) (evtchn_unlink l port (some file))
      ≡ keep (λ c. not (c.file_object == file)) l
unfolding evtchn_unlink
others-unlink [] port file = refl
others-unlink (c ∷ l) port file = ground (arith, others-unlink l port file)

length-unlink :
    (l : List EvtchnContext) (port : ℕ) (file : Option ℕ)
    → length l ≡ length (evtchn_unlink l port file) + (if has_channel l port file then 1 else 0)
unfolding evtchn_unlink
length-unlink [] port file = refl
length-unlink (c ∷ l) port file = ground (arith, length-unlink l port file)

-- A request to close a port, with buffers of the right sizes, succeeds exactly if the caller has
-- a channel at the port: then one channel is taken off the list, none of another file object, and
-- what it owned is given back. Otherwise the status is STATUS_NOT_FOUND and nothing changes.
pub close_lem :
    (r : Resource) (port file : ℕ) (m : Machine)
    → Ends
        (λ a n.
          Conserves r m n
          × (((a.status ≡ status_success)
                × (has_channel m.fdo.evtchn_list port (some file) ≡ true)
                × (length m.fdo.evtchn_list ≡ length n.fdo.evtchn_list + 1)
                × (keep (λ c. not (c.file_object == file)) n.fdo.evtchn_list
                    ≡ keep (λ c. not (c.file_object == file)) m.fdo.evtchn_list))
              ⊎ ((a.status ≡ status_not_found)
                  × (has_channel m.fdo.evtchn_list port (some file) ≡ false)
                  × (n ≡ m))))
        (ioctl_evtchn_close port 4 0 file m)
unfolding ioctl_evtchn_close evtchn_free
close_lem r port file m = ground (
  arith,
  total-unlink r m.fdo.evtchn_list port (some file),
  find-has_channel m.fdo.evtchn_list port (some file),
  length-unlink m.fdo.evtchn_list port (some file),
  others-unlink m.fdo.evtchn_list port file,
)

no_channel :
    (l : List EvtchnContext) (port : ℕ) (file : Option ℕ)
    → evtchn_find_channel l port file ≡ none
    → has_channel l port file ≡ false
no_channel l port file e = ground (arith, find-has_channel l port file)

-- The reply and the state after a request for the channel at a port.
abbrev pub Reaches :
    (did : ℕ → Event) (missing : NtStatus) (port file : ℕ) → Machine → Reply → Machine → Type 0
Reaches did missing port file m a n =
    ((a.status ≡ status_success)
      × ((c : EvtchnContext) × (matches port (some file) c ≡ true)
          × (n ≡ record m { trace = did c.channel ∷ m.trace })))
    ⊎ ((a.status ≡ missing) × (has_channel m.fdo.evtchn_list port (some file) ≡ false) × (n ≡ m))

-- A request to notify a port, with buffers of the right sizes, either makes exactly one call, a
-- send on a channel of the caller at that port, or finds that the caller has none there, fails
-- with STATUS_NOT_FOUND and changes nothing.
pub notify_lem :
    (port file : ℕ) (m : Machine)
    → Ends (Reaches send status_not_found port file m) (ioctl_evtchn_notify port 4 0 file m)
unfolding ioctl_evtchn_notify evtchn_notify
notify_lem port file m =
    elim (Option-cases (evtchn_find_channel m.fdo.evtchn_list port (some file))) [
      | inl e ↦ rw (e, Ends) (inr (refl, no_channel m.fdo.evtchn_list port (some file) e, refl))
      | inr (c, e) ↦
          rw (e, Ends) (inl (refl, (c, find-matches m.fdo.evtchn_list port (some file) c e, refl)))
    ]

-- A request to unmask a port, with buffers of the right sizes, either makes exactly one call,
-- which unmasks a channel of the caller at that port, or finds that the caller has none there,
-- fails with STATUS_INVALID_PARAMETER and changes nothing.
pub unmask_lem :
    (port file : ℕ) (m : Machine)
    → Ends
        (Reaches unmask status_invalid_parameter port file m)
        (ioctl_evtchn_unmask port 4 0 file m)
unfolding ioctl_evtchn_unmask
unmask_lem port file m =
    elim (Option-cases (evtchn_find_channel m.fdo.evtchn_list port (some file))) [
      | inl e ↦ rw (e, Ends) (inr (refl, no_channel m.fdo.evtchn_list port (some file) e, refl))
      | inr (c, e) ↦
          rw (e, Ends) (inl (refl, (c, find-matches m.fdo.evtchn_list port (some file) c e, refl)))
    ]
