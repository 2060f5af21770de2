-- ===== src/Evtchn/Binding.antt =====
-- What the two bind handlers leave behind, and what becomes of their Mask argument.
use qubes_vmm_xen_win_pvdriv.Common.{
  Bool, [], arith, false, if◌then◌else◌, inl, inr, refl, some, true, ℕ, ◌%◌, ◌++◌, ◌/◌, ◌==◌, ◌^◌,
  ◌∷◌, ◌≡◌, ◌⊎◌,
}
use qubes_vmm_xen_win_pvdriv.Machine.{
  ChannelType, Ends, EvtchnContext, Fdo, Goes, Goes-Ends, Goes-bind, Kernel, Machine, Reply,
  acquire, evtchn_channel, inter_domain, latest, nt_success, out_port, pure, unbound, unmask, ◌>>◌,
}
use qubes_vmm_xen_win_pvdriv.Evtchn.{
  BindInterdomainIn, BindUnboundIn, bind_channel, bound, ioctl_evtchn_bind_interdomain,
  ioctl_evtchn_bind_unbound, unmask_if,
}

abbrev pub with_channel : Fdo → EvtchnContext → Fdo
with_channel f c = record f { evtchn_list = f.evtchn_list ++ c ∷ [] }

abbrev Opened : (file : ℕ) → Machine → EvtchnContext → Machine → Type 0
Opened file m c n =
    (n.fdo ≡ with_channel m.fdo c)
    × (c.file_object ≡ file)
    × (latest n.trace ≡ some (acquire (evtchn_channel c.channel)))

abbrev Failed : Machine → Reply → Machine → Type 0
Failed m a n = (nt_success a.status ≡ false) × (n.fdo ≡ m.fdo)

-- The first half of both handlers opens a channel and lists it, or fails and changes no list.
bind_channel_lem :
    (k : Kernel) (kind : ChannelType) (event file : ℕ) (m : Machine)
    → Goes (Opened file m) (Failed m) (bind_channel k kind event file m)
unfolding bind_channel
bind_channel_lem k kind event file m = grind arith

-- A bound channel is the last of the list, belongs to the caller, and its port is the output; the
-- last call unmasks it if `wants`.
abbrev pub Bound : (wants : EvtchnContext → Bool) (file : ℕ) → Machine → Reply → Machine → Type 0
Bound wants file m a n =
    ((nt_success a.status ≡ false) × (n.fdo ≡ m.fdo))
    ⊎ ((c : EvtchnContext) × (n.fdo ≡ with_channel m.fdo c)
        × (c.file_object ≡ file)
        × (a.output ≡ out_port c.local_port)
        × (latest n.trace
            ≡ some (if wants c then unmask c.channel else acquire (evtchn_channel c.channel))))

-- The second half unmasks the channel or not, and replies.
Opened-Bound :
    (wants : EvtchnContext → Bool) (b : Bool) (file : ℕ) (m : Machine) (c : EvtchnContext)
    (n : Machine)
    → Opened file m c n
    → wants c ≡ b
    → Goes (Bound wants file m) (Bound wants file m) ((unmask_if b c >> pure (bound c)) n)
Opened-Bound wants true file m c n h w = inr (c, h.0, h.1, refl, rw w)
Opened-Bound wants false file m c n h w = inr (c, h.0, h.1, refl, rw w h.2)

-- A request to bind an interdomain channel, with buffers of the right sizes, fails and changes no
-- list, or appends a channel of the caller, answers with its port, and unmasks it exactly if Mask
-- is not set.
pub bind_interdomain_lem :
    (k : Kernel) (i : BindInterdomainIn) (file : ℕ) (m : Machine)
    → Ends (Bound (λ _. i.mask == 0) file m) (ioctl_evtchn_bind_interdomain k i 24 4 file m)
unfolding ioctl_evtchn_bind_interdomain
bind_interdomain_lem k i file m =
    let kind = inter_domain i.remote_domain i.remote_port in
    let P = Bound (λ _. i.mask == 0) file m in
    Goes-Ends P _ (
      Goes-bind (Opened file m) (Failed m) P P (bind_channel k kind i.event file m) _
        (bind_channel_lem k kind i.event file m) (λ a n h. inl h)
        (λ c n h. Opened-Bound (λ _. i.mask == 0) _ file m c n h refl))

-- A request to bind an unbound channel, with buffers of the right sizes, fails and changes no
-- list, or appends a channel of the caller, answers with its port, and unmasks it exactly if the
-- third byte of the port is 0.
pub bind_unbound_lem :
    (k : Kernel) (i : BindUnboundIn) (file : ℕ) (m : Machine)
    → Ends
        (Bound (λ c. c.local_port / 2 ^ 16 % 2 ^ 8 == 0) file m)
        (ioctl_evtchn_bind_unbound k i 16 4 file m)
unfolding ioctl_evtchn_bind_unbound
bind_unbound_lem k i file m =
    let P = Bound (λ c. c.local_port / 2 ^ 16 % 2 ^ 8 == 0) file m in
    Goes-Ends P _ (
      Goes-bind (Opened file m) (Failed m) P P
        (bind_channel k (unbound i.remote_domain) i.event file m) _
        (bind_channel_lem k (unbound i.remote_domain) i.event file m) (λ a n h. inl h)
        (λ c n h. Opened-Bound (λ c'. c'.local_port / 2 ^ 16 % 2 ^ 8 == 0) _ file m c n h refl))

-- The Mask of a request to bind an unbound channel changes nothing in what the handler does.
pub bind_unbound_ignores_mask :
    (k : Kernel) (i : BindUnboundIn) (mask in_len out_len file : ℕ) (m : Machine)
    → ioctl_evtchn_bind_unbound k (record i { mask = mask }) in_len out_len file m
      ≡ ioctl_evtchn_bind_unbound k i in_len out_len file m
unfolding ioctl_evtchn_bind_unbound
bind_unbound_ignores_mask k i mask in_len out_len file m = refl
