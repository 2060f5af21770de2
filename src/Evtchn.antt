-- ===== src/Evtchn.antt =====
-- src/xeniface/ioctl_evtchn.c: event channels that user mode binds, signals, unmasks and closes.
use qubes_vmm_xen_win_pvdriv.Common.{
  Bool, List, Option, [], false, if◌then◌else◌, none, not, some, true, ℕ, ◌%◌, ◌&&◌, ◌++◌, ◌/◌,
  ◌==◌, ◌^◌, ◌||◌, ◌∷◌,
}
use qubes_vmm_xen_win_pvdriv.Machine.{
  ChannelType, Cmd, EvtchnContext, Kernel, NtStatus, Reply, allocate, asked, dereference,
  event_object, evtchn_channel, flush_dpcs, free, get_fdo, goto_if, history, inter_domain, or_null,
  or_status, out_port, pure, put_fdo, queue_dpc, record_event, release, reply, return, send,
  set_event, status_invalid_buffer_size, status_invalid_parameter, status_no_memory,
  status_not_found, status_success, status_unsuccessful, unbound, unmask, zero_out, ◌>>=◌, ◌>>◌,
}
pub mod Ledger
pub mod Binding
pub mod Channels

-- sizeof on x64
abbrev pub bind_unbound_in_size : ℕ
bind_unbound_in_size = 16

abbrev pub bind_interdomain_in_size : ℕ
bind_interdomain_in_size = 24

abbrev pub bind_out_size : ℕ
bind_out_size = 4

abbrev pub port_in_size : ℕ
port_in_size = 4

abbrev evtchn_context_size : ℕ
evtchn_context_size = 120

-- XENIFACE_EVTCHN_BIND_UNBOUND_IN: RemoteDomain at byte 0, Mask at byte 2.
pub record BindUnboundIn : Type 0 where
  pub remote_domain : ℕ
  pub mask : ℕ
  pub event : ℕ

-- XENIFACE_EVTCHN_BIND_INTERDOMAIN_IN: RemoteDomain at byte 0, RemotePort at 4, Mask at 8.
pub record BindInterdomainIn : Type 0 where
  pub remote_domain : ℕ
  pub remote_port : ℕ
  pub mask : ℕ
  pub event : ℕ

-- `Out->LocalPort = port;` where Out and In are the same system buffer (METHOD_BUFFERED): the four
-- bytes of LocalPort cover RemoteDomain, Mask and the byte behind it.
overwrite_unbound : ℕ → BindUnboundIn → BindUnboundIn
overwrite_unbound port i = record i { remote_domain = port % 2 ^ 16; mask = port / 2 ^ 16 % 2 ^ 8 }

-- Here they cover RemoteDomain and the padding behind it.
overwrite_interdomain : ℕ → BindInterdomainIn → BindInterdomainIn
overwrite_interdomain port i = record i { remote_domain = port % 2 ^ 16 }

append_evtchn : EvtchnContext → Cmd (Unit {0})
append_evtchn c = do fdo ← get_fdo; put_fdo (record fdo { evtchn_list = fdo.evtchn_list ++ c ∷ [] })

-- fail4 and fail3 of the two bind handlers.
bind_fail3 : ℕ → NtStatus → {A : Type 0} → Cmd A
bind_fail3 p status = do zero_out p; free p; return status

bind_fail4 : (p e : ℕ) → {A : Type 0} → Cmd A
unfolding bind_fail3
bind_fail4 p e = do dereference e; bind_fail3 p status_unsuccessful

-- XENBUS_EVTCHN(Open), which answers NULL on a failure.
open_channel : Kernel → ChannelType → Cmd ℕ → Cmd ℕ
open_channel k kind fail = do t ← history; or_null (k.channel_open t kind true) evtchn_channel fail

-- From the allocation of the context to its place in the list.
bind_channel : Kernel → ChannelType → (event file_object : ℕ) → Cmd EvtchnContext
unfolding allocate open_channel append_evtchn bind_fail4
bind_channel k kind event file_object = do
  p ← allocate k evtchn_context_size (return status_no_memory)
  zero_out p
  t ← history
  e ← or_status (k.reference_event t event) event_object (λ status. bind_fail3 p status)
  ch ← open_channel k kind (bind_fail4 p e.out)
  t' ← history
  let c : EvtchnContext = record {
    address = p;
    channel = ch;
    local_port = k.channel_port t' ch % 2 ^ 32;
    event = e.out;
    file_object = file_object;
  }
  append_evtchn c
  pure c

abbrev unmask_if : Bool → EvtchnContext → Cmd (Unit {0})
unmask_if true c = record_event (unmask c.channel)
unmask_if false c = pure tt

abbrev bound : EvtchnContext → Reply
bound c = record { status = status_success; information = 4; output = out_port c.local_port }

pub ioctl_evtchn_bind_unbound :
    Kernel → BindUnboundIn → (in_len out_len file_object : ℕ) → Cmd Reply
unfolding overwrite_unbound
ioctl_evtchn_bind_unbound k i in_len out_len file_object = do
  goto_if (not (in_len == bind_unbound_in_size) || not (out_len == bind_out_size))
      (return status_invalid_buffer_size)
  c ← bind_channel k (unbound i.remote_domain) i.event file_object
  unmask_if ((overwrite_unbound c.local_port i).mask == 0) c
  pure (bound c)

pub ioctl_evtchn_bind_interdomain :
    Kernel → BindInterdomainIn → (in_len out_len file_object : ℕ) → Cmd Reply
unfolding overwrite_interdomain
ioctl_evtchn_bind_interdomain k i in_len out_len file_object = do
  goto_if (not (in_len == bind_interdomain_in_size) || not (out_len == bind_out_size))
      (return status_invalid_buffer_size)
  c ← bind_channel k (inter_domain i.remote_domain i.remote_port) i.event file_object
  unmask_if ((overwrite_interdomain c.local_port i).mask == 0) c
  pure (bound c)

-- The two calls of the handler that are deferred: the interrupt queues the DPC, and the DPC sets
-- the event and unmasks the channel.
pub evtchn_interrupt_handler : Kernel → EvtchnContext → Cmd Bool
evtchn_interrupt_handler k c = do
  t ← history
  record_event (if k.insert_queue_dpc t c.address then queue_dpc c.address else asked)
  pure true

pub evtchn_notification_dpc : EvtchnContext → Cmd (Unit {0})
evtchn_notification_dpc c = do record_event (set_event c.event); record_event (unmask c.channel)

unfoldable pub evtchn_free : EvtchnContext → Cmd (Unit {0})
evtchn_free c = do
  record_event (release (evtchn_channel c.channel))
  record_event flush_dpcs
  dereference c.event
  zero_out c.address
  free c.address

-- A FileObject that may be NULL.
abbrev pub same_file : Option ℕ → ℕ → Bool
same_file none f = true
same_file (some g) f = g == f

pub evtchn_find_channel : List EvtchnContext → (local_port : ℕ) → Option ℕ → Option EvtchnContext
evtchn_find_channel [] port file = none
evtchn_find_channel (c ∷ cs) port file =
    if c.local_port == port && same_file file c.file_object
    then some c
    else evtchn_find_channel cs port file

-- RemoveEntryList of the context that EvtchnFindChannel found.
pub evtchn_unlink : List EvtchnContext → (local_port : ℕ) → Option ℕ → List EvtchnContext
evtchn_unlink [] port file = []
evtchn_unlink (c ∷ cs) port file =
    if c.local_port == port && same_file file c.file_object
    then cs
    else c ∷ evtchn_unlink cs port file

pub ioctl_evtchn_close : (local_port in_len out_len file_object : ℕ) → Cmd Reply
unfolding evtchn_find_channel evtchn_unlink evtchn_free
ioctl_evtchn_close port in_len out_len file_object = do
  goto_if (not (in_len == port_in_size) || not (out_len == 0)) (return status_invalid_buffer_size)
  fdo ← get_fdo
  elim (evtchn_find_channel fdo.evtchn_list port (some file_object)) [
    | none ↦ return status_not_found
    | some c ↦ do
      put_fdo (record fdo { evtchn_list = evtchn_unlink fdo.evtchn_list port (some file_object) })
      evtchn_free c
      pure (reply status_success)
  ]

unfoldable pub evtchn_notify : (local_port : ℕ) → Option ℕ → Cmd NtStatus
unfolding evtchn_find_channel
evtchn_notify port file = do
  fdo ← get_fdo
  elim (evtchn_find_channel fdo.evtchn_list port file) [
    | none ↦ pure status_not_found
    | some c ↦ do record_event (send c.channel); pure status_success
  ]

pub ioctl_evtchn_notify : (local_port in_len out_len file_object : ℕ) → Cmd Reply
unfolding evtchn_notify
ioctl_evtchn_notify port in_len out_len file_object = do
  goto_if (not (in_len == port_in_size) || not (out_len == 0)) (return status_invalid_buffer_size)
  s ← evtchn_notify port (some file_object)
  pure (reply s)

pub ioctl_evtchn_unmask : (local_port in_len out_len file_object : ℕ) → Cmd Reply
unfolding evtchn_find_channel
ioctl_evtchn_unmask port in_len out_len file_object = do
  goto_if (not (in_len == port_in_size) || not (out_len == 0)) (return status_invalid_buffer_size)
  fdo ← get_fdo
  elim (evtchn_find_channel fdo.evtchn_list port (some file_object)) [
    | none ↦ return status_invalid_parameter
    | some c ↦ do record_event (unmask c.channel); pure (reply status_success)
  ]
