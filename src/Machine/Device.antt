-- ===== src/Machine/Device.antt =====
-- The contexts of src/xeniface/ioctls.h, and the part of XENIFACE_FDO (src/xeniface/fdo.h) that
-- the IOCTL handlers read and change. A LIST_ENTRY chain is a list, in the chain's order.
use qubes_vmm_xen_win_pvdriv.Common.{Bool, List, total, ℕ, ◌+◌}
use qubes_vmm_xen_win_pvdriv.Machine.Calls.{
  Resource, event_object, evtchn_channel, foreign_pages, grant_entry, io_space, mdl_memory, one,
  pool, request_irp, store_watch, user_mapping,
}

pub record StoreContext : Type 0 where
  pub address : ℕ
  pub watch : ℕ
  pub event : ℕ
  pub file_object : ℕ

pub record EvtchnContext : Type 0 where
  pub address : ℕ
  pub channel : ℕ
  pub local_port : ℕ
  pub event : ℕ
  pub file_object : ℕ

pub record SuspendContext : Type 0 where
  pub address : ℕ
  pub event : ℕ
  pub file_object : ℕ

-- XENIFACE_CONTEXT_ID less its Type, which is the constructor of `IrpContext`.
pub record ContextId : Type 0 where
  pub request_id : ℕ
  pub process : ℕ

pub record GrantContext : Type 0 where
  pub id : ContextId
  pub address : ℕ
  pub grants : ℕ
  pub entries : List ℕ
  pub remote_domain : ℕ
  pub number_pages : ℕ
  pub flags : ℕ
  pub notify_offset : ℕ
  pub notify_port : ℕ
  pub kernel_va : ℕ
  pub user_va : ℕ
  pub mdl : ℕ

pub record MapContext : Type 0 where
  pub id : ContextId
  pub address : ℕ
  pub remote_domain : ℕ
  pub number_pages : ℕ
  pub flags : ℕ
  pub notify_offset : ℕ
  pub notify_port : ℕ
  pub foreign : ℕ
  pub kernel_va : ℕ
  pub user_va : ℕ
  pub mdl : ℕ

-- XENIFACE_CONTEXT_TYPE, with the structure that the Id is embedded in.
pub data IrpContext : Type 0 where
  grant_context : GrantContext → IrpContext
  map_context : MapContext → IrpContext

abbrev pub context_id : IrpContext → ContextId
context_id (grant_context c) = c.id
context_id (map_context c) = c.id

-- A pending IRP; DriverContext[0] points to the Id inside the context.
pub record Irp : Type 0 where
  pub irp : ℕ
  pub context : IrpContext

pub record Fdo : Type 0 where
  pub interfaces_acquired : Bool
  pub store_watch_list : List StoreContext
  pub evtchn_list : List EvtchnContext
  pub suspend_list : List SuspendContext
  pub irp_list : List Irp

-- What a context owns: its own memory and the resources that its fields name.
module _ (r : Resource) where
  abbrev pub owned_store : StoreContext → ℕ
  owned_store c =
      one r (pool c.address) + one r (store_watch c.watch) + one r (event_object c.event)

  abbrev pub owned_evtchn : EvtchnContext → ℕ
  owned_evtchn c =
      one r (pool c.address) + one r (evtchn_channel c.channel) + one r (event_object c.event)

  abbrev pub owned_suspend : SuspendContext → ℕ
  owned_suspend c = one r (pool c.address) + one r (event_object c.event)

  abbrev pub owned_entries : List ℕ → ℕ
  owned_entries = total λ e. one r (grant_entry e)

  abbrev pub owned_grant : GrantContext → ℕ
  owned_grant c =
      one r (pool c.address)
      + one r (pool c.grants)
      + one r (pool c.kernel_va)
      + one r (mdl_memory c.mdl)
      + one r (user_mapping c.user_va)
      + owned_entries c.entries

  abbrev pub owned_map : MapContext → ℕ
  owned_map c =
      one r (pool c.address)
      + one r (foreign_pages c.foreign)
      + one r (io_space c.kernel_va)
      + one r (mdl_memory c.mdl)
      + one r (user_mapping c.user_va)

  abbrev pub owned_irp_context : IrpContext → ℕ
  owned_irp_context (grant_context c) = owned_grant c
  owned_irp_context (map_context c) = owned_map c

  abbrev pub owned_irp : Irp → ℕ
  owned_irp i = one r (request_irp i.irp) + owned_irp_context i.context

  -- What the lists of the device hold.
  abbrev pub owned : Fdo → ℕ
  owned fdo =
      total owned_store fdo.store_watch_list
      + total owned_evtchn fdo.evtchn_list
      + total owned_suspend fdo.suspend_list
      + total owned_irp fdo.irp_list
