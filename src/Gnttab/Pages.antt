-- ===== src/Gnttab/Pages.antt =====
-- What the grant and the map requests share: flags, sizes in ULONG arithmetic, the look-up of a
-- request, and the notification at its end.
pub mod Ledger
pub mod Sizes
use qubes_vmm_xen_win_pvdriv.Common.{
  Bool, false, if◌then◌else◌, leb, none, some, true, ℕ, ◌%◌, ◌&&◌, ◌*◌, ◌/◌, ◌==◌, ◌^◌,
}
use qubes_vmm_xen_win_pvdriv.Machine.{
  Cmd, ContextId, clear_byte, get_fdo, pure, record_event, ◌>>=◌, ◌>>◌,
}
use qubes_vmm_xen_win_pvdriv.IrpQueue.{csq_peek_next_irp}
use qubes_vmm_xen_win_pvdriv.Evtchn.{evtchn_notify}

-- XENIFACE_GNTTAB_PAGE_FLAGS: bits 0, 1 and 2.
abbrev pub is_readonly : ℕ → Bool
is_readonly flags = flags % 2 == 1

abbrev pub use_notify_offset : ℕ → Bool
use_notify_offset flags = flags / 2 % 2 == 1

abbrev pub use_notify_port : ℕ → Bool
use_notify_port flags = flags / 4 % 2 == 1

abbrev pub max_pages : ℕ
max_pages = 1024 * 1024

-- `NumberPages * PAGE_SIZE`, a product of ULONGs.
unfoldable pub size_in_bytes : ℕ → ℕ
size_in_bytes pages = pages * 4096 % 2 ^ 32

-- The test of NotifyOffset.
unfoldable pub bad_notify_offset : (flags offset pages : ℕ) → Bool
unfolding size_in_bytes
bad_notify_offset flags offset pages = use_notify_offset flags && leb (size_in_bytes pages) offset

unfoldable pub find_gnttab_irp : ContextId → Cmd Bool
unfolding csq_peek_next_irp
find_gnttab_irp id = do
  fdo ← get_fdo
  pure (elim (csq_peek_next_irp fdo.irp_list none (some id)) [ none ↦ false | some _ ↦ true ])

-- The start of GnttabFreeGrant and GnttabFreeMap: a byte of the pages is cleared, and the port is
-- notified; a failure of that is ignored.
unfoldable pub notify_peer : (flags kernel_va offset port : ℕ) → Cmd (Unit {0})
unfolding evtchn_notify
notify_peer flags kernel_va offset port = do
  if use_notify_offset flags then record_event (clear_byte kernel_va offset) else pure tt
  if use_notify_port flags then (do evtchn_notify port none; pure tt) else pure tt
