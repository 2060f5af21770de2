-- ===== src/ContextList.antt =====
-- The walk along a list of contexts in IoctlStoreRemoveWatch (src/xeniface/ioctl_store.c) and
-- IoctlSuspendDeregister (src/xeniface/ioctl_suspend.c), which are the same loop.
pub mod Walk
use qubes_vmm_xen_win_pvdriv.Common.{
  List, Option, [], if◌then◌else◌, none, some, ℕ, ◌&&◌, ◌==◌, ◌∷◌,
}

module _ {A : Type 0} (address file_object : A → ℕ) (target file : ℕ) where
  -- `Context` after the loop, which starts as `last`, and the list: a hit is unlinked.
  unfoldable pub walk : Option A → List A → Option A × List A
  walk last [] = (last, [])
  walk last (c ∷ cs) =
      let later : Option A × List A = walk (some c) cs in
      if address c == target && file_object c == file then (some c, cs) else (later.0, c ∷ later.1)

  -- The test after the loop: `Context == NULL || Context != In->Context` is a failure.
  abbrev pub accepted : Option A → Option A
  accepted none = none
  accepted (some c) = if address c == target then some c else none
