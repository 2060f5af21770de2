-- ===== src/Store/Permissions/Handler.antt =====
-- What IoctlStoreSetPermissions lets through, and what it keeps.
use qubes_vmm_xen_win_pvdriv.Common.{
  Bool, List, Option, [], arith, false, if◌then◌else◌, none, not, refl, some, suc, true, zero, ℕ,
  ◌&&◌, ◌*◌, ◌+◌, ◌<◌, ◌∷◌, ◌≡◌, ◌≢◌, ◌≤◌, ◌⊎◌,
}
use qubes_vmm_xen_win_pvdriv.Machine.{
  Changes, Ends, FaultsFail, Goes, Kernel, Machine, Resource, exit, last_permissions, nt_success,
  one, pool, reply, status_invalid_buffer_size,
}
use qubes_vmm_xen_win_pvdriv.UserBuffer.{capture_user_buffer, free_captured_buffer}
use qubes_vmm_xen_win_pvdriv.Store.Permissions.{
  Permission, SetPermissionsIn, apply_permissions, capture_path, convert_loop, convert_permissions,
  ioctl_store_set_permissions, is_disallowed, set_permissions_in_size, terminated,
}

-- The entries from `index` on, as the buffer has them.
abbrev pub entries : (ℕ → Permission) → (index remaining : ℕ) → List Permission
entries entry index zero = []
entries entry index (suc n) = entry index ∷ entries entry (index + 1) n

abbrev pub all_allowed : List Permission → Bool
all_allowed [] = true
all_allowed (p ∷ l) = not (is_disallowed p.1) && all_allowed l

-- The conversion of permissions copies the entries, and fails exactly if a mask has a bit that is
-- not allowed.
pub convert_loop_lem :
    (entry : ℕ → Permission) (index remaining : ℕ)
    → convert_loop entry index remaining ≡ (
        if all_allowed (entries entry index remaining)
        then some (entries entry index remaining)
        else none)
unfolding convert_loop
convert_loop_lem entry index zero = refl
convert_loop_lem entry index (suc n) = ground (arith, convert_loop_lem entry (index + 1) n)

-- A captured buffer that is held.
abbrev held_capture : Resource → Option ℕ → ℕ
held_capture r none = 0
held_capture r (some c) = one r (pool c)

capture_path-Changes :
    (r : Resource) (k : Kernel) (faults : FaultsFail k) (i : SetPermissionsIn) (p : ℕ) (m : Machine)
    → 0 < i.path_length
    → Goes
        (λ a n. Changes r (held_capture r a.out) 0 m n × (a.out ≢ none))
        (λ a n. (nt_success a.status ≡ false) × Changes r 0 (one r (pool p)) m n)
        (capture_path k i p m)
unfolding capture_path capture_user_buffer
capture_path-Changes r k faults i p m h = grind (arith, faults.reads)

free_captured-Changes :
    (r : Resource) (o : Option ℕ) (m : Machine)
    → Goes
        (λ _ n.
          Changes r 0 (held_capture r o) m n
          × (last_permissions n.trace ≡ last_permissions m.trace))
        (λ _ _. ⊥)
        (free_captured_buffer o m)
unfolding free_captured_buffer
free_captured-Changes r none m = ground arith
free_captured-Changes r (some c) m = ground arith

apply_permissions_lem :
    (r : Resource) (k : Kernel) (faults : FaultsFail k) (i : SetPermissionsIn) (text : List ℕ)
    (p : ℕ) (list : List Permission) (m : Machine)
    → 0 < i.path_length
    → Ends
        (λ a n.
          ((nt_success a.status ≡ false) × Changes r 0 (one r (pool p)) m n)
          ⊎ ((nt_success a.status ≡ true)
              × (last_permissions n.trace ≡ some (terminated text i.path_length, list))
              × Changes r 0 0 m n))
        (apply_permissions k i text p list m)
unfolding apply_permissions
apply_permissions_lem r k faults i text p list m h =
    grind (arith, capture_path-Changes r k faults i p, free_captured-Changes r)

convert_permissions_lem :
    (r : Resource) (k : Kernel) (number p : ℕ) (entry : ℕ → Permission) (m : Machine)
    → k.allocate_pool m.trace (number * 8) ≡ some p
    → Goes
        (λ o n.
          ((o ≡ none) × Changes r 0 0 m n)
          ⊎ ((o ≡ some (p, entries entry 0 number))
              × (number ≤ 255)
              × (all_allowed (entries entry 0 number) ≡ true)
              × Changes r (one r (pool p)) 0 m n))
        (λ _ _. ⊥)
        (convert_permissions k number entry m)
unfolding convert_permissions
convert_permissions_lem r k number p entry m e = grind (arith, convert_loop_lem entry 0 number)

-- A request to set permissions ends, where exceptions carry error codes and the driver's copy of
-- the entries is the allocation `p`. Either its status is a failure and nothing is held; or there
-- are at most 255 entries, all of them inside the input buffer and with allowed masks only, the
-- store was given exactly these with the path, and the copy `p` is still held: the handler does
-- not free it on success.
pub set_permissions_lem :
    (r : Resource) (k : Kernel) (i : SetPermissionsIn) (text : List ℕ) (in_len out_len p : ℕ)
    (m : Machine)
    → FaultsFail k
    → k.allocate_pool m.trace (i.number_permissions * 8) ≡ some p
    → Ends
        (λ a n.
          ((nt_success a.status ≡ false) × Changes r 0 0 m n)
          ⊎ ((nt_success a.status ≡ true)
              × (i.number_permissions ≤ 255)
              × (in_len ≡ 16 + 8 * i.number_permissions)
              × (all_allowed (entries i.entry 0 i.number_permissions) ≡ true)
              × (last_permissions n.trace
                  ≡ some (terminated text i.path_length, entries i.entry 0 i.number_permissions))
              × Changes r (one r (pool p)) 0 m n))
        (ioctl_store_set_permissions k i text in_len out_len m)
unfolding ioctl_store_set_permissions
set_permissions_lem r k i text in_len out_len p m faults e = grind (
  arith,
  convert_permissions_lem r k i.number_permissions p i.entry m e,
  apply_permissions_lem r k faults i text p (entries i.entry 0 i.number_permissions),
)

-- A buffer that is shorter than the structure.
pub set_permissions_too_short :
    (k : Kernel) (i : SetPermissionsIn) (text : List ℕ) (in_len out_len : ℕ) (m : Machine)
    → in_len < set_permissions_in_size
    → ioctl_store_set_permissions k i text in_len out_len m
      ≡ exit (reply status_invalid_buffer_size) m
unfolding ioctl_store_set_permissions
set_permissions_too_short k i text in_len out_len m h = ground arith
