-- ===== src/XenControl/Calls/Requests.antt =====
-- What the library keeps from call to call: its request IDs, its lock and its memory.
use qubes_vmm_xen_win_pvdriv.Common.{
  Bool, List, Option, Option-cases, [], ap, arith, false, if◌then◌else◌, inl, inr, length,
  length-append, ltb, refl, some, true, ℕ, ◌*◌, ◌++◌, ◌+◌, ◌<◌, ◌^◌, ◌∙◌, ◌∷◌, ◌≡◌, ◌≤◌,
}
use qubes_vmm_xen_win_pvdriv.XenControl.Session.{
  CriticalSection, entered, misused, enter_lock, leave_lock, GnttabRequest, IoAnswer, Win32, XcRun,
  XenControl, allocated, device_call, dword, enter, heap_overflow, request_size, with_device,
}
use qubes_vmm_xen_win_pvdriv.XenControl.Gnttab.{
  address_of, find_request, gnttab_answer, if_given, map_call, map_io, pages_of, pending_error,
  permit_call, permit_io, remove_request, two_blocks, with_blocks, xc_gnttab_map_foreign_pages,
  xc_gnttab_permit_foreign_access,
}
use qubes_vmm_xen_win_pvdriv.XenControl.Calls.{after}
use qubes_vmm_xen_win_pvdriv.Machine.{Output}
use qubes_vmm_xen_win_pvdriv.Dispatch.{Ioctl}
use qubes_vmm_xen_win_pvdriv.XenControl.Store.{xc_store_set_permissions, xc_store_write}
use qubes_vmm_xen_win_pvdriv.Gnttab.Grant.{permit_out_size}
use qubes_vmm_xen_win_pvdriv.Gnttab.ForeignMap.{map_in_size_for, references_offset}
use qubes_vmm_xen_win_pvdriv.Store.Permissions.{Permission}

-- The IDs ascend strictly, from `low` on, and are below `high`.
abbrev pub Ascending : (low high : ℕ) → List GnttabRequest → Type 0
Ascending low high [] = low ≤ high
Ascending low high (r ∷ rs) = (low ≤ r.id) × Ascending (r.id + 1) high rs

-- After `n` calls: the IDs of the list ascend strictly and are below that of the next request, the
-- lock is free, and the blocks that malloc gave and free did not get are the context and the
-- listed requests.
pub record Sound {D : Type 0} (n : ℕ) (x : XenControl D) : Type 0 where
  pub ids : Ascending 1 x.request_id x.request_list
  pub counter : x.request_id ≤ n + 1
  pub lock_free : x.request_list_lock ≡ entered 0
  pub blocks : x.allocations ≡ 1 + length x.request_list

Ascending-from :
    (low low' high : ℕ) (l : List GnttabRequest)
    → low ≤ low'
    → Ascending low' high l
    → Ascending low high l
Ascending-from low low' high [] h a = omega arith
Ascending-from low low' high (r ∷ rs) h a = (omega (arith, a.0), a.1)

Ascending-append :
    (low high address : ℕ) (l : List GnttabRequest)
    → Ascending low high l
    → Ascending low (high + 1) (l ++ record { id = high; address = address } ∷ [])
Ascending-append low high p [] a = (a, omega arith)
Ascending-append low high p (r ∷ rs) a = (a.0, Ascending-append (r.id + 1) high p rs a.1)

pub Ascending-remove :
    (low high target : ℕ) (l : List GnttabRequest)
    → Ascending low high l
    → Ascending low high (remove_request target l)
unfolding remove_request
Ascending-remove low high target [] a = a
Ascending-remove low high target (r ∷ rs) a =
    ground
      (arith, Ascending-from low (r.id + 1) high rs, Ascending-remove (r.id + 1) high target rs)

-- The request that FindRequest finds is the one that RemoveEntryList takes off.
pub length-remove_request :
    (target : ℕ) (l : List GnttabRequest) (r : GnttabRequest)
    → find_request target l ≡ some r
    → length (remove_request target l) + 1 ≡ length l
unfolding find_request remove_request
length-remove_request target [] r q = cc
length-remove_request target (s ∷ rs) r q = ground (arith, length-remove_request target rs r)

-- What one call does to the library's own state.
abbrev Keeps : {D : Type 0} → XenControl D → XenControl D → Type 0
Keeps x y =
    (y.request_id ≡ x.request_id)
    × (y.request_list ≡ x.request_list)
    × (y.request_list_lock ≡ x.request_list_lock)
    × (y.allocations ≡ x.allocations)

pub Keeps-Sound :
    {D : Type 0} (n : ℕ) (x y : XenControl D) → Keeps x y → Sound n x → Sound (n + 1) y
Keeps-Sound n x y (i, l, k, b) s = record {
  ids = rw (i, l) s.ids;
  counter = omega (arith, i, s.counter);
  lock_free = k ∙ s.lock_free;
  blocks = rw (b, l) s.blocks;
}

pub device_call-Keeps :
    {D A : Type 0} (w : Win32 D) (read : Output → Option A) (code : Ioctl) (i o : ℕ)
    (x y : XenControl D)
    → after (device_call w read code i o x) ≡ some y
    → Keeps x y
unfolding after device_call
device_call-Keeps w read code i o x y q = ground (arith, q)

pub write-Keeps :
    {D : Type 0} (w : Win32 D) (path text : List ℕ) (x y : XenControl D)
    → after (xc_store_write w path text x) ≡ some y
    → Keeps x y
unfolding after xc_store_write device_call
write-Keeps w path text x y q = ground (arith, q)

pub set_permissions-Keeps :
    {D : Type 0} (w : Win32 D) (p : ℕ) (path : List ℕ) (n : ℕ) (entry : ℕ → Permission)
    (x y : XenControl D)
    → after (xc_store_set_permissions w p path n entry x) ≡ some y
    → Keeps x y
unfolding after xc_store_set_permissions device_call
set_permissions-Keeps w p path n entry x y q = ground (arith, q)

-- What a request that the driver keeps pending adds, or nothing.
pub data Gains {D : Type 0} (x y : XenControl D) : Type 0 where
  keeps : Keeps x y → Gains x y
  gains :
      (p : ℕ)
      → y.request_id ≡ dword (x.request_id + 1)
      → y.request_list ≡ x.request_list ++ record { id = x.request_id; address = p } ∷ []
      → y.request_list_lock ≡ x.request_list_lock
      → y.allocations ≡ x.allocations + 1
      → Gains x y

pub leave_lock-enter_lock : (l : CriticalSection) → leave_lock (enter_lock l) ≡ l
unfolding leave_lock enter_lock
leave_lock-enter_lock (entered n) = refl
leave_lock-enter_lock misused = refl

-- `z` is the state with the lock and both blocks.
gnttab_answer-Gains :
    {D A : Type 0} (w : Win32 D) (p : ℕ) (out : A) (a : IoAnswer) (x y z : XenControl D)
    → z.request_id ≡ x.request_id
    → z.request_list ≡ x.request_list
    → z.request_list_lock ≡ enter_lock x.request_list_lock
    → z.allocations ≡ x.allocations + 2
    → after (gnttab_answer w p out a z) ≡ some y
    → Gains x y
unfolding after
gnttab_answer-Gains w p out a x y z i l k b q =
    let left = leave_lock-enter_lock x.request_list_lock in
    elim (Option-cases (pending_error w a)) [
      | inl n ↦ gains p (ground arith) (ground arith) (ground (arith, left)) (ground arith)
      | inr (e, s) ↦ keeps (ground (arith, left))
    ]

-- The two blocks: the rest of the function runs only with both.
if_given-Gains :
    {D A : Type 0} (w : Win32 D) (b r : Bool) (go : XenControl D → XcRun D A) (x y : XenControl D)
    → ((z : XenControl D)
        → z.request_id ≡ x.request_id
        → z.request_list ≡ x.request_list
        → z.request_list_lock ≡ enter_lock x.request_list_lock
        → z.allocations ≡ x.allocations + 2
        → after (go z) ≡ some y
        → Gains x y)
    → after (if_given w b r go (allocated r (allocated b (enter x)))) ≡ some y
    → Gains x y
unfolding after
if_given-Gains w true true go x y h q =
    h (allocated true (allocated true (enter x))) refl refl refl (omega arith) q
if_given-Gains w true false go x y h q =
    keeps (ground (arith, q, leave_lock-enter_lock x.request_list_lock))
if_given-Gains w false true go x y h q =
    keeps (ground (arith, q, leave_lock-enter_lock x.request_list_lock))
if_given-Gains w false false go x y h q =
    keeps (ground (arith, q, leave_lock-enter_lock x.request_list_lock))

with_blocks-Gains :
    {D A : Type 0} (w : Win32 D) (size : ℕ) (go : XenControl D → XcRun D A) (x y : XenControl D)
    → ((z : XenControl D)
        → z.request_id ≡ x.request_id
        → z.request_list ≡ x.request_list
        → z.request_list_lock ≡ enter_lock x.request_list_lock
        → z.allocations ≡ x.allocations + 2
        → after (go z) ≡ some y
        → Gains x y)
    → after (with_blocks w size go x) ≡ some y
    → Gains x y
with_blocks-Gains w size go x y h q =
    let given = two_blocks w size request_size (enter x) in
    if_given-Gains w given.0 given.1 go x y h q

pub permit-Gains :
    {D : Type 0} (w : Win32 D) (dom pages offset port flags : ℕ) (x y : XenControl D)
    → after (xc_gnttab_permit_foreign_access w dom pages offset port flags x) ≡ some y
    → Gains x y
unfolding xc_gnttab_permit_foreign_access permit_call
permit-Gains w dom pages offset port flags x y =
    with_blocks-Gains w (permit_out_size pages) (permit_call w dom pages offset port flags) x y λ z.
      let (a, d) = permit_io w dom pages offset port flags z in
      let out = pages_of w pages a.output in gnttab_answer-Gains w out.0 out a x y (with_device z d)

-- A function that returned made no write behind a block.
returned_within :
    {D A : Type 0} (b : Bool) (r : XcRun D A) (y : XenControl D)
    → after (if b then heap_overflow else r) ≡ some y
    → after r ≡ some y
unfolding after
returned_within true r y q = cc
returned_within false r y q = q

pub map-Gains :
    {D : Type 0} (w : Win32 D) (dom pages : ℕ) (refs : List ℕ) (offset port flags : ℕ)
    (x y : XenControl D)
    → after (xc_gnttab_map_foreign_pages w dom pages refs offset port flags x) ≡ some y
    → Gains x y
unfolding xc_gnttab_map_foreign_pages map_call
map-Gains w dom pages refs offset port flags x y =
    with_blocks-Gains w (map_in_size_for pages) (map_call w dom pages refs offset port flags) x y
      λ z i l k b q.
        let (a, d) = map_io w dom pages refs offset port flags z in
        let out = address_of w a.output in
        gnttab_answer-Gains w out out a x y (with_device z d) i l k b (
          returned_within (ltb (map_in_size_for pages) (references_offset + 4 * pages))
            (gnttab_answer w out out a (with_device z d)) y q)

pub Gains-Sound :
    {D : Type 0} (n : ℕ) (x y : XenControl D)
    → n + 2 < 2 ^ 32
    → Gains x y
    → Sound n x
    → Sound (n + 1) y
Gains-Sound n x y small (keeps k) s = Keeps-Sound n x y k s
Gains-Sound n x y small (gains p i l k b) s = record {
  ids =
      let next : y.request_id ≡ x.request_id + 1 = omega (arith, i, s.counter, small) in
      rw (next, l) (Ascending-append 1 x.request_id p x.request_list s.ids);
  counter = omega (arith, i, s.counter);
  lock_free = k ∙ s.lock_free;
  blocks = omega (
    arith,
    b,
    s.blocks,
    ap length l,
    length-append x.request_list (record { id = x.request_id; address = p } ∷ []),
  );
}
