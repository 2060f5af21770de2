-- ===== src/Examples/Stores.antt =====
-- The store handlers and the suspend handlers on the device of the examples.
use qubes_vmm_xen_win_pvdriv.Common.{
  List, [], arith, false, keep, length, not, refl, some, true, ℕ, ◌*◌, ◌++◌, ◌+◌, ◌-◌, ◌∷◌, ◌≡◌,
  ◌≤◌, ◌⊎◌,
}
use qubes_vmm_xen_win_pvdriv.Machine.{
  Changes, Conserves, Ends, event_object, last_permissions, nt_success, ok, one, out_bytes, pool,
  release, reply, status_not_found, status_success, store_printf, store_value, store_watch,
  zero_memory,
}
use qubes_vmm_xen_win_pvdriv.Examples.{
  kernel, kernel-Reliable, kernel_of-FaultsFail, machine, watch,
}
use qubes_vmm_xen_win_pvdriv.Store.Strings.{has_conversion, multi_sz_len}
use qubes_vmm_xen_win_pvdriv.Store.Strings.Laws.{encode, multi_sz_len-encode}
use qubes_vmm_xen_win_pvdriv.Store.Values.{ioctl_store_directory, ioctl_store_write}
use qubes_vmm_xen_win_pvdriv.Store.Values.Handlers.{store_directory_lem, store_write_lem}
use qubes_vmm_xen_win_pvdriv.Store.Permissions.{
  SetPermissionsIn, ioctl_store_set_permissions, terminated,
}
use qubes_vmm_xen_win_pvdriv.Store.Permissions.Handler.{all_allowed, entries, set_permissions_lem}
use qubes_vmm_xen_win_pvdriv.Store.Watches.{AddWatchIn, ioctl_store_remove_watch}
use qubes_vmm_xen_win_pvdriv.Store.Watches.Removal.{
  has_own_watch, own_watch, remove_watch_lem, remove_watch_of_foreign_last,
}

remove_watch_example :
    Ends
      (λ a n.
        Conserves (pool 10) machine n
        × (((a.status ≡ status_success)
              × (has_own_watch 10 7 machine.fdo.store_watch_list ≡ true)
              × (n.fdo ≡ record machine.fdo {
                store_watch_list = keep (λ c. not (own_watch 10 7 c)) machine.fdo.store_watch_list;
              }))
            ⊎ ((a.status ≡ status_not_found)
                × (has_own_watch 10 7 machine.fdo.store_watch_list ≡ false)
                × (n ≡ machine))))
      (ioctl_store_remove_watch kernel 10 8 0 7 machine)
remove_watch_example =
    remove_watch_lem (pool 10) kernel 10 7 machine kernel-Reliable refl (refl, (refl, tt))

-- The last watch belongs to file object 8, and 7 names it.
remove_watch_of_foreign_last_example :
    ioctl_store_remove_watch kernel 20 8 0 7 machine
    ≡ ok (reply status_success) (record machine {
      trace =
          release (pool 20)
          ∷ zero_memory 20
          ∷ release (event_object 22)
          ∷ release (store_watch 21)
          ∷ [];
    })
remove_watch_of_foreign_last_example =
    remove_watch_of_foreign_last kernel 20 7 machine (watch 10 7 ∷ []) (watch 20 8) kernel-Reliable
      refl refl (λ h. absurd (omega arith)) refl

abbrev add_watch_in : AddWatchIn
add_watch_in = record { path = 5000; path_length = 3; event = 9 }

store_write_example :
    ioctl_store_write kernel (b'a' ∷ 0 ∷ b'%' ∷ b'%' ∷ 0 ∷ []) 0 machine
    ≡ ok
        (reply status_success)
        (record machine { trace = store_printf (b'a' ∷ []) (b'%' ∷ b'%' ∷ []) ∷ [] })
unfolding has_conversion
store_write_example =
    store_write_lem kernel (b'a' ∷ []) (b'%' ∷ b'%' ∷ []) [] machine (refl, tt) (refl, (refl, tt))

abbrev names : List (List ℕ)
names = (b'c' ∷ []) ∷ []

store_directory_example :
    Ends
      (λ a n.
        Changes (store_value 100) 0 0 machine n
        × (a.status ≡ status_success)
        × (a.information ≡ length (encode ((b'a' ∷ b'b' ∷ []) ∷ names)))
        × (a.output ≡ out_bytes (encode ((b'a' ∷ b'b' ∷ []) ∷ names))))
      (ioctl_store_directory kernel (b'a' ∷ 0 ∷ []) 10 machine)
unfolding encode
store_directory_example =
    store_directory_lem (store_value 100) kernel (b'a' ∷ []) (b'a' ∷ b'b' ∷ []) names [] [] 10
      machine (refl, tt)
      ((omega arith, (omega arith, (omega arith, tt))), ((omega arith, (omega arith, tt)), tt)) refl
      refl (omega arith) (omega arith)

abbrev permissions_in : SetPermissionsIn
permissions_in = record {
  path = 5000;
  path_length = 3;
  number_permissions = 2;
  entry = λ n. (n, 3);
}

set_permissions_example :
    Ends
      (λ a n.
        ((nt_success a.status ≡ false) × Changes (pool 100) 0 0 machine n)
        ⊎ ((nt_success a.status ≡ true)
            × (2 ≤ 255)
            × (32 ≡ 16 + 8 * 2)
            × (all_allowed (entries permissions_in.entry 0 2) ≡ true)
            × (last_permissions n.trace
                ≡ some (terminated (b'a' ∷ b'b' ∷ b'c' ∷ []) 3, entries permissions_in.entry 0 2))
            × Changes (pool 100) (one (pool 100) (pool 100)) 0 machine n))
      (ioctl_store_set_permissions kernel permissions_in (b'a' ∷ b'b' ∷ b'c' ∷ []) 32 0 machine)
set_permissions_example =
    set_permissions_lem (pool 100) kernel permissions_in (b'a' ∷ b'b' ∷ b'c' ∷ []) 32 0 100 machine
      (kernel_of-FaultsFail true (some 7000)) refl

multi_sz_len_example :
    multi_sz_len (encode ((b'a' ∷ b'b' ∷ []) ∷ names) ++ b'z' ∷ [])
    ≡ some (record { size = length (encode ((b'a' ∷ b'b' ∷ []) ∷ names)) - 1; count = 0 })
unfolding encode
multi_sz_len_example =
    multi_sz_len-encode (b'a' ∷ b'b' ∷ []) names (b'z' ∷ [])
      ((omega arith, (omega arith, (omega arith, tt))), ((omega arith, (omega arith, tt)), tt))
      (omega arith)
