-- ===== src/Store/Values/Handlers.antt =====
-- The handlers of values, on every path.
use qubes_vmm_xen_win_pvdriv.Common.{
  All, List, [], arith, drop, false, if◌then◌else◌, length, length-append, none, suc, take, true,
  zero, ℕ, ◌&&◌, ◌++◌, ◌+◌, ◌==◌, ◌∷◌, ◌≡◌, ◌≢◌, ◌≤◌, ◌<◌, ◌^◌, Bool,
}
use qubes_vmm_xen_win_pvdriv.Machine.{
  Changes, Ends, Kernel, Machine, Output, Resource, Synchronous, Trace, exit, nt_success, ok,
  out_bytes, reply, status_pending, status_success, store_printf, undefined,
}
use qubes_vmm_xen_win_pvdriv.Store.Strings.{
  c_string, has_conversion, is_valid_str, multi_sz_len, strlen,
}
use qubes_vmm_xen_win_pvdriv.Store.Strings.Laws.{
  IsName, Printable, c_string-append, drop-append, encode, is_valid_str-append, length-encode,
  multi_sz_len-encode, take-encode,
}
use qubes_vmm_xen_win_pvdriv.Store.Values.{
  free_value, ioctl_store_directory, ioctl_store_read, ioctl_store_remove, ioctl_store_write,
  reply_value, store_buffer,
}

-- The bytes that a handler wrote to the system buffer.
abbrev pub written : Output → ℕ
written (out_bytes b) = length b
written _ = 0

length-take-le : {A : Type 0} (n : ℕ) (xs : List A) → length (take n xs) ≤ n
length-take-le zero xs = omega arith
length-take-le (suc n) [] = omega arith
length-take-le (suc n) (x ∷ xs) = omega (arith, length-take-le n xs)

-- Every read ends, gives the value back to the store, leaves the lists alone, and writes no more
-- than OutLen bytes.
pub store_read_lem :
    (r : Resource) (k : Kernel) (buffer : List ℕ) (out_len : ℕ) (m : Machine)
    → Ends
        (λ a n. Changes r 0 0 m n × (written a.output ≤ out_len))
        (ioctl_store_read k buffer out_len m)
unfolding ioctl_store_read store_buffer reply_value free_value
store_read_lem r k buffer out_len m = grind (arith, length-take-le, length-append)

-- Of a buffer with a printable path and a printable text, each with its NUL, the text is passed
-- to the store as the format of what to write below that path, and the status is the store's.
-- With a conversion in the text the behaviour is undefined.
pub store_write_lem :
    (k : Kernel) (path text rest : List ℕ) (m : Machine)
    → Printable path
    → Printable text
    → ioctl_store_write k (path ++ 0 ∷ (text ++ 0 ∷ rest)) 0 m ≡ (
        if has_conversion text
        then undefined
        else if nt_success (k.store_printf m.trace path text)
        then ok
            (reply (k.store_printf m.trace path text))
            (record m { trace = store_printf path text ∷ m.trace })
        else exit
            (reply (k.store_printf m.trace path text))
            (record m { trace = store_printf path text ∷ m.trace }))
unfolding ioctl_store_write strlen
store_write_lem k path text rest m hp ht =
    let tail : List ℕ = text ++ 0 ∷ rest in
    ground (
      arith,
      is_valid_str-append path tail hp,
      is_valid_str-append text rest ht,
      c_string-append path tail hp,
      c_string-append text rest ht,
      drop-append path tail,
      length-append path (0 ∷ tail),
    )

-- A write whose buffer is not a pair of valid strings fails, makes no call and changes nothing.
pub store_write_invalid :
    (k : Kernel) (buffer : List ℕ) (out_len : ℕ) (m : Machine)
    → (is_valid_str buffer && is_valid_str (drop (strlen buffer + 1) buffer)) ≡ false
    → Ends (λ a n. (nt_success a.status ≡ false) × (n ≡ m)) (ioctl_store_write k buffer out_len m)
unfolding ioctl_store_write
store_write_invalid k buffer out_len m h = grind arith

-- For a printable path whose directory the store answers with the memory of a list of at least
-- one name, and a caller whose buffer, of fewer than 2 ^ 32 bytes, is large enough for that list,
-- IoctlStoreDirectory succeeds with exactly the list and its length, and gives the memory back to
-- the store.
pub store_directory_lem :
    (r : Resource) (k : Kernel) (path : List ℕ) (s : List ℕ) (ss : List (List ℕ))
    (rest after : List ℕ) (out_len : ℕ) (m : Machine)
    → Printable path
    → All IsName (s ∷ ss)
    → nt_success (k.store_directory m.trace path).status ≡ true
    → (k.store_directory m.trace path).out.1 ≡ encode (s ∷ ss) ++ after
    → length (encode (s ∷ ss)) ≤ out_len
    → out_len < 2 ^ 32
    → Ends
        (λ a n.
          Changes r 0 0 m n
          × (a.status ≡ status_success)
          × (a.information ≡ length (encode (s ∷ ss)))
          × (a.output ≡ out_bytes (encode (s ∷ ss))))
        (ioctl_store_directory k (path ++ 0 ∷ rest) out_len m)
unfolding ioctl_store_directory store_buffer reply_value free_value
store_directory_lem r k path s ss rest after out_len m hp hs good memory room long = grind (
  arith,
  is_valid_str-append path rest hp,
  c_string-append path rest hp,
  length-append path (0 ∷ rest),
  multi_sz_len-encode s ss after hs (omega (arith, room, long)),
  take-encode s ss after,
  length-encode (s ∷ ss),
)

-- The store ends each list that it hands out.
pub record ListsEnd (k : Kernel) : Type 0 where
  pub ends : (t : Trace) (path : List ℕ) → multi_sz_len (k.store_directory t path).out.1 ≢ none

pub store_directory-Changes :
    (r : Resource) (k : Kernel) (lists : ListsEnd k) (buffer : List ℕ) (out_len : ℕ) (m : Machine)
    → Ends
        (λ a n. ((a.status == status_pending) ≡ false) × Changes r 0 0 m n)
        (ioctl_store_directory k buffer out_len m)
unfolding ioctl_store_directory store_buffer reply_value free_value
store_directory-Changes r k lists buffer out_len m =
    grind (arith, lists.ends m.trace (c_string buffer))

-- A buffer of IoctlStoreWrite whose text has a conversion.
abbrev pub writes_conversion : (buffer : List ℕ) → Bool
writes_conversion buffer = has_conversion (c_string (drop (strlen buffer + 1) buffer))

pub store_write-Changes :
    (r : Resource) (k : Kernel) (sync : Synchronous k) (buffer : List ℕ) (out_len : ℕ) (m : Machine)
    → writes_conversion buffer ≡ false
    → Ends
        (λ a n. ((a.status == status_pending) ≡ false) × Changes r 0 0 m n)
        (ioctl_store_write k buffer out_len m)
unfolding ioctl_store_write
store_write-Changes r k sync buffer out_len m h = grind (arith, sync.prints, h)

pub store_remove-Changes :
    (r : Resource) (k : Kernel) (sync : Synchronous k) (buffer : List ℕ) (out_len : ℕ) (m : Machine)
    → Ends
        (λ a n. ((a.status == status_pending) ≡ false) × Changes r 0 0 m n)
        (ioctl_store_remove k buffer out_len m)
unfolding ioctl_store_remove
store_remove-Changes r k sync buffer out_len m = grind (arith, sync.removals)

pub store_read-Changes :
    (r : Resource) (k : Kernel) (buffer : List ℕ) (out_len : ℕ) (m : Machine)
    → Ends
        (λ a n. ((a.status == status_pending) ≡ false) × Changes r 0 0 m n)
        (ioctl_store_read k buffer out_len m)
unfolding ioctl_store_read store_buffer reply_value free_value
store_read-Changes r k buffer out_len m = grind arith
