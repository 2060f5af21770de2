-- ===== src/Distribution.antt =====
-- The entries below "drivers" in the store by which src/xeniface/fdo.c announces the driver:
-- FdoSetDistribution, FdoClearDistribution and __FdoMatchDistribution. XENBUS_STORE joins the prefix
-- "drivers" and a node with a slash. The version numbers and the vendor come from the build.
use qubes_vmm_xen_win_pvdriv.Ansi.{
  isalnum, strtok_r, stricmp_equal, AnsiString, fdo_multi_sz_to_upcase_ansi, fdo_free_ansi,
}
use qubes_vmm_xen_win_pvdriv.Common.{
  Bool, List, Option, [], false, if◌then◌else◌, leb, length, ltb, map, none, reverse, some, suc,
  true, zero, ℕ, ◌%◌, ◌&&◌, ◌*◌, ◌++◌, ◌+◌, ◌-◌, ◌/◌, ◌<◌, ◌==◌, ◌^◌, ◌||◌, ◌∷◌,
}
use qubes_vmm_xen_win_pvdriv.Machine.{
  Answer, Cmd, Kernel, NtStatus, acquire, asked, free, history, nt_success, pool, pure,
  record_event, release, status_success, status_unsuccessful, store_printf, store_remove,
  store_value, undefined, ◌>>=◌, ◌>>◌,
}
use qubes_vmm_xen_win_pvdriv.Store.Strings.{c_string}
pub mod Announcement
pub mod Ledger

abbrev maxnamelen : ℕ
maxnamelen = 128

-- VENDOR_NAME_STR, "%u.%u.%u" of the version, and ATTRIBUTES. The vendor fits the array of
-- MAXNAMELEN bytes with its NUL, so that RtlStringCbPrintfA does not truncate it and its ASSERT holds.
pub record Build : Type 0 where
  pub vendor : List ℕ
  pub version : List ℕ
  pub attributes : List ℕ
  pub short : length vendor < maxnamelen

-- "XENIFACE"
abbrev pub product : List ℕ
product = b'X' ∷ b'E' ∷ b'N' ∷ b'I' ∷ b'F' ∷ b'A' ∷ b'C' ∷ b'E' ∷ []

-- "drivers"
abbrev pub drivers : List ℕ
drivers = b'd' ∷ b'r' ∷ b'i' ∷ b'v' ∷ b'e' ∷ b'r' ∷ b's' ∷ []

abbrev pub drivers_node : List ℕ → List ℕ
drivers_node name = drivers ++ b'/' ∷ name

-- "%u" of a number below 1000.
abbrev pub decimal : ℕ → List ℕ
decimal n =
    if ltb n 10
    then (b'0' + n) ∷ []
    else if ltb n 100
    then (b'0' + n / 10) ∷ (b'0' + n % 10) ∷ []
    else (b'0' + n / 100) ∷ (b'0' + n / 10 % 10) ∷ (b'0' + n % 10) ∷ []

-- The vendor, with `_` for what is no letter and no digit.
abbrev pub vendor_token : List ℕ → List ℕ
vendor_token = map λ c. if isalnum c then c else b'_'

-- "%s %s %u.%u.%u %s"
abbrev pub announcement : Build → List ℕ
announcement b =
    vendor_token b.vendor ++ b' ' ∷ (product ++ b' ' ∷ (b.version ++ b' ' ∷ b.attributes))

-- MAXIMUM_INDEX
abbrev pub maximum_index : ℕ
maximum_index = 255

abbrev pub status_object_name_not_found : NtStatus
status_object_name_not_found = 0xC000_0034

-- How the loop over the indexes ends: at `update` with an index, or at `fail1` or `fail2`.
pub data Search : Type 0 where
  free_index : ℕ → Search
  search_failed : NtStatus → Search

-- `left` is the number of indexes from `index` to the last one.
unfoldable pub search_index : Kernel → (left index : ℕ) → Cmd Search
search_index k zero index = pure (search_failed status_unsuccessful)
search_index k (suc left) index =
    let rest : Cmd Search = search_index k left (index + 1) in
    do
      t ← history
      let a : Answer (ℕ × List ℕ) = k.store_read t (drivers_node (decimal index))
      if nt_success a.status
          then (do
            record_event (acquire (store_value a.out.0))
            record_event (release (store_value a.out.0))
            rest)
          else (do
            record_event asked
            if a.status == status_object_name_not_found
                then pure (free_index index)
                else pure (search_failed a.status))

-- At `update`, or at the labels of failure.
unfoldable pub announce : Build → Search → Cmd NtStatus
announce b (search_failed status) = pure status
announce b (free_index index) = do
  record_event (store_printf (drivers_node (decimal index)) (announcement b))
  pure status_success

unfoldable pub fdo_set_distribution : Kernel → Build → Cmd NtStatus
fdo_set_distribution k b = search_index k (maximum_index + 1) 0 >>= announce b

-- The loop over VENDOR_NAME_STR: a vendor that is longer passes.
unfoldable pub match_vendor : (text vendor : List ℕ) → Bool
match_vendor [] vendor = true
match_vendor (t ∷ ts) [] = false
match_vendor (t ∷ ts) (v ∷ vs) = (if isalnum t then v == t else v == b'_') && match_vendor ts vs

unfoldable pub fdo_match_distribution : Build → (buffer : List ℕ) → Bool
unfolding strtok_r match_vendor stricmp_equal
fdo_match_distribution b buffer = elim (strtok_r buffer) [
  | none ↦ false
  | some v ↦ elim (strtok_r v.1) [
    | none ↦ false
    | some p ↦ match_vendor b.vendor v.0 && stricmp_equal p.0 product
  ]
]

-- The body of the loop over the distributions.
clear_one : Kernel → Build → (name : List ℕ) → Cmd (Unit {0})
unfolding fdo_match_distribution
clear_one k b name = do
  t ← history
  let a : Answer (ℕ × List ℕ) = k.store_read t (drivers_node name)
  if nt_success a.status
      then (do
        record_event (acquire (store_value a.out.0))
        (if fdo_match_distribution b (c_string a.out.1)
            then record_event (store_remove (drivers_node name))
            else pure tt)
        record_event (release (store_value a.out.0)))
      else record_event asked

clear_loop : Kernel → Build → List AnsiString → Cmd (Unit {0})
unfolding clear_one
clear_loop k b [] = pure tt
clear_loop k b (s ∷ ss) = clear_one k b s.1 >> clear_loop k b ss

-- Distributions, from the directory; the store's buffer is given back.
distributions : Kernel → Cmd (Option (ℕ × List AnsiString))
unfolding fdo_multi_sz_to_upcase_ansi
distributions k = do
  t ← history
  let a : Answer (ℕ × List ℕ) = k.store_directory t drivers
  if nt_success a.status
      then (do
        record_event (acquire (store_value a.out.0))
        l ← fdo_multi_sz_to_upcase_ansi k a.out.1
        record_event (release (store_value a.out.0))
        pure l)
      else (do record_event asked; pure none)

unfoldable pub fdo_clear_distribution : Kernel → Build → Cmd (Unit {0})
unfolding distributions clear_loop fdo_free_ansi
fdo_clear_distribution k b = do
  l ← distributions k
  elim l [ none ↦ pure tt | some d ↦ clear_loop k b d.1 >> fdo_free_ansi d.0 d.1 ]
