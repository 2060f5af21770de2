-- ===== src/Store/Strings.antt =====
-- Strings in memory, as lists of bytes: __IsValidStr, strlen and __MultiSzLen of
-- src/xeniface/ioctl_store.c, and the __IsValidStr of src/xeniface/ioctls.c.
pub mod Laws
use qubes_vmm_xen_win_pvdriv.Common.{
  Bool, List, Option, [], false, if◌then◌else◌, leb, length, none, some, suc, true, zero, ℕ, ◌&&◌,
  ◌%◌, ◌+◌, ◌==◌, ◌^◌, ◌||◌, ◌∷◌,
}

-- isprint of the C locale.
abbrev pub isprint : ℕ → Bool
isprint c = leb 0x20 c && leb c 0x7E

-- The argument holds the `Len` bytes from `Str` on.
unfoldable pub is_valid_str : List ℕ → Bool
is_valid_str [] = false
is_valid_str (zero ∷ cs) = true
is_valid_str (suc c ∷ cs) = if isprint (suc c) then is_valid_str cs else false

-- The one of src/xeniface/ioctls.c lets line ends pass.
unfoldable pub is_valid_log_str : List ℕ → Bool
is_valid_log_str [] = false
is_valid_log_str (zero ∷ cs) = true
is_valid_log_str (suc c ∷ cs) =
    if suc c == b'\n' || suc c == b'\r' || isprint (suc c) then is_valid_log_str cs else false

-- The string that starts at a pointer: the bytes before the first NUL. The end of the list stands
-- for a NUL, which ends every string of the store interface.
unfoldable pub c_string : List ℕ → List ℕ
c_string [] = []
c_string (zero ∷ cs) = []
c_string (suc c ∷ cs) = suc c ∷ c_string cs

unfoldable pub strlen : List ℕ → ℕ
unfolding c_string
strlen s = length (c_string s)

-- Length, a ULONG, and *Count of __MultiSzLen.
pub record MultiSz : Type 0 where
  pub size : ℕ
  pub count : ℕ

-- `if (*Count) ++(*Count);`
abbrev next_count : ℕ → ℕ
next_count n = if n == 0 then n else n + 1

-- The loops of __MultiSzLen: `at_start` says that `while (*Str)` comes next. `none` is a read
-- behind the end of the memory.
unfoldable pub multi_sz_loop : (at_start : Bool) → List ℕ → MultiSz → Option MultiSz
multi_sz_loop at_start [] r = none
multi_sz_loop true (zero ∷ cs) r = some r
multi_sz_loop false (zero ∷ cs) r =
    multi_sz_loop true cs (record { size = (r.size + 1) % 2 ^ 32; count = next_count r.count })
multi_sz_loop at_start (suc c ∷ cs) r =
    multi_sz_loop false cs (record { size = (r.size + 1) % 2 ^ 32; count = r.count })

unfoldable pub multi_sz_len : List ℕ → Option MultiSz
unfolding multi_sz_loop
multi_sz_len s = multi_sz_loop false s (record { size = 0; count = 0 })

-- Whether a format of Printf has a conversion, or ends within one: a `%` that no other `%` follows.
-- A conversion reads an argument that a call with the format alone does not pass.
pub conversion_from : (behind_percent : Bool) → List ℕ → Bool
conversion_from behind_percent [] = behind_percent
conversion_from true (c ∷ cs) = if c == b'%' then conversion_from false cs else true
conversion_from false (c ∷ cs) = conversion_from (c == b'%') cs

unfoldable pub has_conversion : List ℕ → Bool
unfolding conversion_from
has_conversion f = conversion_from false f
