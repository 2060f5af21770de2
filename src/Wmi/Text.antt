-- ===== src/Wmi/Text.antt =====
-- The strings of src/xeniface/wmi.c: GetUTF8String turns the UTF-16 of a WMI buffer into UTF-8 for
-- the store, in a block of pool memory.
use qubes_vmm_xen_win_pvdriv.Common.{
  Bool, List, Option, [], drop, if◌then◌else◌, leb, length, none, some, suc, take, zero, ℕ, ◌%◌,
  ◌++◌, ◌+◌, ◌^◌, ◌∷◌,
}
use qubes_vmm_xen_win_pvdriv.Machine.{
  Cmd, Kernel, acquire, asked, free, history, pool, pure, record_event, undefined, ◌>>=◌, ◌>>◌,
}
use qubes_vmm_xen_win_pvdriv.Wmi.Unicode.{count_utf8_from_utf32, utf32_from_utf16, utf8_from_utf32}
pub mod Blocks
pub mod Conversion

-- The first loop of GetUTF8String: the USHORT bytecount, or a read behind the string. The fuel is
-- the number of units, of which each round takes one or two.
unfoldable pub count_utf8_loop : (fuel : ℕ) → List ℕ → (bytecount : ℕ) → Option ℕ
count_utf8_loop fuel [] n = some n
count_utf8_loop zero (w ∷ s) n = none
count_utf8_loop (suc fuel) (w ∷ s) n = elim (utf32_from_utf16 (w ∷ s)) [
  | none ↦ none
  | some (u, rest) ↦ count_utf8_loop fuel rest ((n + count_utf8_from_utf32 u) % 2 ^ 16)
]

-- Bytes written into a block, or behind its end.
unfoldable pub write_at : (position : ℕ) → (bytes block : List ℕ) → Option (List ℕ)
write_at position bytes block =
    if leb (position + length bytes) (length block)
    then some (take position block ++ (bytes ++ drop (position + length bytes) block))
    else none

-- The second loop: `block` is the memory from Buffer to the end of the allocation.
unfoldable pub write_utf8_loop :
    (fuel : ℕ) → List ℕ → (bytecount : ℕ) → (block : List ℕ) → Option (List ℕ)
write_utf8_loop fuel [] n block = some block
write_utf8_loop zero (w ∷ s) n block = none
write_utf8_loop (suc fuel) (w ∷ s) n block = elim (utf32_from_utf16 (w ∷ s)) [
  | none ↦ none
  | some (u, rest) ↦ elim (write_at n (utf8_from_utf32 u) block) [
    | none ↦ none
    | some block' ↦ write_utf8_loop fuel rest ((n + length (utf8_from_utf32 u)) % 2 ^ 16) block'
  ]
]

-- Memory of which nothing is read before it is written.
unfoldable pub blank : ℕ → List ℕ
blank zero = []
blank (suc n) = 0 ∷ blank n

-- UTF8_STRING: the allocation, Length, and the bytes from Buffer on.
pub record Utf8String : Type 0 where
  pub address : ℕ
  pub length_field : ℕ
  pub buffer : List ℕ

-- After the second loop.
unfoldable pub utf8_written : (p n : ℕ) → Option (List ℕ) → Cmd (Option Utf8String)
utf8_written p n none = λ _. undefined
utf8_written p n (some block) =
    pure (some (record { address = p; length_field = n; buffer = block }))

-- After the allocation. `none` is STATUS_INSUFFICIENT_RESOURCES.
unfoldable pub utf8_allocated : List ℕ → (n : ℕ) → Option ℕ → Cmd (Option Utf8String)
unfolding utf8_written
utf8_allocated s n none = do record_event asked; pure none
utf8_allocated s n (some p) = do
  record_event (acquire (pool p))
  utf8_written p n (write_utf8_loop (length s) s 0 (blank (n + 2)))

-- After the first loop: sizeof(UTF8_STRING) is 4, and Buffer has offset 2.
unfoldable pub utf8_counted : Kernel → List ℕ → Option ℕ → Cmd (Option Utf8String)
unfolding utf8_allocated
utf8_counted k s none = λ _. undefined
utf8_counted k s (some n) = do t ← history; utf8_allocated s n (k.allocate_pool t (4 + n))

unfoldable pub get_utf8_string : Kernel → (ustring : List ℕ) → Cmd (Option Utf8String)
unfolding utf8_counted
get_utf8_string k s = utf8_counted k s (count_utf8_loop (length s) s 0)

unfoldable pub free_utf8_string : Utf8String → Cmd (Unit {0})
free_utf8_string v = free v.address
