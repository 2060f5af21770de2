-- ===== src/Wmi/Buffer.antt =====
-- AccessWmiBuffer of src/xeniface/wmi.c, which lays the fields of a WMI block out in a buffer. The
-- arguments after BufferSize are a list of fields, and the pointers that it stores are its result.
-- An address is a number; a buffer does not reach the end of the address space.
use qubes_vmm_xen_win_pvdriv.Common.{
  Bool, List, Option, [], false, if◌then◌else◌, ltb, none, not, some, true, ℕ, ◌%◌, ◌+◌, ◌-◌, ◌^◌,
  ◌||◌, ◌∷◌,
}
pub mod Layout
pub mod Places

-- The types of one item: WMITYPECASE.
pub data WmiType : Type 0 where
  wmi_boolean wmi_sint8 wmi_uint8 wmi_sint16 wmi_uint16 : WmiType
  wmi_int32 wmi_uint32 wmi_sint64 wmi_uint64 : WmiType

-- sizeof(_type), which is _align too.
abbrev pub size_of : WmiType → ℕ
size_of wmi_boolean = 1
size_of wmi_sint8 = 1
size_of wmi_uint8 = 1
size_of wmi_sint16 = 2
size_of wmi_uint16 = 2
size_of wmi_int32 = 4
size_of wmi_uint32 = 4
size_of wmi_sint64 = 8
size_of wmi_uint64 = 8

-- A type, with the arguments that follow it. A string has its size only where the buffer is
-- written.
pub data Field : Type 0 where
  wmi_item : WmiType → Field
  wmi_string : (size : ℕ) → Field
  wmi_datetime : Field
  wmi_buffer : (size : ℕ) → Field
  wmi_offset : (inpos insize : ℕ) → Field
  wmi_string_offset : (inpos size : ℕ) → Field

-- `position += offset`
abbrev pub align : ℕ → ℕ → ℕ
align a position = position + (a - position % a) % a

-- The variables of the loop, and the pointer that the last field was given.
pub record Cursor : Type 0 where
  pub position : ℕ
  pub overflow : Bool
  pub pointer : Option ℕ

abbrev pub unless_overflow : Bool → ℕ → Option ℕ
unless_overflow true p = none
unless_overflow false p = some p

-- The extent `size` at `start`, where the position goes on behind it.
abbrev pub place_field : (endbuffer start size : ℕ) → (overflow : Bool) → Cursor
place_field endbuffer start size overflow =
    let o : Bool = overflow || ltb endbuffer (start + size) in
    record { position = start + size; overflow = o; pointer = unless_overflow o start }

abbrev pub furthest : ℕ → ℕ → ℕ
furthest position e = if ltb position e then e else position

-- A reader takes the size from the buffer: `memory` is its USHORT at an address.
abbrev pub counted_size :
    (readbuffer : Bool) → (memory : ℕ → ℕ) → (address size : ℕ) → (overflow : Bool) → ℕ
counted_size false memory address size overflow = size % 2 ^ 16
counted_size true memory address size overflow =
    ((if overflow then 0 else memory address) + 2) % 2 ^ 16

-- One round of the loop.
unfoldable pub access_field :
    (readbuffer : Bool)
    → (memory : ℕ → ℕ) → (buffer endbuffer : ℕ) → Field
    → (position : ℕ) → (overflow : Bool) → Cursor
access_field read memory buffer e (wmi_item t) position overflow =
    place_field e (align (size_of t) position) (size_of t) overflow
access_field read memory buffer e (wmi_string size) position overflow =
    let start = align 2 position in
    let o : Bool = overflow || ltb e (start + 2) in
    place_field e start (counted_size read memory start size o) o
access_field read memory buffer e wmi_datetime position overflow =
    place_field e (align 2 position) 50 overflow
access_field read memory buffer e (wmi_buffer size) position overflow =
    place_field e position size overflow
access_field read memory buffer e (wmi_offset inpos insize) position overflow =
    let behind = buffer + inpos + insize in
    record {
      position = furthest position behind;
      overflow = overflow || ltb e behind;
      pointer = if ltb e behind then none else some (buffer + inpos);
    }
access_field read memory buffer e (wmi_string_offset inpos size) position overflow =
    let start = buffer + inpos in
    let o : Bool = overflow || ltb e (start + 2) in
    let behind = start + counted_size read memory start size o in
    let o' : Bool = o || ltb e behind in
    record {
      position = furthest position behind;
      overflow = o';
      pointer = unless_overflow o' start;
    }

-- The position and the overflow at the end, and the pointers.
pub record Access : Type 0 where
  pub final : ℕ
  pub overflown : Bool
  pub pointers : List (Option ℕ)

unfoldable pub access_loop :
    (readbuffer : Bool)
    → (memory : ℕ → ℕ) → (buffer endbuffer : ℕ) → List Field
    → (position : ℕ) → (overflow : Bool) → Access
unfolding access_field
access_loop read memory buffer e [] position overflow = record {
  final = position;
  overflown = overflow;
  pointers = [];
}
access_loop read memory buffer e (f ∷ fs) position overflow =
    let c = access_field read memory buffer e f position overflow in
    let rest = access_loop read memory buffer e fs c.position c.overflow in
    record rest { pointers = c.pointer ∷ rest.pointers }

-- The result, RequiredSize and the pointers.
pub record WmiAccess : Type 0 where
  pub fits : Bool
  pub required_size : ℕ
  pub pointers : List (Option ℕ)

unfoldable pub access_wmi_buffer :
    (memory : ℕ → ℕ)
    → (buffer : ℕ) → (readbuffer : Bool) → (buffer_size : ℕ) → List Field
    → WmiAccess
unfolding access_loop
access_wmi_buffer memory buffer read size fields =
    let a = access_loop read memory buffer (buffer + size) fields buffer false in
    record {
      fits = not a.overflown;
      required_size = (a.final - buffer) % 2 ^ 32;
      pointers = a.pointers;
    }
