-- ===== src/Wmi/Buffer/Places.antt =====
-- On the places of the fields that AccessWmiBuffer (src/xeniface/wmi.c) hands out.
use qubes_vmm_xen_win_pvdriv.Common.{
  Bool-cases, inl, inr, subst, Bool, List, Option, [], false, some, true, ℕ, ◌%◌, ◌+◌, ◌^◌, ◌∷◌,
  ◌≡◌, ◌≤◌, arith, refl,
}
use qubes_vmm_xen_win_pvdriv.Wmi.Buffer.{
  wmi_boolean, wmi_sint8, wmi_uint8, wmi_sint16, wmi_uint16, wmi_int32, wmi_uint32, wmi_sint64,
  wmi_uint64, size_of, Field, wmi_item, wmi_string, wmi_datetime, wmi_buffer, wmi_offset,
  wmi_string_offset, align, furthest, access_field, access_loop, access_wmi_buffer,
}

-- Where a field may stand, and where the next one may begin.
abbrev pub width : Field → ℕ
width (wmi_item t) = size_of t
width (wmi_string size) = size % 2 ^ 16
width wmi_datetime = 50
width (wmi_buffer size) = size
width (wmi_offset inpos insize) = insize
width (wmi_string_offset inpos size) = size % 2 ^ 16

abbrev pub IsAt : (buffer low : ℕ) → Field → (p : ℕ) → Type 0
IsAt buffer low (wmi_item t) p = (low ≤ p) × (p % size_of t ≡ 0)
IsAt buffer low (wmi_string size) p = (low ≤ p) × (p % 2 ≡ 0)
IsAt buffer low wmi_datetime p = (low ≤ p) × (p % 2 ≡ 0)
IsAt buffer low (wmi_buffer size) p = low ≤ p
IsAt buffer low (wmi_offset inpos insize) p = p ≡ buffer + inpos
IsAt buffer low (wmi_string_offset inpos size) p = p ≡ buffer + inpos

-- Each field has a pointer, its bytes lie before `e`, and a field that has no offset of its own
-- lies behind all that come before it.
abbrev pub Laid : (buffer low e : ℕ) → List Field → List (Option ℕ) → Type 0
Laid buffer low e [] [] = Unit
Laid buffer low e (f ∷ fs) (some p ∷ ps) =
    IsAt buffer low f p × (p + width f ≤ e) × Laid buffer (furthest low (p + width f)) e fs ps
Laid buffer low e _ _ = ⊥

access_loop-stays :
    (fs : List Field) (memory : ℕ → ℕ) (b e p : ℕ)
    → (access_loop false memory b e fs p true).overflown ≡ true
unfolding access_loop access_field
access_loop-stays [] memory b e p = refl
access_loop-stays (wmi_item t ∷ fs) memory b e p = access_loop-stays fs memory b e _
access_loop-stays (wmi_string size ∷ fs) memory b e p = access_loop-stays fs memory b e _
access_loop-stays (wmi_datetime ∷ fs) memory b e p = access_loop-stays fs memory b e _
access_loop-stays (wmi_buffer size ∷ fs) memory b e p = access_loop-stays fs memory b e _
access_loop-stays (wmi_offset i n ∷ fs) memory b e p = access_loop-stays fs memory b e _
access_loop-stays (wmi_string_offset i n ∷ fs) memory b e p = access_loop-stays fs memory b e _

-- The field that is placed without an overflow.
field_placed :
    (f : Field) (memory : ℕ → ℕ) (b e p : ℕ)
    → let c = access_field false memory b e f p false in
      c.overflow ≡ false
      → (q : ℕ) × (c.pointer ≡ some q)
        × IsAt b p f q
        × (q + width f ≤ e)
        × (c.position ≡ furthest p (q + width f))
unfolding access_field
field_placed (wmi_item wmi_boolean) memory b e p h =
    (align 1 p, ground arith, ground arith, ground arith, ground arith)
field_placed (wmi_item wmi_sint8) memory b e p h =
    (align 1 p, ground arith, ground arith, ground arith, ground arith)
field_placed (wmi_item wmi_uint8) memory b e p h =
    (align 1 p, ground arith, ground arith, ground arith, ground arith)
field_placed (wmi_item wmi_sint16) memory b e p h =
    (align 2 p, ground arith, ground arith, ground arith, ground arith)
field_placed (wmi_item wmi_uint16) memory b e p h =
    (align 2 p, ground arith, ground arith, ground arith, ground arith)
field_placed (wmi_item wmi_int32) memory b e p h =
    (align 4 p, ground arith, ground arith, ground arith, ground arith)
field_placed (wmi_item wmi_uint32) memory b e p h =
    (align 4 p, ground arith, ground arith, ground arith, ground arith)
field_placed (wmi_item wmi_sint64) memory b e p h =
    (align 8 p, ground arith, ground arith, ground arith, ground arith)
field_placed (wmi_item wmi_uint64) memory b e p h =
    (align 8 p, ground arith, ground arith, ground arith, ground arith)
field_placed (wmi_string size) memory b e p h =
    (align 2 p, ground arith, (ground arith), ground arith, ground arith)
field_placed wmi_datetime memory b e p h =
    (align 2 p, ground arith, (ground arith), ground arith, ground arith)
field_placed (wmi_buffer size) memory b e p h =
    (p, ground arith, ground arith, ground arith, ground arith)
field_placed (wmi_offset inpos insize) memory b e p h =
    (b + inpos, ground arith, refl, ground arith, ground arith)
field_placed (wmi_string_offset inpos size) memory b e p h =
    (b + inpos, ground arith, refl, ground arith, ground arith)

true_or_false : {b : Bool} → b ≡ true → b ≡ false → ⊥
true_or_false h k = cc

access_loop-Laid :
    (fs : List Field) (memory : ℕ → ℕ) (b e p : ℕ) (o : Bool)
    → (access_loop false memory b e fs p o).overflown ≡ false
    → Laid b p e fs (access_loop false memory b e fs p o).pointers
unfolding access_loop
access_loop-Laid [] memory b e p o h = tt
access_loop-Laid (f ∷ fs) memory b e p true h = cc (h, access_loop-stays (f ∷ fs) memory b e p)
access_loop-Laid (f ∷ fs) memory b e p false h =
    let c = access_field false memory b e f p false in
    elim (Bool-cases c.overflow) [
      | inl over ↦ absurd (
          true_or_false (access_loop-stays fs memory b e c.position)
            (subst (λ x. (access_loop false memory b e fs c.position x).overflown ≡ false) over h))
      | inr under ↦
          let (q, pointer, at, inside, next) = field_placed f memory b e p under in
          let rest = access_loop-Laid fs memory b e c.position c.overflow h in
          rw pointer (
            at,
            inside,
            subst
                (λ x.
                  Laid b x e fs (access_loop false memory b e fs c.position c.overflow).pointers)
                next rest,
          )
    ]

-- Where AccessWmiBuffer succeeds for a buffer to be written, it gives every field a pointer,
-- aligned for its type, whose bytes lie in the buffer, and a field without an offset of its own
-- lies behind all the fields before it.
pub access_wmi_buffer-Laid :
    (fs : List Field) (memory : ℕ → ℕ) (buffer size : ℕ)
    → let a = access_wmi_buffer memory buffer false size fs in
      a.fits ≡ true → Laid buffer buffer (buffer + size) fs a.pointers
unfolding access_wmi_buffer
access_wmi_buffer-Laid fs memory buffer size h =
    access_loop-Laid fs memory buffer (buffer + size) buffer false (ground (arith, h))
