-- ===== src/Wmi/Buffer/Layout.antt =====
-- On the sizes that AccessWmiBuffer (src/xeniface/wmi.c) computes and tests.
use qubes_vmm_xen_win_pvdriv.Common.{
  All, ◌&&◌, Bool, List, [], false, ltb, leb, true, ℕ, ◌%◌, ◌+◌, ◌^◌, ◌∷◌, ◌≡◌, ◌≤◌, ◌<◌, arith,
}
use qubes_vmm_xen_win_pvdriv.Wmi.Buffer.{
  wmi_boolean, Field, wmi_item, wmi_string, wmi_string_offset, align, access_field, access_loop,
  access_wmi_buffer,
}

-- A field at a position that is `d` bytes further on comes to lie `d` bytes further on.
access_field-shift :
    (f : Field) (memory memory' : ℕ → ℕ) (b b' e e' d p p' : ℕ) (o o' : Bool)
    → d % 8 ≡ 0
    → b' ≡ b + d
    → p' ≡ p + d
    → (access_field false memory' b' e' f p' o').position
      ≡ (access_field false memory b e f p o).position + d
unfolding access_field
access_field-shift (wmi_item wmi_boolean) memory memory' b b' e e' d p p' o o' h hb hp =
    ground arith
access_field-shift (wmi_item t) memory memory' b b' e e' d p p' o o' h hb hp = ground arith
access_field-shift f memory memory' b b' e e' d p p' o o' h hb hp = ground arith

access_field-grows :
    (f : Field) (memory : ℕ → ℕ) (b e p : ℕ) (o : Bool)
    → p ≤ (access_field false memory b e f p o).position
unfolding access_field
access_field-grows f memory b e p o = ground arith

-- A string has room for its length.
abbrev pub IsCounted : Field → Type 0
IsCounted (wmi_string size) = 2 ≤ size % 2 ^ 16
IsCounted (wmi_string_offset inpos size) = 2 ≤ size % 2 ^ 16
IsCounted _ = Unit

-- There is an overflow exactly if the position is behind the buffer.
access_field-overflow :
    (f : Field) (memory : ℕ → ℕ) (b e p : ℕ)
    → IsCounted f
    → (access_field false memory b e f p (ltb e p)).overflow
      ≡ ltb e (access_field false memory b e f p (ltb e p)).position
unfolding access_field
access_field-overflow (wmi_item wmi_boolean) memory b e p h = ground arith
access_field-overflow (wmi_item t) memory b e p h = ground arith
access_field-overflow f memory b e p h = ground arith

access_loop-grows :
    (fs : List Field) (memory : ℕ → ℕ) (b e p : ℕ) (o : Bool)
    → p ≤ (access_loop false memory b e fs p o).final
unfolding access_loop
access_loop-grows [] memory b e p o = omega arith
access_loop-grows (f ∷ fs) memory b e p o =
    let c = access_field false memory b e f p o in
    omega (
      arith,
      access_field-grows f memory b e p o,
      access_loop-grows fs memory b e c.position c.overflow,
    )

access_loop-overflow :
    (fs : List Field) (memory : ℕ → ℕ) (b e p : ℕ) (o : Bool)
    → o ≡ ltb e p
    → All IsCounted fs
    → (access_loop false memory b e fs p o).overflown
      ≡ ltb e (access_loop false memory b e fs p o).final
unfolding access_loop
access_loop-overflow [] memory b e p o q h = q
access_loop-overflow (f ∷ fs) memory b e p o q h =
    let c = access_field false memory b e f p o in
    access_loop-overflow fs memory b e c.position c.overflow
      (rw q (access_field-overflow f memory b e p h.0)) h.1

access_loop-shift :
    (fs : List Field) (memory memory' : ℕ → ℕ) (b b' e e' d p p' : ℕ) (o o' : Bool)
    → d % 8 ≡ 0
    → b' ≡ b + d
    → p' ≡ p + d
    → (access_loop false memory' b' e' fs p' o').final
      ≡ (access_loop false memory b e fs p o).final + d
unfolding access_loop
access_loop-shift [] memory memory' b b' e e' d p p' o o' h hb hp = hp
access_loop-shift (f ∷ fs) memory memory' b b' e e' d p p' o o' h hb hp =
    let c = access_field false memory b e f p o in
    let c' = access_field false memory' b' e' f p' o' in
    access_loop-shift fs memory memory' b b' e e' d c.position c'.position c.overflow c'.overflow h
      hb (access_field-shift f memory memory' b b' e e' d p p' o o' h hb hp)

-- The bytes that the fields take from an address that is a multiple of 8 on.
abbrev pub extent : List Field → ℕ
extent fs = (access_loop false (λ _. 0) 0 0 fs 0 false).final

-- For a buffer to be written at a multiple of 8, and strings that have room for their length:
-- AccessWmiBuffer asks for the size that the fields take from address 0 on, whatever the buffer,
-- if that is below 2 ^ 32, and succeeds exactly if the buffer is that large.
pub access_wmi_buffer_fits :
    (fs : List Field) (memory : ℕ → ℕ) (buffer size : ℕ)
    → buffer % 8 ≡ 0
    → All IsCounted fs
    → extent fs < 2 ^ 32
    → let a = access_wmi_buffer memory buffer false size fs in
      (a.required_size ≡ extent fs) × (a.fits ≡ leb (extent fs) size)
unfolding access_wmi_buffer
access_wmi_buffer_fits fs memory buffer size aligned counted small =
    let final =
      access_loop-shift fs (λ _. 0) memory 0 buffer 0 (buffer + size) buffer 0 buffer false false
        aligned (omega arith) (omega arith) in
    let over =
      access_loop-overflow fs memory buffer (buffer + size) buffer false (ground arith) counted in
    (omega (arith, final), rw (over, final) (ground arith))

-- Where a reader takes the length of a string from a buffer that is aligned, AccessWmiBuffer
-- tests the size that is left of length + 2 modulo 2 ^ 16: a length of 0xfffe or 0xffff is
-- accepted in a buffer of 2 bytes.
pub access_wmi_buffer-read_string :
    (memory : ℕ → ℕ) (buffer size argument : ℕ)
    → buffer % 2 ≡ 0
    → memory buffer < 2 ^ 16
    → (access_wmi_buffer memory buffer true size (wmi_string argument ∷ [])).fits
      ≡ (leb 2 size && leb ((memory buffer + 2) % 2 ^ 16) size)
unfolding access_wmi_buffer access_loop access_field
access_wmi_buffer-read_string memory buffer size argument aligned ushort =
    let start : align 2 buffer ≡ buffer = omega arith in rw start (ground arith)
