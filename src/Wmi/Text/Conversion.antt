-- ===== src/Wmi/Text/Conversion.antt =====
-- On GetUTF8String of src/xeniface/wmi.c, for strings on both sides of 2 ^ 16 bytes of UTF-8.
use qubes_vmm_xen_win_pvdriv.Common.{
  Bool-cases, subst, ◌==◌, ◌/◌, Option-cases, inl, inr, All, List, Option, [], ap, arith, drop,
  length, length-append, none, refl, some, suc, take, total, zero, ℕ, ◌%◌, ◌*◌, ◌++◌, ◌+◌, ◌<◌, ◌^◌,
  ◌≡◌, ◌≤◌, ◌∷◌, ◌∙◌,
}
use native.Mathlib.Decide.{dec_lt}
use mathlib.Core.List.{append_assoc}
use qubes_vmm_xen_win_pvdriv.Machine.{
  Kernel, Machine, pool, undefined, Goes, Changes, Resource, one,
}
use qubes_vmm_xen_win_pvdriv.Wmi.Unicode.{count_utf8_from_utf32, utf32_from_utf16, utf8_from_utf32}
use qubes_vmm_xen_win_pvdriv.Wmi.Unicode.RoundTrip.{length-utf8_from_utf32}
use qubes_vmm_xen_win_pvdriv.Wmi.Text.{
  Utf8String, blank, count_utf8_loop, get_utf8_string, write_at, write_utf8_loop,
}
use qubes_vmm_xen_win_pvdriv.Wmi.Text.Blocks.{
  drop-drop, write_at_inside, length-blank, length-drop, write_at-append, take-append_size,
  write_at_overrun,
}

-- The string `s` of UTF-16 units is the sequence of these code points.
pub data Decodes : List ℕ → List ℕ → Type 0 where
  end_of_string : Decodes [] []
  code_point :
      {w u : ℕ} {s rest us : List ℕ}
      → utf32_from_utf16 (w ∷ s) ≡ some (u, rest)
      → Decodes rest us
      → Decodes (w ∷ s) (u ∷ us)

-- Its UTF-8.
abbrev pub encoded : List ℕ → List ℕ
encoded [] = []
encoded (u ∷ us) = utf8_from_utf32 u ++ encoded us

abbrev pub utf8_size : List ℕ → ℕ
utf8_size = total count_utf8_from_utf32

rest-shorter :
    (w : ℕ) (s : List ℕ) (u : ℕ) (rest : List ℕ)
    → utf32_from_utf16 (w ∷ s) ≡ some (u, rest)
    → length rest ≤ length s
unfolding utf32_from_utf16
rest-shorter w [] u rest h = ground (arith, h)
rest-shorter w (x ∷ s) u rest h = ground (arith, h)

-- A unit has three bytes at most.
round-le :
    (w : ℕ) (s : List ℕ) (u : ℕ) (rest : List ℕ)
    → utf32_from_utf16 (w ∷ s) ≡ some (u, rest)
    → All (λ x. x < 2 ^ 16) (w ∷ s)
    → (count_utf8_from_utf32 u + 3 * length rest ≤ 3 * length (w ∷ s)) × All (λ x. x < 2 ^ 16) rest
unfolding utf32_from_utf16 count_utf8_from_utf32
round-le w [] u rest h units = ground (arith, h)
round-le w (x ∷ s) u rest h units = elim (Bool-cases (w / 1024 == 54)) [
  | inl e ↦
      let same : s ≡ rest = ground (arith, h, e) in
      (ground (arith, h, e, ap length same), subst (All λ y. y < 2 ^ 16) same units.1.1)
  | inr e ↦
      let same : x ∷ s ≡ rest = ground (arith, h, e) in
      let point : u ≡ w = ground (arith, h, e) in
      (ground (arith, point, units.0, ap length same), subst (All λ y. y < 2 ^ 16) same units.1)
]

utf8_size-le :
    (s us : List ℕ) → Decodes s us → All (λ x. x < 2 ^ 16) s → utf8_size us ≤ 3 * length s
utf8_size-le s us end_of_string units = omega arith
utf8_size-le s us (code_point {w} {u} {s = s'} {rest} {us = vs} d more) units =
    let (bytes, units') = round-le w s' u rest d units in
    omega (arith, bytes, utf8_size-le rest vs more units')

count_utf8_loop_lem :
    (fuel : ℕ) (s us : List ℕ) (n : ℕ)
    → length s ≤ fuel
    → n < 2 ^ 16
    → Decodes s us
    → count_utf8_loop fuel s n ≡ some ((n + utf8_size us) % 2 ^ 16)
unfolding count_utf8_loop
count_utf8_loop_lem fuel s us n f small end_of_string = ap some (omega arith)
count_utf8_loop_lem zero s us n f small (code_point d more) = absurd (omega arith)
count_utf8_loop_lem (suc fuel) s us n f small
      (code_point {w} {u} {s = s'} {rest} {us = vs} d more) =
    let n' = (n + count_utf8_from_utf32 u) % 2 ^ 16 in
    rw (d, count_utf8_loop)
      (count_utf8_loop_lem fuel rest vs n' (omega (arith, rest-shorter w s' u rest d)) (omega arith)
          more
        ∙ ap some (omega arith))

ends_with :
    (done bytes more free : List ℕ) (n : ℕ)
    → (done ++ bytes) ++ (more ++ drop n (drop (length bytes) free))
      ≡ done ++ ((bytes ++ more) ++ drop (length bytes + n) free)
ends_with done bytes more free n =
    rw (append_assoc done bytes, append_assoc bytes more, drop-drop n (length bytes) free) refl

module _ (fuel w u n : ℕ) (s rest block : List ℕ)
    (d : utf32_from_utf16 (w ∷ s) ≡ some (u, rest)) where
  round_writes :
      (block' : List ℕ)
      → write_at n (utf8_from_utf32 u) block ≡ some block'
      → write_utf8_loop (suc fuel) (w ∷ s) n block
        ≡ write_utf8_loop fuel rest ((n + length (utf8_from_utf32 u)) % 2 ^ 16) block'
  unfolding write_utf8_loop
  round_writes block' e = rw (d, write_utf8_loop) (rw e refl)

  round_overruns :
      write_at n (utf8_from_utf32 u) block ≡ none
      → write_utf8_loop (suc fuel) (w ∷ s) n block ≡ none
  unfolding write_utf8_loop
  round_overruns e = rw (d, write_utf8_loop) (rw e refl)

write_utf8_loop_lem :
    (fuel : ℕ) (s us done free : List ℕ)
    → length s ≤ fuel
    → length done + utf8_size us < 2 ^ 16
    → utf8_size us ≤ length free
    → Decodes s us
    → write_utf8_loop fuel s (length done) (done ++ free)
      ≡ some (done ++ (encoded us ++ drop (utf8_size us) free))
unfolding write_utf8_loop
write_utf8_loop_lem fuel s us done free f small room end_of_string = refl
write_utf8_loop_lem zero s us done free f small room (code_point d more) = absurd (omega arith)
write_utf8_loop_lem (suc fuel) s us done free f small room
      (code_point {w} {u} {s = s'} {rest} {us = vs} d more) =
    let bytes = utf8_from_utf32 u in
    let left = drop (length bytes) free in
    let size = length-utf8_from_utf32 u in
    let written = write_at-append done bytes free (omega (arith, size)) in
    let position : (length done + length bytes) % 2 ^ 16 ≡ length (done ++ bytes) =
      omega (arith, size, length-append done bytes) in
    let later =
      write_utf8_loop_lem fuel rest vs (done ++ bytes) left
        (omega (arith, rest-shorter w s' u rest d)) (omega (arith, size, length-append done bytes))
        (omega (arith, size, length-drop (length bytes) free (omega (arith, size)))) more in
    round_writes fuel w u (length done) s' rest (done ++ free) d _ written
    ∙ (rw (position, ← append_assoc done bytes left) later
        ∙ ap some (ends_with done bytes (encoded vs) free (utf8_size vs) ∙ rw size refl))

write_utf8_loop_overrun :
    (fuel : ℕ) (s us block : List ℕ) (n : ℕ)
    → length s ≤ fuel
    → length block < 2 ^ 16
    → n ≤ length block
    → length block < n + utf8_size us
    → Decodes s us
    → write_utf8_loop fuel s n block ≡ none
unfolding write_utf8_loop
write_utf8_loop_overrun fuel s us block n f small at over end_of_string = absurd (omega arith)
write_utf8_loop_overrun zero s us block n f small at over (code_point d more) = absurd (omega arith)
write_utf8_loop_overrun (suc fuel) s us block n f small at over
      (code_point {w} {u} {s = s'} {rest} {us = vs} d more) =
    let bytes = utf8_from_utf32 u in
    let size = length-utf8_from_utf32 u in
    elim (dec_lt (length block) (n + length bytes)) [
      | yes h ↦ round_overruns fuel w u n s' rest block d (write_at_overrun n bytes block h)
      | no h ↦
          let (block', written, same) = write_at_inside n bytes block (omega arith) in
          round_writes fuel w u n s' rest block d block' written
          ∙ write_utf8_loop_overrun fuel rest vs block' ((n + length bytes) % 2 ^ 16)
              (omega (arith, rest-shorter w s' u rest d)) (omega (arith, same))
              (omega (arith, same)) (omega (arith, same, size)) more
    ]

pub length-encoded : (us : List ℕ) → length (encoded us) ≡ utf8_size us
length-encoded [] = refl
length-encoded (u ∷ us) = omega (
  arith,
  length-append (utf8_from_utf32 u) (encoded us),
  length-utf8_from_utf32 u,
  length-encoded us,
)

-- What GetUTF8String hands out: nothing, or a block with the string.
abbrev pub Converted : Resource → List ℕ → Machine → Option Utf8String → Machine → Type 0
Converted r us m none n = Changes r 0 0 m n
Converted r us m (some v) n =
    (v.length_field ≡ utf8_size us)
    × (take (utf8_size us) v.buffer ≡ encoded us)
    × Changes r (one r (pool v.address)) 0 m n

module _ (k : Kernel) (s us : List ℕ) (m : Machine) (d : Decodes s us) where
  -- For a UTF-16 string that decodes to code points whose UTF-8 has fewer than 2 ^ 16 bytes,
  -- GetUTF8String ends without a write behind its block: it fails and holds nothing, or hands out
  -- one block whose first bytes are that UTF-8, with its size as Length.
  pub get_utf8_string-Converted :
      (r : Resource)
      → utf8_size us < 2 ^ 16
      → Goes (Converted r us m) (λ _ _. ⊥) (get_utf8_string k s m)
  unfolding get_utf8_string
  get_utf8_string-Converted r small =
      let size : (0 + utf8_size us) % 2 ^ 16 ≡ utf8_size us = omega arith in
      let counted = count_utf8_loop_lem (length s) s us 0 (omega arith) (omega arith) d in
      let room : utf8_size us ≤ length (blank (utf8_size us + 2)) =
        omega (arith, length-blank (utf8_size us + 2)) in
      let written =
        write_utf8_loop_lem (length s) s us [] (blank (utf8_size us + 2)) (omega arith)
          (omega arith) room d in
      rw (counted, size)
        (elim (Option-cases (k.allocate_pool m.trace (4 + utf8_size us))) [
          | inl e ↦ rw e (ground arith)
          | inr (p, e) ↦
              rw (e, written)
                (refl, take-append_size (encoded us) _ _ (length-encoded us), (refl, omega arith))
        ])

  -- For a UTF-16 string of fewer than 2 ^ 16 bytes whose UTF-8 has 2 ^ 16 bytes or more, where
  -- the allocation succeeds, GetUTF8String writes behind its block.
  pub get_utf8_string_overruns :
      (p : ℕ)
      → 2 ^ 16 ≤ utf8_size us
      → All (λ w. w < 2 ^ 16) s
      → 2 * length s < 2 ^ 16
      → k.allocate_pool m.trace (4 + utf8_size us % 2 ^ 16) ≡ some p
      → get_utf8_string k s m ≡ undefined
  unfolding get_utf8_string
  get_utf8_string_overruns p large units ushort given =
      let bounded = utf8_size-le s us d units in
      let n = utf8_size us % 2 ^ 16 in
      let counted = count_utf8_loop_lem (length s) s us 0 (omega arith) (omega arith) d in
      let size : (0 + utf8_size us) % 2 ^ 16 ≡ n = omega arith in
      let over =
        write_utf8_loop_overrun (length s) s us (blank (n + 2)) 0 (omega arith)
          (omega (arith, length-blank (n + 2))) (omega arith) (omega (arith, length-blank (n + 2)))
          d in
      rw (counted, size, given, over) refl
