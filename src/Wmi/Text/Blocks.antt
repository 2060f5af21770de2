-- ===== src/Wmi/Text/Blocks.antt =====
-- On the writes of GetUTF8String (src/xeniface/wmi.c) into its block.
use qubes_vmm_xen_win_pvdriv.Common.{
  List, [], ap, arith, drop, length, length-append, none, refl, some, suc, take, zero, ℕ, ◌++◌, ◌+◌,
  ◌-◌, ◌<◌, ◌≡◌, ◌≤◌, ◌∷◌, sym, ◌∙◌,
}
use qubes_vmm_xen_win_pvdriv.Wmi.Text.{blank, write_at}

take-append : (d f : List ℕ) → take (length d) (d ++ f) ≡ d
take-append [] f = refl
take-append (x ∷ d) f = ap (λ l. x ∷ l) (take-append d f)

drop-append : (d f : List ℕ) (n : ℕ) → drop (length d + n) (d ++ f) ≡ drop n f
drop-append [] f n = let e : 0 + n ≡ n = omega arith in rw e refl
drop-append (x ∷ d) f n =
    let e : suc (length d) + n ≡ suc (length d + n) = omega arith in rw e (drop-append d f n)

pub length-drop : (n : ℕ) (l : List ℕ) → n ≤ length l → length (drop n l) ≡ length l - n
length-drop zero l h = omega arith
length-drop (suc n) [] h = omega arith
length-drop (suc n) (x ∷ l) h = omega (arith, length-drop n l (omega arith))

pub length-blank : (n : ℕ) → length (blank n) ≡ n
unfolding blank
length-blank zero = refl
length-blank (suc n) = ap suc (length-blank n)

-- A write behind what is done.
pub write_at-append :
    (done bytes free : List ℕ)
    → length bytes ≤ length free
    → write_at (length done) bytes (done ++ free)
      ≡ some (done ++ (bytes ++ drop (length bytes) free))
unfolding write_at
write_at-append done bytes free h =
    rw (take-append done free, drop-append done free (length bytes))
      (ground (arith, length-append done free, h))

pub write_at_overrun :
    (position : ℕ) (bytes block : List ℕ)
    → length block < position + length bytes
    → write_at position bytes block ≡ none
unfolding write_at
write_at_overrun position bytes block h = ground (arith, h)

drop-nil : (n : ℕ) → drop {A = ℕ} n [] ≡ []
drop-nil zero = refl
drop-nil (suc n) = refl

pub drop-drop : (n k : ℕ) (l : List ℕ) → drop n (drop k l) ≡ drop (k + n) l
drop-drop n zero l = let e : 0 + n ≡ n = omega arith in rw e refl
drop-drop n (suc k) [] = drop-nil n ∙ sym (drop-nil (suc k + n))
drop-drop n (suc k) (x ∷ l) =
    let e : suc k + n ≡ suc (k + n) = omega arith in rw e (drop-drop n k l)

length-take : (n : ℕ) (l : List ℕ) → n ≤ length l → length (take n l) ≡ n
length-take zero l h = refl
length-take (suc n) [] h = omega arith
length-take (suc n) (x ∷ l) h = omega (arith, length-take n l (omega arith))

-- A write inside a block leaves its length.
pub write_at_inside :
    (position : ℕ) (bytes block : List ℕ)
    → position + length bytes ≤ length block
    → (block' : List ℕ) × (write_at position bytes block ≡ some block')
      × (length block' ≡ length block)
unfolding write_at
write_at_inside position bytes block h =
    let behind = drop (position + length bytes) block in
    (
      take position block ++ (bytes ++ behind),
      ground (arith, h),
      omega (
        arith,
        length-append (take position block) (bytes ++ behind),
        length-append bytes behind,
        length-take position block (omega arith),
        length-drop (position + length bytes) block h,
      ),
    )

pub take-append_size : (d f : List ℕ) (n : ℕ) → length d ≡ n → take n (d ++ f) ≡ d
take-append_size d f n h = rw (sym h) (take-append d f)
