-- ===== src/Store/Strings/Laws.antt =====
-- Which byte strings pass, and the length of a list of strings.
use qubes_vmm_xen_win_pvdriv.Common.{
  All, List, [], arith, drop, false, length, length-append, refl, some, suc, sym, take, true, zero,
  ℕ, ◌++◌, ◌+◌, ◌-◌, ◌<◌, ◌==◌, ◌^◌, ◌↔◌, ◌∷◌, ◌≡◌,
}
use qubes_vmm_xen_win_pvdriv.Store.Strings.{
  c_string, conversion_from, has_conversion, is_valid_str, isprint, multi_sz_len, multi_sz_loop,
  next_count, strlen,
}
use mathlib.Core.List.{append_assoc}

abbrev pub Printable : List ℕ → Type 0
Printable = All λ c. isprint c ≡ true

-- __IsValidStr accepts a buffer exactly if a NUL stands in it and all bytes before the first NUL
-- are printable.
pub is_valid_str_iff :
    (s : List ℕ) → (is_valid_str s ≡ true) ↔ (Printable (c_string s) × (strlen s < length s))
unfolding is_valid_str strlen
is_valid_str_iff [] = (λ h. cc, λ h. absurd (omega arith))
is_valid_str_iff (zero ∷ cs) = (λ h. (tt, omega arith), λ h. refl)
is_valid_str_iff (suc c ∷ cs) =
    (λ h. ground (arith, (is_valid_str_iff cs).0), λ h. ground (arith, (is_valid_str_iff cs).1))

-- A string with its NUL, and what stands behind it.
pub c_string-append : (s rest : List ℕ) → Printable s → c_string (s ++ 0 ∷ rest) ≡ s
unfolding c_string
c_string-append [] rest h = refl
c_string-append (zero ∷ s) rest h = cc
c_string-append (suc c ∷ s) rest h = rw (c_string-append s rest h.1)

pub is_valid_str-append : (s rest : List ℕ) → Printable s → is_valid_str (s ++ 0 ∷ rest) ≡ true
unfolding is_valid_str
is_valid_str-append [] rest h = refl
is_valid_str-append (zero ∷ s) rest h = refl
is_valid_str-append (suc c ∷ s) rest h = rw h.0 (is_valid_str-append s rest h.1)

pub drop-append : (s rest : List ℕ) → drop (length s + 1) (s ++ 0 ∷ rest) ≡ rest
drop-append [] rest = refl
drop-append (c ∷ s) rest =
    let e : suc (length s) + 1 ≡ suc (length s + 1) = omega arith in rw e (drop-append s rest)

-- A string of a list: at least one byte, and no NUL.
abbrev pub IsName : List ℕ → Type 0
IsName s = (0 < length s) × All (λ c. 0 < c) s

-- The memory of a list of strings.
unfoldable pub encode : List (List ℕ) → List ℕ
encode [] = 0 ∷ []
encode (s ∷ ss) = s ++ 0 ∷ encode ss

multi_sz_loop-append :
    (s rest : List ℕ) (size count : ℕ)
    → All (λ c. 0 < c) s
    → size + length s + 1 < 2 ^ 32
    → multi_sz_loop false (s ++ 0 ∷ rest) (record { size = size; count = count })
      ≡ multi_sz_loop true rest (record { size = size + length s + 1; count = next_count count })
unfolding multi_sz_loop
multi_sz_loop-append [] rest size count h l = ground arith
multi_sz_loop-append (zero ∷ s) rest size count h l = absurd (omega arith)
multi_sz_loop-append (suc c ∷ s) rest size count h l =
    ground (arith, multi_sz_loop-append s rest (size + 1) count h.1 (omega arith))

pub length-encode : (ss : List (List ℕ)) → 0 < length (encode ss)
unfolding encode
length-encode [] = omega arith
length-encode (s ∷ ss) = omega (arith, length-append s (0 ∷ encode ss))

-- The first string is scanned like every other.
first :
    (s : List ℕ) (ss : List (List ℕ)) (rest : List ℕ)
    → IsName s
    → multi_sz_loop false (encode (s ∷ ss) ++ rest) (record { size = 0; count = 0 })
      ≡ multi_sz_loop true (encode (s ∷ ss) ++ rest) (record { size = 0; count = 0 })
unfolding multi_sz_loop encode
first [] ss rest h = absurd (omega arith)
first (zero ∷ s) ss rest h = absurd (omega arith)
first (suc c ∷ s) ss rest h = refl

-- Behind a string comes another, or the NUL that ends the list.
multi_sz_loop-encode :
    (ss : List (List ℕ)) (rest : List ℕ) (size : ℕ)
    → All IsName ss
    → size + length (encode ss) < 2 ^ 32
    → multi_sz_loop true (encode ss ++ rest) (record { size = size; count = 0 })
      ≡ some (record { size = size + length (encode ss) - 1; count = 0 })
unfolding multi_sz_loop encode
multi_sz_loop-encode [] rest size h l = ground arith
multi_sz_loop-encode ([] ∷ ss) rest size h l = absurd (omega arith)
multi_sz_loop-encode ((zero ∷ s) ∷ ss) rest size h l = absurd (omega arith)
multi_sz_loop-encode ((suc c ∷ s) ∷ ss) rest size h l =
    let e = length-append s (0 ∷ encode ss) in
    ground (
      arith,
      append_assoc s (0 ∷ encode ss) rest,
      multi_sz_loop-append s (encode ss ++ rest) (size + 1) 0 h.0.1.1 (omega (arith, e, l)),
      multi_sz_loop-encode ss rest (size + 1 + length s + 1) h.1 (omega (arith, e, l)),
      e,
      length-encode ss,
    )

-- __MultiSzLen finds the length of a list of at least one name, without the NUL that ends the
-- list, whatever stands behind it, where the list is shorter than 2 ^ 32 bytes; the count of
-- strings stays 0.
pub multi_sz_len-encode :
    (s : List ℕ) (ss : List (List ℕ)) (rest : List ℕ)
    → All IsName (s ∷ ss)
    → length (encode (s ∷ ss)) < 2 ^ 32
    → multi_sz_len (encode (s ∷ ss) ++ rest)
      ≡ some (record { size = length (encode (s ∷ ss)) - 1; count = 0 })
unfolding multi_sz_len
multi_sz_len-encode s ss rest h l =
    ground (arith, first s ss rest h.0, multi_sz_loop-encode (s ∷ ss) rest 0 h (omega (arith, l)))

take-append : {A : Type 0} (xs ys : List A) → take (length xs) (xs ++ ys) ≡ xs
take-append [] ys = refl
take-append (x ∷ xs) ys = rw (take-append xs ys)

-- The two NULs that IoctlStoreDirectory writes are those that are there.
encode-tail :
    (s : List ℕ) (ss : List (List ℕ)) → (init : List ℕ) × (encode (s ∷ ss) ≡ init ++ 0 ∷ 0 ∷ [])
unfolding encode
encode-tail s [] = (s, refl)
encode-tail s (t ∷ ss) =
    let (init, e) = encode-tail t ss in
    (s ++ 0 ∷ init, rw e (sym (append_assoc s (0 ∷ init) (0 ∷ 0 ∷ []))))

take-tail :
    (init after : List ℕ)
    → take (length (init ++ 0 ∷ 0 ∷ []) - 1 - 1) ((init ++ 0 ∷ 0 ∷ []) ++ after) ++ 0 ∷ 0 ∷ []
      ≡ init ++ 0 ∷ 0 ∷ []
take-tail init after =
    let e : length (init ++ 0 ∷ 0 ∷ []) - 1 - 1 ≡ length init =
      omega (arith, length-append init (0 ∷ 0 ∷ [])) in
    rw (e, append_assoc init (0 ∷ 0 ∷ []) after, take-append init (0 ∷ 0 ∷ after))

pub take-encode :
    (s : List ℕ) (ss : List (List ℕ)) (after : List ℕ)
    → take (length (encode (s ∷ ss)) - 1 - 1) (encode (s ∷ ss) ++ after) ++ 0 ∷ 0 ∷ []
      ≡ encode (s ∷ ss)
take-encode s ss after = let (init, e) = encode-tail s ss in rw e (take-tail init after)

pub has_conversion-plain :
    (s : List ℕ) → All (λ c. (c == b'%') ≡ false) s → has_conversion s ≡ false
unfolding has_conversion conversion_from
has_conversion-plain [] h = refl
has_conversion-plain (c ∷ cs) h = ground (arith, h.0, has_conversion-plain cs h.1)
