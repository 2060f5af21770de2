-- ===== src/Wmi/Siblings/Order.antt =====
-- On the path and the list of names of SessionExecuteGetNextSibling (src/xeniface/wmi.c).
use qubes_vmm_xen_win_pvdriv.Common.{
  All, Bool, List, Option, [], arith, drop, false, length, length-append, ltb, none, refl, some,
  suc, true, zero, ℕ, ◌++◌, ◌+◌, ◌<◌, ◌==◌, ◌∷◌, ◌≡◌, subst,
}
use qubes_vmm_xen_win_pvdriv.Store.Strings.{c_string}
use qubes_vmm_xen_win_pvdriv.Store.Strings.Laws.{IsName, encode}
use qubes_vmm_xen_win_pvdriv.Wmi.Text.Blocks.{take-append_size}
use qubes_vmm_xen_win_pvdriv.Wmi.Siblings.{
  after_leaf, attempt_behind, attempt, behind_name, byte_at, leaf_loop, leaf_offset, leaf_search,
  next_sibling, split_path,
}

abbrev pub Positive : List ℕ → Type 0
Positive = All λ c. 0 < c

c_string-name : (s rest : List ℕ) → Positive s → c_string (s ++ 0 ∷ rest) ≡ s
unfolding c_string
c_string-name [] rest h = refl
c_string-name (zero ∷ s) rest h = absurd (omega arith)
c_string-name (suc c ∷ s) rest h = rw (c_string-name s rest h.1)

behind_name-name : (s rest : List ℕ) → Positive s → behind_name (s ++ 0 ∷ rest) ≡ some rest
unfolding behind_name
behind_name-name [] rest h = refl
behind_name-name (zero ∷ s) rest h = absurd (omega arith)
behind_name-name (suc c ∷ s) rest h = behind_name-name s rest h.1

leaf_search-behind :
    (equal : List ℕ → Bool) (s rest : List ℕ)
    → Positive s
    → leaf_search equal false (s ++ 0 ∷ rest) ≡ leaf_search equal true rest
unfolding leaf_search
leaf_search-behind equal [] rest h = refl
leaf_search-behind equal (zero ∷ s) rest h = absurd (omega arith)
leaf_search-behind equal (suc c ∷ s) rest h = leaf_search-behind equal s rest h.1

-- A name that is accepted, and one that is not.
leaf_search-found :
    (equal : List ℕ → Bool) (s rest : List ℕ)
    → IsName s
    → equal s ≡ true
    → leaf_search equal true (s ++ 0 ∷ rest) ≡ some (s ++ 0 ∷ rest)
unfolding leaf_search
leaf_search-found equal [] rest h e = absurd (omega arith)
leaf_search-found equal (zero ∷ s) rest h e = absurd (omega arith)
leaf_search-found equal (suc c ∷ s) rest h e =
    let same = c_string-name (suc c ∷ s) rest h.1 in rw (same, e) refl

leaf_search-passed :
    (equal : List ℕ → Bool) (s rest : List ℕ)
    → IsName s
    → equal s ≡ false
    → leaf_search equal true (s ++ 0 ∷ rest) ≡ leaf_search equal true rest
unfolding leaf_search
leaf_search-passed equal [] rest h e = absurd (omega arith)
leaf_search-passed equal (zero ∷ s) rest h e = absurd (omega arith)
leaf_search-passed equal (suc c ∷ s) rest h e =
    let same = c_string-name (suc c ∷ s) rest h.1 in
    rw (same, e) (leaf_search-behind equal s rest h.1.1)

-- The first name, if there is one.
abbrev pub head_of : List (List ℕ) → Option (List ℕ)
head_of [] = none
head_of (s ∷ ss) = some s

attempt-encode : (ss : List (List ℕ)) → All IsName ss → attempt (encode ss) ≡ some (head_of ss)
unfolding attempt encode
attempt-encode [] h = refl
attempt-encode ([] ∷ ss) h = absurd (omega arith)
attempt-encode ((zero ∷ s) ∷ ss) h = absurd (omega arith)
attempt-encode ((suc c ∷ s) ∷ ss) h = rw (c_string-name (suc c ∷ s) (encode ss) h.0.1) refl

-- In the memory of a list of names, of which one is accepted as the leaf and none before it is,
-- GetNextSibling takes the name behind the leaf, or none if the leaf is the last.
pub next_sibling_lem :
    (equal : List ℕ → Bool) (before : List (List ℕ)) (leaf : List ℕ) (after : List (List ℕ))
    → All IsName (before ++ leaf ∷ after)
    → All (λ s. equal s ≡ false) before
    → equal leaf ≡ true
    → next_sibling equal (encode (before ++ leaf ∷ after)) ≡ some (head_of after)
unfolding next_sibling after_leaf attempt_behind encode
next_sibling_lem equal [] leaf after h passed found =
    rw
      (
        leaf_search-found equal leaf (encode after) h.0 found,
        behind_name-name leaf (encode after) h.0.1,
      )
      (attempt-encode after h.1)
next_sibling_lem equal (s ∷ before) leaf after h passed found =
    rw (leaf_search-passed equal s (encode (before ++ leaf ∷ after)) h.0 passed.0)
      (next_sibling_lem equal before leaf after h.1 passed.1 found)

-- In the memory of a list of names of which none is accepted as the leaf, GetNextSibling reads
-- behind the NUL that ends the list.
pub next_sibling_overruns :
    (equal : List ℕ → Bool) (names : List (List ℕ))
    → All IsName names
    → All (λ s. equal s ≡ false) names
    → next_sibling equal (encode names) ≡ none
unfolding next_sibling after_leaf attempt_behind leaf_search behind_name attempt encode
next_sibling_overruns equal [] h passed = refl
next_sibling_overruns equal (s ∷ names) h passed =
    rw (leaf_search-passed equal s (encode names) h.0 passed.0)
      (next_sibling_overruns equal names h.1 passed.1)

abbrev pub NoSlash : List ℕ → Type 0
NoSlash = All λ c. (c == b'/') ≡ false

byte_at-append : (s t : List ℕ) (n : ℕ) → byte_at (s ++ t) (length s + n) ≡ byte_at t n
unfolding byte_at
byte_at-append [] t n = let e : 0 + n ≡ n = omega arith in rw e refl
byte_at-append (c ∷ s) t n =
    let e : suc (length s) + n ≡ suc (length s + n) = omega arith in rw e (byte_at-append s t n)

byte_at-NoSlash : (s : List ℕ) (n : ℕ) → NoSlash s → (byte_at s n == b'/') ≡ false
unfolding byte_at
byte_at-NoSlash [] n h = refl
byte_at-NoSlash (c ∷ s) zero h = h.0
byte_at-NoSlash (c ∷ s) (suc n) h = byte_at-NoSlash s n h.1

-- The loop stops at the last '/'.
leaf_loop_lem :
    (c : ℕ) (parent leaf : List ℕ) (n : ℕ)
    → NoSlash leaf
    → leaf_loop ((c ∷ parent) ++ b'/' ∷ leaf) (suc (length parent) + n) ≡ suc (length parent)
unfolding leaf_loop byte_at
leaf_loop_lem c parent leaf zero h =
    let k : suc (length parent) + 0 ≡ suc (length parent) = omega arith in
    let l : length parent + 0 ≡ length parent = omega arith in
    let slash =
      subst (λ n. byte_at (parent ++ b'/' ∷ leaf) n ≡ b'/') l
        (byte_at-append parent (b'/' ∷ leaf) 0) in
    rw (k, slash) refl
leaf_loop_lem c parent leaf (suc n) h =
    let k : suc (length parent) + suc n ≡ suc (suc (length parent) + n) = omega arith in
    let l : length parent + suc n ≡ suc (length parent) + n = omega arith in
    let byte =
      subst (λ i. byte_at (parent ++ b'/' ∷ leaf) i ≡ byte_at leaf n) l
        (byte_at-append parent (b'/' ∷ leaf) (suc n)) in
    rw (k, byte, byte_at-NoSlash leaf n h) (leaf_loop_lem c parent leaf n h)

leaf_loop-NoSlash : (c : ℕ) (leaf : List ℕ) (n : ℕ) → NoSlash leaf → leaf_loop (c ∷ leaf) n ≡ 0
unfolding leaf_loop byte_at
leaf_loop-NoSlash c leaf zero h = refl
leaf_loop-NoSlash c leaf (suc n) h = rw (byte_at-NoSlash leaf n h) (leaf_loop-NoSlash c leaf n h)

-- The parent and the leaf of a path.
abbrev pub parent_of : List ℕ → List ℕ
parent_of [] = b'/' ∷ []
parent_of (c ∷ parent) = c ∷ parent

leaf_offset_lem :
    (parent leaf : List ℕ) → NoSlash leaf → leaf_offset (parent ++ b'/' ∷ leaf) ≡ length parent
unfolding leaf_offset
leaf_offset_lem [] leaf h = ground (arith, leaf_loop-NoSlash b'/' leaf (length (b'/' ∷ leaf)) h)
leaf_offset_lem (c ∷ parent) leaf h =
    let path = (c ∷ parent) ++ b'/' ∷ leaf in
    let size : suc (length parent) + (length leaf + 1) ≡ length path =
      omega (arith, length-append parent (b'/' ∷ leaf)) in
    let stops =
      subst (λ n. leaf_loop path n ≡ suc (length parent)) size
        (leaf_loop_lem c parent leaf (length leaf + 1) h) in
    ground (arith, stops, size)

drop-behind : (s rest : List ℕ) (x : ℕ) → drop (length s + 1) (s ++ x ∷ rest) ≡ rest
drop-behind [] rest x = refl
drop-behind (c ∷ s) rest x =
    let e : suc (length s) + 1 ≡ suc (length s + 1) = omega arith in rw e (drop-behind s rest x)

pub split_path_lem :
    (parent leaf : List ℕ)
    → NoSlash leaf
    → split_path (parent ++ b'/' ∷ leaf) ≡ (parent_of parent, leaf)
unfolding split_path byte_at
split_path_lem [] leaf h = rw (leaf_offset_lem [] leaf h) refl
split_path_lem (c ∷ parent) leaf h =
    let positive : ltb 0 (suc (length parent)) ≡ true = ground arith in
    rw
      (
        leaf_offset_lem (c ∷ parent) leaf h,
        take-append_size (c ∷ parent) (b'/' ∷ leaf) (suc (length parent)) refl,
        drop-behind (c ∷ parent) leaf b'/',
        positive,
      )
      refl
