-- ===== src/Distribution/Announcement.antt =====
-- What FdoSetDistribution writes is what FdoClearDistribution looks for, and both give back what
-- they acquire.
use qubes_vmm_xen_win_pvdriv.Ansi.{token, strtok_r, stricmp_equal}
use qubes_vmm_xen_win_pvdriv.Common.{
  All, List, [], ap, arith, false, length, refl, some, suc, true, zero, ℕ, ◌++◌, ◌+◌, ◌<◌, ◌==◌,
  ◌∷◌, ◌≡◌,
}
use qubes_vmm_xen_win_pvdriv.Machine.{Changes, Goes, Goes-bind, Kernel, Machine, Resource}
use qubes_vmm_xen_win_pvdriv.Distribution.{
  Build, announce, announcement, fdo_match_distribution, fdo_set_distribution, free_index,
  match_vendor, maximum_index, product, search_failed, search_index, vendor_token,
}

-- No blank in it.
abbrev pub Solid : List ℕ → Type 0
Solid = All λ c. (c == b' ') ≡ false

token-append : (s rest : List ℕ) → Solid s → token (s ++ b' ' ∷ rest) ≡ (s, rest)
unfolding token
token-append [] rest h = refl
token-append (c ∷ cs) rest h = rw (h.0, token-append cs rest h.1) refl

strtok_r-append :
    (s rest : List ℕ) → 0 < length s → Solid s → strtok_r (s ++ b' ' ∷ rest) ≡ some (s, rest)
unfolding strtok_r
strtok_r-append [] rest l h = absurd (omega arith)
strtok_r-append (c ∷ cs) rest l h = rw (h.0, token-append cs rest h.1) refl

vendor_token-Solid : (v : List ℕ) → Solid (vendor_token v)
vendor_token-Solid [] = tt
vendor_token-Solid (c ∷ cs) = (ground arith, vendor_token-Solid cs)

length-vendor_token : (v : List ℕ) → length (vendor_token v) ≡ length v
length-vendor_token [] = refl
length-vendor_token (c ∷ cs) = ap suc (length-vendor_token cs)

match_vendor-token : (v : List ℕ) → match_vendor v (vendor_token v) ≡ true
unfolding match_vendor
match_vendor-token [] = refl
match_vendor-token (c ∷ cs) = ground (arith, match_vendor-token cs)

-- For a vendor name that is not empty and shorter than MAXNAMELEN, __FdoMatchDistribution accepts
-- the text that FdoSetDistribution writes.
pub match-announcement :
    (b : Build) → 0 < length b.vendor → fdo_match_distribution b (announcement b) ≡ true
unfolding fdo_match_distribution stricmp_equal
match-announcement b h = ground (
  arith,
  strtok_r-append (vendor_token b.vendor) (product ++ b' ' ∷ (b.version ++ b' ' ∷ b.attributes))
      (omega (arith, h, length-vendor_token b.vendor)) (vendor_token-Solid b.vendor),
  strtok_r-append product (b.version ++ b' ' ∷ b.attributes) (omega arith)
      (refl, (refl, (refl, (refl, (refl, (refl, (refl, (refl, tt)))))))),
  match_vendor-token b.vendor,
)

search_index-Changes :
    (r : Resource) (k : Kernel) (left index : ℕ) (m : Machine)
    → Goes (λ _ n. Changes r 0 0 m n) (λ _ _. ⊥) (search_index k left index m)
unfolding search_index
search_index-Changes r k zero index m = ground arith
search_index-Changes r k (suc left) index m =
    grind (arith, search_index-Changes r k left (index + 1))

pub set_distribution-Changes :
    (r : Resource) (k : Kernel) (b : Build) (m : Machine)
    → Goes (λ _ n. Changes r 0 0 m n) (λ _ _. ⊥) (fdo_set_distribution k b m)
unfolding fdo_set_distribution announce
set_distribution-Changes r k b m =
    Goes-bind (λ _ n. Changes r 0 0 m n) (λ _ _. ⊥) (λ _ _. ⊥) (λ _ n. Changes r 0 0 m n)
      (search_index k (maximum_index + 1) 0 m) (announce b)
      (search_index-Changes r k (maximum_index + 1) 0 m) (λ _ _ h. h)
      (λ s n h. elim s [ free_index i ↦ ground (arith, h) | search_failed e ↦ ground (arith, h) ])
