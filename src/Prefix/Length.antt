-- ===== src/Prefix/Length.antt =====
-- src/draw.c: `prefix_mask` of `fp_addr` beside `prefix_length` of `decode_filter`.
use sockmon.Base.{
  ℕ, zero, suc, ◌-◌, ◌^◌, ◌≤◌, ◌≡◌, refl, arith, Bool, true, false, ◌&&◌, List, [], ◌∷◌, ◌==◌,
  ==_iff, holds_below, holds_below-lt, leb, if◌then◌else◌,
}
use sockmon.Prefix.{prefix_mask, prefix_length}

-- The mask by bytes: the leading bits of each, for the part of the prefix that lies in it.
unfoldable pub mask_of : ℕ → ℕ → List ℕ
mask_of zero pfix = []
mask_of (suc k) pfix = (256 - 2 ^ (8 - pfix)) ∷ mask_of k (pfix - 8)

same_list : List ℕ → List ℕ → Bool
same_list [] [] = true
same_list (a ∷ as_) (b ∷ bs) = a == b && same_list as_ bs
same_list _ _ = false

same_list-eq : (xs ys : List ℕ) → same_list xs ys ≡ true → xs ≡ ys
unfolding same_list
same_list-eq [] [] h = refl
same_list-eq (a ∷ xs) (b ∷ ys) h = ground (arith, same_list-eq xs ys, ==_iff a b)
same_list-eq [] (b ∷ ys) h = cc
same_list-eq (a ∷ xs) [] h = cc

masks : holds_below 129 (λ p. same_list (prefix_mask p) (mask_of 16 p)) ≡ true
unfolding holds_below same_list prefix_mask mask_of
masks = refl

pub prefix_mask-eq : (pfix : ℕ) → pfix ≤ 128 → prefix_mask pfix ≡ mask_of 16 pfix
prefix_mask-eq pfix h =
    same_list-eq (prefix_mask pfix) (mask_of 16 pfix)
      (holds_below-lt 129 (λ p. same_list (prefix_mask p) (mask_of 16 p)) pfix masks (omega arith))

lengths :
    holds_below 129 (λ p.
      prefix_length 16 (prefix_mask p) 0 == p
      && prefix_length 4 (prefix_mask p) 0 == (if leb p 32 then p else 32))
    ≡ true
unfolding holds_below prefix_mask prefix_length
lengths = refl

-- For a prefix length of at most 128, the length that decode_filter reads off the mask that
-- fp_addr made is the prefix length over 16 bytes, and at most 32 of it over the 4 bytes of IPv4.
pub prefix_length-prefix_mask :
    (pfix : ℕ)
    → pfix ≤ 128
    → (prefix_length 16 (prefix_mask pfix) 0 ≡ pfix)
      × (prefix_length 4 (prefix_mask pfix) 0 ≡ (if leb pfix 32 then pfix else 32))
prefix_length-prefix_mask pfix h = ground (
  arith,
  holds_below-lt 129
      (λ p.
        prefix_length 16 (prefix_mask p) 0 == p
        && prefix_length 4 (prefix_mask p) 0 == (if leb p 32 then p else 32))
      pfix lengths,
)
