-- ===== src/Prefix/Match.antt =====
-- src/draw.c: `fa_addr` under the mask that `fp_addr` makes, beside the leading bits of the addresses.
use Prim.Native.Nat.{bit_and}
use native.Mathlib.Nat.{one-le-pow, mul-lt-mul_of_pos_right}
use sockmon.Accept.{apply_addr, masked_loop, is_ne}
use sockmon.Base.{
  ℕ, zero, suc, ◌+◌, ◌-◌, ◌*◌, ◌/◌, ◌^◌, ◌≤◌, ◌<◌, ◌≡◌, refl, arith, Bool, true, false, not, ◌&&◌,
  some, List, [], ◌∷◌, leb, ◌==◌, if◌then◌else◌, length, ok, holds_below, holds_below-lt, ==_iff,
}
use sockmon.Conn.{Bytes, load_u8, af_inet}
use sockmon.Field.{Filter}
use sockmon.Prefix.{prefix_mask}
use sockmon.Prefix.Length.{mask_of, prefix_mask-eq}

-- The first `pfix` bits of two bytes agree; 8 or more are the whole bytes.
unfoldable pub same_top : ℕ → ℕ → ℕ → Bool
same_top pfix a b = a / 2 ^ (8 - pfix) == b / 2 ^ (8 - pfix)

-- The first `pfix` bits agree, of `k` bytes in memory and the address.
unfoldable pub same_prefix : ℕ → ℕ → Bytes → ℕ → List ℕ → Bool
unfolding same_top
same_prefix zero pfix m p addr = true
same_prefix (suc k) pfix m p [] = false
same_prefix (suc k) pfix m p (b ∷ addr) =
    same_top pfix (load_u8 m p) b && same_prefix k (pfix - 8) m (p + 1) addr

unfoldable pub are_bytes : List ℕ → Bool
are_bytes [] = true
are_bytes (b ∷ bs) = leb b 255 && are_bytes bs

tops :
    holds_below 9 (λ r. holds_below 256 (λ a. bit_and a (256 - 2 ^ r) == a / 2 ^ r * 2 ^ r)) ≡ true
unfolding holds_below
tops = refl

bit_and-top : (r a : ℕ) → r < 9 → a < 256 → bit_and a (256 - 2 ^ r) ≡ a / 2 ^ r * 2 ^ r
bit_and-top r a hr ha = (==_iff _ _).0 (
    holds_below-lt 256 (λ a. bit_and a (256 - 2 ^ r) == a / 2 ^ r * 2 ^ r) a
      (holds_below-lt 9 (λ r. holds_below 256 (λ a. bit_and a (256 - 2 ^ r) == a / 2 ^ r * 2 ^ r)) r
        tops hr)
      ha)

-- The mask of one byte compares its leading bits.
times-== : (d x y : ℕ) → 0 < d → (x * d == y * d) ≡ (x == y)
times-== d x y h = ground (
  arith,
  mul-lt-mul_of_pos_right {m = x} {n = y} {k = d},
  mul-lt-mul_of_pos_right {m = y} {n = x} {k = d},
)

byte_test :
    (pfix a b : ℕ)
    → a < 256
    → b < 256
    → (bit_and a (256 - 2 ^ (8 - pfix)) == bit_and b (256 - 2 ^ (8 - pfix))) ≡ same_top pfix a b
unfolding same_top
byte_test pfix a b ha hb =
    rw (bit_and-top (8 - pfix) a (omega arith) ha, bit_and-top (8 - pfix) b (omega arith) hb)
      (times-== (2 ^ (8 - pfix)) _ _ (one-le-pow (8 - pfix) 2 (omega arith)))

masked_loop-same_prefix :
    (k n pfix : ℕ) (m : Bytes) (p : ℕ) (addr : List ℕ)
    → k ≤ n
    → are_bytes addr ≡ true
    → k ≤ length addr
    → masked_loop k m p addr (mask_of n pfix) ≡ ok (same_prefix k pfix m p addr)
unfolding masked_loop mask_of same_prefix are_bytes load_u8
masked_loop-same_prefix zero n pfix m p addr hn hb hl = refl
masked_loop-same_prefix (suc k) n pfix m p [] hn hb hl = absurd (omega arith)
masked_loop-same_prefix (suc k) zero pfix m p (b ∷ addr) hn hb hl = absurd (omega arith)
masked_loop-same_prefix (suc k) (suc n) pfix m p (b ∷ addr) hn hb hl =
    rw (byte_test pfix (load_u8 m p) b (omega arith) (ground arith)) ground
      (arith, masked_loop-same_prefix k n (pfix - 8) m (p + 1) addr)

-- What the filter should say.
unfoldable pub in_network : Filter → ℕ → ℕ → Bytes → ℕ → Bool
in_network flt pfix family m p =
    let same =
      family == flt.family && same_prefix (if family == af_inet then 4 else 16) pfix m p flt.addr in
    if is_ne flt.op then not same else same

-- Under the mask of a prefix length of at most 128, with an address of 16 bytes, fa_addr accepts
-- exactly the addresses of the same family whose first bits, as many as the prefix length and at
-- most 32 for IPv4, are those of the filter; with the operator != exactly the others.
pub apply_addr-in_network :
    (flt : Filter) (pfix family : ℕ) (m : Bytes) (p : ℕ)
    → pfix ≤ 128
    → flt.mask ≡ prefix_mask pfix
    → are_bytes flt.addr ≡ true
    → length flt.addr ≡ 16
    → apply_addr (some flt) family m p ≡ ok (in_network flt pfix family m p)
unfolding apply_addr in_network
apply_addr-in_network flt pfix family m p hp e hb hl =
    rw (e, prefix_mask-eq pfix hp) ground
      (
        arith,
        masked_loop-same_prefix 4 16 pfix m p flt.addr,
        masked_loop-same_prefix 16 16 pfix m p flt.addr,
      )
