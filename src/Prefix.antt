-- ===== src/Prefix.antt =====
-- src/draw.c: the mask that `fp_addr` makes of a prefix length, and the length that `decode_filter`
-- reads off a mask.
pub mod Length
pub mod Match
use Prim.Native.Nat.{bit_and, bit_or}
use sockmon.Base.{
  ℕ, zero, suc, ◌+◌, ◌-◌, ◌*◌, ◌/◌, ◌%◌, ◌^◌, Bool, true, false, List, [], ◌∷◌, ◌==◌, if◌then◌else◌,
  set, replicate, length,
}

-- `for (j = 7; j >= 8 - rem; --j) m |= 1 << j`, on the rounds left.
unfoldable pub mask_byte : ℕ → ℕ → ℕ → ℕ
mask_byte zero j m = m
mask_byte (suc rounds) j m = mask_byte rounds (j - 1) (bit_or m (2 ^ j))

-- `for (i = 0; i < pfix / 8; ++i) mask[i] = 0xff`, on the rounds left.
unfoldable pub fill : ℕ → ℕ → List ℕ → List ℕ
fill zero i mask = mask
fill (suc rounds) i mask = fill rounds (i + 1) (set mask i 255)

unfoldable pub prefix_mask : ℕ → List ℕ
unfolding mask_byte fill
prefix_mask pfix =
    let filled = fill (pfix / 8) 0 (replicate 16 0) in
    if pfix % 8 == 0 then filled else set filled (pfix / 8) (mask_byte (pfix % 8) 7 0)

-- The bits of one byte from `j` down, on the rounds left: the count, and whether a 0 ended it.
unfoldable pub count_byte : ℕ → ℕ → ℕ → ℕ → ℕ × Bool
count_byte zero j b pfix = (pfix, false)
count_byte (suc rounds) j b pfix =
    let rest = count_byte rounds (j - 1) b (pfix + 1) in
    if bit_and b (2 ^ j) == 0 then (pfix, true) else rest

-- The two loops over the first `len` bytes, with the jump to `next`.
unfoldable pub prefix_length : ℕ → List ℕ → ℕ → ℕ
unfolding count_byte
prefix_length zero mask pfix = pfix
prefix_length (suc len) [] pfix = pfix
prefix_length (suc len) (b ∷ mask) pfix =
    let counted = count_byte 8 7 b pfix in
    let rest = prefix_length len mask counted.0 in if counted.1 then counted.0 else rest
