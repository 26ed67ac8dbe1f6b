-- ===== src/Proc/Hash.antt =====
-- src/proc.c: the bucket of an inode (`sk_ino_hash`), and the shape of the table.
use native.Mathlib.Nat.{pow-suc, zero-add, suc-add, div-lt_iff_lt-mul}
use sockmon.Base.Bits.{pow-pos}
use sockmon.Base.{ℕ, zero, suc, ◌+◌, ◌-◌, ◌*◌, ◌/◌, ◌^◌, ◌≤◌, ◌<◌, ◌≡◌, arith, ok, length, lt→ltb}
use sockmon.Proc.{SkMap, u32, hash_multiplier, sk_ino_hash}

pub pow_add : (a b : ℕ) → 2 ^ (a + b) ≡ 2 ^ a * 2 ^ b
pow_add zero b = rw zero-add (omega arith)
pow_add (suc a) b = rw suc-add (grind (arith, pow_add a b, pow-suc 2 a, pow-suc 2 (a + b)))

-- The table has as many buckets as its shift says, and the shift is one that `sk_ino_hash` can use.
pub record IsSized (m : SkMap) : Type 0 where
  pub sized : length m.sk_ino_hb ≡ m.map_hash_sz
  pub power : m.map_hash_sz ≡ 2 ^ m.map_hash_shift
  pub shift_low : 1 ≤ m.map_hash_shift
  pub shift_high : m.map_hash_shift ≤ 31

word_bits : (s : ℕ) → s ≤ 31 → s + (32 - s) ≡ 32
word_bits s h = omega arith

unfoldable pub home : SkMap → ℕ → ℕ
home m inode = u32 (inode * hash_multiplier) / 2 ^ (32 - m.map_hash_shift)

pub hash-home : {m : SkMap} → IsSized m → (inode : ℕ) → sk_ino_hash m inode ≡ ok (home m inode)
unfolding sk_ino_hash home
hash-home {m} v inode = rw (lt→ltb (32 - m.map_hash_shift) 32 (omega arith))

pub home-lt : {m : SkMap} → IsSized m → (inode : ℕ) → home m inode < m.map_hash_sz
unfolding home
home-lt {m} v inode = rw v.power (
    (div-lt_iff_lt-mul (pow-pos (32 - m.map_hash_shift))).1 (
      rw
        (
          ← pow_add m.map_hash_shift (32 - m.map_hash_shift),
          word_bits m.map_hash_shift (omega arith),
        )
        (omega arith)))
