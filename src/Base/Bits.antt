-- ===== src/Base/Bits.antt =====
-- Bit masks: `x & m`, `x | m` and `x & ~m` on unsigned words, read bit by bit.
use Prim.Native.Nat.{
  ℕ, zero, suc, ◌+◌, ◌-◌, ◌*◌, ◌/◌, ◌%◌, ◌^◌, ◌≤◌, ◌<◌, min, max, bit_and, bit_or, digits,
  bit_and-bitwise, bit_or-bitwise,
}
use mathlib.Core.Path.{◌≡◌, refl}
use mathlib.Core.Bool.{Bool, false, not, ◌&&◌, ◌||◌}
use native.Mathlib.Omega.{arith}
use native.Mathlib.Nat.{pow-suc}
use sockmon.Base.Tests.{◌==◌, if◌then◌else◌}

-- Bit `k` of `x`.
unfoldable pub test_bit : ℕ → ℕ → Bool
test_bit zero x = x % 2 == 1
test_bit (suc k) x = test_bit k (x / 2)

-- More steps than the first word has digits change nothing.
module _ (leaf : ℕ → ℕ) (op : ℕ → ℕ → ℕ) where
  enough : (a b n m : ℕ) → a ≤ n → a ≤ m → digits leaf op n a b ≡ digits leaf op m a b
  enough zero b zero zero low high = refl
  enough zero b zero (suc m) low high = refl
  enough zero b (suc n) zero low high = refl
  enough zero b (suc n) (suc m) low high = refl
  enough (suc a) b zero m low high = absurd (omega arith)
  enough (suc a) b (suc n) zero low high = absurd (omega arith)
  enough (suc a) b (suc n) (suc m) low high =
      rw (enough (suc a / 2) (b / 2) n m (omega arith) (omega arith))

bit_and_step : (a b : ℕ) → bit_and a b ≡ bit_and (a / 2) (b / 2) * 2 + min (a % 2) (b % 2)
bit_and_step zero b = omega (arith, bit_and-bitwise 0 (b / 2), bit_and-bitwise 0 b)
bit_and_step (suc a) b =
    let shorter =
      enough (λ b. zero) min (suc a / 2) (b / 2) a (suc a / 2) (omega arith) (omega arith) in
    omega (arith, shorter, bit_and-bitwise (suc a / 2) (b / 2), bit_and-bitwise (suc a) b)

bit_or_step : (a b : ℕ) → bit_or a b ≡ bit_or (a / 2) (b / 2) * 2 + max (a % 2) (b % 2)
bit_or_step zero b = omega (arith, bit_or-bitwise 0 (b / 2), bit_or-bitwise 0 b)
bit_or_step (suc a) b =
    let shorter =
      enough (λ b. b) max (suc a / 2) (b / 2) a (suc a / 2) (omega arith) (omega arith) in
    omega (arith, shorter, bit_or-bitwise (suc a / 2) (b / 2), bit_or-bitwise (suc a) b)

bit_and-half : (a b : ℕ) → bit_and a b / 2 ≡ bit_and (a / 2) (b / 2)
bit_and-half a b = omega (arith, bit_and_step a b)

bit_or-half : (a b : ℕ) → bit_or a b / 2 ≡ bit_or (a / 2) (b / 2)
bit_or-half a b = omega (arith, bit_or_step a b)

pub test_bit-bit_and : (k a b : ℕ) → test_bit k (bit_and a b) ≡ (test_bit k a && test_bit k b)
unfolding test_bit
test_bit-bit_and zero a b = ground (arith, bit_and_step a b)
test_bit-bit_and (suc k) a b = rw (bit_and-half a b) (test_bit-bit_and k (a / 2) (b / 2))

pub test_bit-bit_or : (k a b : ℕ) → test_bit k (bit_or a b) ≡ (test_bit k a || test_bit k b)
unfolding test_bit
test_bit-bit_or zero a b = ground (arith, bit_or_step a b)
test_bit-bit_or (suc k) a b = rw (bit_or-half a b) (test_bit-bit_or k (a / 2) (b / 2))

pub test_bit-zero : (k : ℕ) → test_bit k 0 ≡ false
unfolding test_bit
test_bit-zero zero = refl
test_bit-zero (suc k) = test_bit-zero k

pow-suc_half : (k : ℕ) → 2 ^ suc k / 2 ≡ 2 ^ k
pow-suc_half k = omega (arith, pow-suc 2 k)

pow-suc_even : (k : ℕ) → 2 ^ suc k % 2 ≡ 0
pow-suc_even k = omega (arith, pow-suc 2 k)

pub test_bit-pow : (j k : ℕ) → test_bit j (2 ^ k) ≡ (j == k)
unfolding test_bit
test_bit-pow zero zero = refl
test_bit-pow zero (suc k) = ground (arith, pow-suc_even k)
test_bit-pow (suc j) zero = ground (arith, test_bit-zero j)
test_bit-pow (suc j) (suc k) = rw (pow-suc_half k) (ground (arith, test_bit-pow j k))

le_below : (top : ℕ) (a b : ℕ) → a < top → bit_and a b ≤ b
le_below zero a b below = absurd (omega arith)
le_below (suc top) zero b below = omega (arith, bit_and-bitwise 0 b)
le_below (suc top) (suc a) b below =
    omega (arith, le_below top (suc a / 2) (b / 2) (omega arith), bit_and_step (suc a) b)

pub bit_and-le : (a b : ℕ) → bit_and a b ≤ b
bit_and-le a b = le_below (suc a) a b (omega arith)

pub pow-pos : (k : ℕ) → 0 < 2 ^ k
pow-pos zero = omega arith
pow-pos (suc k) = omega (arith, pow-suc 2 k, pow-pos k)

complement-half : (w x : ℕ) → x < 2 ^ suc w → (2 ^ suc w - 1 - x) / 2 ≡ 2 ^ w - 1 - x / 2
complement-half w x h = omega (arith, pow-suc 2 w)

bit_or-nil : (a b : ℕ) → a < 1 → b < 1 → bit_or a b ≡ 0
bit_or-nil zero zero p q = refl
bit_or-nil zero (suc b) p q = absurd (omega arith)
bit_or-nil (suc a) b p q = absurd (omega arith)

-- A mask with one bit leaves that bit.
pub bit_and-pow : (k x : ℕ) → bit_and x (2 ^ k) ≡ (if test_bit k x then 2 ^ k else 0)
unfolding test_bit
bit_and-pow zero x = ground (arith, bit_and_step x 1, bit_and-le (x / 2) 0)
bit_and-pow (suc k) x = ground (
  arith,
  bit_and_step x (2 ^ suc k),
  bit_and-pow k (x / 2),
  pow-suc_half k,
  pow-suc_even k,
  pow-suc 2 k,
)

-- The C test `x & (1 << k)`.
pub bit_and-pow_eq_zero : (k x : ℕ) → (bit_and x (2 ^ k) == 0) ≡ not (test_bit k x)
bit_and-pow_eq_zero k x = ground (arith, bit_and-pow k x, pow-pos k)

-- `~x` on a word of `w` bits.
pub test_bit-complement :
    (k w x : ℕ) → k < w → x < 2 ^ w → test_bit k (2 ^ w - 1 - x) ≡ not (test_bit k x)
unfolding test_bit
test_bit-complement k zero x h b = absurd (omega arith)
test_bit-complement zero (suc w) x h b = ground (arith, pow-suc 2 w, pow-pos w, complement-half w x)
test_bit-complement (suc k) (suc w) x h b =
    rw (complement-half w x b)
      (test_bit-complement k w (x / 2) (omega arith) (omega (arith, pow-suc 2 w)))

pub bit_or-lt : (w a b : ℕ) → a < 2 ^ w → b < 2 ^ w → bit_or a b < 2 ^ w
bit_or-lt zero a b p q = omega (arith, bit_or-nil a b)
bit_or-lt (suc w) a b p q = omega (
  arith,
  bit_or_step a b,
  pow-suc 2 w,
  bit_or-lt w (a / 2) (b / 2) (omega (arith, pow-suc 2 w)) (omega (arith, pow-suc 2 w)),
)
