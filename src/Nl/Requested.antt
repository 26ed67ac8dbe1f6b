-- ===== src/Nl/Requested.antt =====
-- src/nl.c: `build_request` beside the attributes that the context asks for.
use sockmon.Base.{
  ℕ, zero, suc, ◌-◌, ◌%◌, ◌/◌, ◌≤◌, ◌<◌, ◌≡◌, refl, arith, true, false, not, ◌&&◌, leb, ltb,
  holds_below, holds_below-lt,
}
use sockmon.Base.Bits.{test_bit, test_bit-zero, bit_and-pow_eq_zero}
use sockmon.Ctx.{Ctx}
use sockmon.Field.{ext_is_set}
use sockmon.Nl.{build_request, tcpf_all}

-- The lowest byte has the lowest eight bits.
test_bit-byte : (k x : ℕ) → test_bit k (x % 256) ≡ (test_bit k x && ltb k 8)
unfolding test_bit
test_bit-byte zero x = ground arith
test_bit-byte (suc zero) x = ground arith
test_bit-byte (suc (suc zero)) x = ground arith
test_bit-byte (suc (suc (suc zero))) x = ground arith
test_bit-byte (suc (suc (suc (suc zero)))) x = ground arith
test_bit-byte (suc (suc (suc (suc (suc zero))))) x = ground arith
test_bit-byte (suc (suc (suc (suc (suc (suc zero)))))) x = ground arith
test_bit-byte (suc (suc (suc (suc (suc (suc (suc zero))))))) x = ground arith
test_bit-byte (suc (suc (suc (suc (suc (suc (suc (suc k)))))))) x =
    let e : x % 256 / 2 / 2 / 2 / 2 / 2 / 2 / 2 / 2 ≡ 0 = omega arith in
    rw e (ground (arith, test_bit-zero k))

ext_is_set-test_bit : (ext flag : ℕ) → ext_is_set ext flag ≡ test_bit (flag - 1) ext
unfolding ext_is_set
ext_is_set-test_bit ext flag = ground (arith, bit_and-pow_eq_zero (flag - 1) ext)

states :
    holds_below 32 (λ s. elim (test_bit s tcpf_all) [
      | true ↦ leb 1 s && leb s 11
      | false ↦ not (leb 1 s && leb s 11)
    ])
    ≡ true
unfolding holds_below tcpf_all test_bit
states = refl

-- The request has the bit of an attribute from 1 on exactly if the context asks for it and its
-- number is at most 8, and the bit of a state exactly for the states 1 to 11.
pub build_request-bits :
    (n : Ctx) (flag state : ℕ)
    → 1 ≤ flag
    → state < 32
    → (ext_is_set (build_request n).idiag_ext flag ≡ (ext_is_set n.ext_req flag && leb flag 8))
      × (test_bit state (build_request n).idiag_states ≡ (leb 1 state && leb state 11))
unfolding build_request
build_request-bits n flag state hf hs = (
  ground (
    arith,
    ext_is_set-test_bit (n.ext_req % 256) flag,
    ext_is_set-test_bit n.ext_req flag,
    test_bit-byte (flag - 1) n.ext_req,
  ),
  ground (
    arith,
    holds_below-lt 32
        (λ s. elim (test_bit s tcpf_all) [
          | true ↦ leb 1 s && leb s 11
          | false ↦ not (leb 1 s && leb s 11)
        ])
        state states hs,
  ),
)
