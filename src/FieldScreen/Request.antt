-- ===== src/FieldScreen/Request.antt =====
-- src/input.c: `field_quit_handler`, which collects the attributes that the next dump asks for.
use sockmon.Base.{
  ℕ, ◌-◌, ◌^◌, ◌≤◌, ◌≡◌, ◌∙◌, arith, Bool, false, not, ◌&&◌, ◌||◌, List, [], ◌∷◌, ◌==◌,
  if◌then◌else◌,
}
use sockmon.Base.Bits.{test_bit, test_bit-bit_or, test_bit-zero, test_bit-pow, bit_and-pow_eq_zero}
use sockmon.Ctx.{Ctx}
use sockmon.Field.{Field, ext_set, ext_is_set}
use sockmon.FieldScreen.{request_loop, common_quit_handler, field_quit_handler}

-- Some enabled field of the table has its values from attribute `e`.
unfoldable pub needs : ℕ → List Field → Bool
needs e [] = false
needs e (f ∷ fs) = (f.enabled && f.ext_req == e) || needs e fs

ext_is_set-test_bit : (ext e : ℕ) → ext_is_set ext e ≡ test_bit (e - 1) ext
unfolding ext_is_set
ext_is_set-test_bit ext e = ground (arith, bit_and-pow_eq_zero (e - 1) ext)

ext_set-test_bit : (ext f j : ℕ) → test_bit j (ext_set ext f) ≡ (test_bit j ext || j == f - 1)
unfolding ext_set
ext_set-test_bit ext f j =
    ground (arith, test_bit-bit_or j ext (2 ^ (f - 1)), test_bit-pow j (f - 1))

request_step :
    (f : Field) (ext e : ℕ)
    → 1 ≤ e
    → test_bit (e - 1) (if f.enabled && not (f.ext_req == 0) then ext_set ext f.ext_req else ext)
      ≡ (test_bit (e - 1) ext || (f.enabled && f.ext_req == e))
request_step f ext e h = ground (arith, ext_set-test_bit ext f.ext_req (e - 1))

request_loop-test_bit :
    (fs : List Field) (ext e : ℕ)
    → 1 ≤ e
    → test_bit (e - 1) (request_loop ext fs) ≡ (test_bit (e - 1) ext || needs e fs)
unfolding request_loop needs
request_loop-test_bit [] ext e h = ground arith
request_loop-test_bit (f ∷ fs) ext e h = ground (
  arith,
  request_loop-test_bit fs
      (if f.enabled && not (f.ext_req == 0) then ext_set ext f.ext_req else ext) e h,
  request_step f ext e h,
)

-- Leaving the field screen asks for an attribute from 1 on exactly if some enabled field of the
-- table needs it.
pub field_quit_handler-ext_req :
    (n : Ctx) (e : ℕ) → 1 ≤ e → ext_is_set (field_quit_handler n).ext_req e ≡ needs e n.tcp_fields
unfolding field_quit_handler common_quit_handler
field_quit_handler-ext_req n e h =
    ext_is_set-test_bit (request_loop 0 n.tcp_fields) e
    ∙ request_loop-test_bit n.tcp_fields 0 e h
    ∙ rw (test_bit-zero (e - 1))
