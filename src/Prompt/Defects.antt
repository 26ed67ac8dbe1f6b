-- ===== src/Prompt/Defects.antt =====
-- src/draw.c: two lines at the prompt of `fp_common`: one that fills `buf`, and one without an
-- operand.
use sockmon.Accept.{inside, apply_common, read_bytes}
use sockmon.Accept.Numbers.{is_number}
use sockmon.Base.{
  ℕ, ◌-◌, ◌≡◌, ◌∙◌, refl, arith, Bool, true, false, Option, none, List, [], ◌∷◌, ◌++◌, length, ◌==◌,
  ok, fault, out_of_bounds, null_pointer,
}
use sockmon.Conn.{Bytes}
use sockmon.Field.{
  FieldType, Filter, type_string, type_u8, type_u16, type_u16_port, type_u32, type_u64,
}
use sockmon.MainScreen.{Typed, byte}
use sockmon.Prompt.{fp_common, read_number, read_text, read_operand, is_string}
use sockmon.Prompt.Digits.{typed}
use sockmon.Prompt.Again.{is_printable, text_step}

read_text-full :
    (s acc : List ℕ) (room : ℕ) (seen : Bool) (ks : List Typed)
    → is_printable s ≡ true
    → length s ≡ room
    → read_text room acc seen (typed s ++ byte 10 ∷ ks) ≡ fault out_of_bounds
unfolding is_printable
read_text-full [] acc room seen ks h e =
    let full : (room == 0) ≡ true = ground (arith, e) in unfold read_text in rw full
read_text-full (c ∷ s) acc room seen ks h e =
    text_step c acc room seen (typed s ++ byte 10 ∷ ks) (ground (arith, h)) (omega (arith, e))
    ∙ read_text-full s (acc ++ c ∷ []) (room - 1) true ks (ground (arith, h)) (omega (arith, e))

-- Under a string type, an operator = and 80 printable characters with a newline make fp_common
-- store behind the end of buf.
pub fp_common-overflow :
    (alloc : Bool) (old : Option Filter) (s : List ℕ) (ks : List Typed)
    → is_printable s ≡ true
    → length s ≡ 80
    → fp_common alloc type_string old (byte b'=' ∷ typed s ++ byte 10 ∷ ks) ≡ fault out_of_bounds
unfolding fp_common read_operand
fp_common-overflow alloc old s ks h e = rw (read_text-full s [] 80 false ks h e)

null_filter :
    (type : FieldType) (m : Bytes) (p : ℕ)
    → is_number type ≡ true
    → apply_common type none (inside m p) ≡ fault null_pointer
unfolding apply_common is_number read_bytes
null_filter type_u8 m p h = refl
null_filter type_u16 m p h = refl
null_filter type_u16_port m p h = refl
null_filter type_u32 m p h = refl
null_filter type_u64 m p h = refl
null_filter _ m p h = cc

number_kind : (type : FieldType) → is_number type ≡ true → is_string type ≡ false
unfolding is_number
number_kind type_string h = cc
number_kind _ h = refl

-- Under a type of numbers and with no filter set, an operator = with a newline makes fp_common
-- succeed without a filter, and fa_common then reads through NULL.
pub fp_common-null :
    (alloc : Bool) (type : FieldType) (m : Bytes) (p : ℕ) (ks : List Typed)
    → is_number type ≡ true
    → (fp_common alloc type none (byte b'=' ∷ byte 10 ∷ ks)
        ≡ ok (record { failed = false; filter = none; keys = ks }))
      × (apply_common type none (inside m p) ≡ fault null_pointer)
unfolding fp_common read_operand read_number
fp_common-null alloc type m p ks h = (rw (number_kind type h), null_filter type m p h)
