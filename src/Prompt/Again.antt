-- ===== src/Prompt/Again.antt =====
-- src/draw.c: what `decode_filter` shows, typed at the prompt of `fp_common`.
use mathlib.Core.List.{append_assoc, append-nil, map-append}
use sockmon.Base.{
  ℕ, ◌-◌, ◌^◌, ◌≤◌, ◌<◌, ◌≡◌, ◌∙◌, refl, ap, arith, Bool, true, false, ◌&&◌, Bool-cases, inl, inr,
  Option, some, List, [], ◌∷◌, ◌++◌, length, length-append, ltb, leb, ◌==◌, if◌then◌else◌, Run, ok,
  ◌>>=◌,
}
use sockmon.Field.{
  FieldType, CmpOp, op_eq, op_ne, op_gt, op_ge, op_lt, op_le, op_ct, op_nc, op_other, Filter,
}
use sockmon.MainScreen.{Typed, byte, is_newline}
use sockmon.Prompt.Digits.{
  typed, HasHead, decimal-HasHead, decimal-read_number, take-all, length-decimal,
}
use sockmon.Prompt.{
  read_number, read_text, text, read_operand, is_string, Prompted, new_filter, store_operand,
  fp_common, decimal, string_op, number_op, decode_filter,
}
use sockmon.Text.{isprint}

abbrev pub is_number_op : CmpOp → Bool
is_number_op op_eq = true
is_number_op op_ne = true
is_number_op op_gt = true
is_number_op op_ge = true
is_number_op op_lt = true
is_number_op op_le = true
is_number_op _ = false

abbrev pub is_string_op : CmpOp → Bool
is_string_op op_eq = true
is_string_op op_ct = true
is_string_op op_nc = true
is_string_op _ = false

abbrev newline : Typed
newline = byte 10

-- The operator is read back, whatever the old filter is; the operand must not begin with `=`.
abbrev Reads : FieldType → Option Filter → CmpOp → List ℕ → List Typed → Type 0
Reads type old op shown ks =
    fp_common true type old (typed shown ++ ks)
    ≡ (read_operand type ks >>= store_operand true old op)

number_op-Reads :
    (type : FieldType) (old : Option Filter) (op : CmpOp) (c : ℕ) (ks : List Typed)
    → is_number_op op ≡ true
    → (c == b'=') ≡ false
    → Reads type old op (number_op op) (byte c ∷ ks)
unfolding fp_common
number_op-Reads type old op_eq c ks h e = refl
number_op-Reads type old op_ne c ks h e = refl
number_op-Reads type old op_gt c ks h e = rw e
number_op-Reads type old op_ge c ks h e = refl
number_op-Reads type old op_lt c ks h e = rw e
number_op-Reads type old op_le c ks h e = refl
number_op-Reads type old op_ct c ks h e = cc
number_op-Reads type old op_nc c ks h e = cc
number_op-Reads type old op_other c ks h e = cc

string_op-Reads :
    (type : FieldType) (old : Option Filter) (op : CmpOp) (ks : List Typed)
    → is_string_op op ≡ true
    → Reads type old op (string_op op) ks
unfolding fp_common
string_op-Reads type old op_eq ks h = refl
string_op-Reads type old op_ct ks h = refl
string_op-Reads type old op_nc ks h = refl
string_op-Reads type old _ ks h = cc

unfoldable pub is_printable : List ℕ → Bool
is_printable [] = true
is_printable (c ∷ s) = isprint c && is_printable s

isprint-newline : (c : ℕ) → isprint c ≡ true → is_newline c ≡ false
unfolding isprint
isprint-newline c h = ground (arith, h)

pub text_step :
    (c : ℕ) (s : List ℕ) (room : ℕ) (seen : Bool) (ks : List Typed)
    → isprint c ≡ true
    → 0 < room
    → read_text room s seen (byte c ∷ ks) ≡ read_text (room - 1) (s ++ c ∷ []) true ks
unfolding read_text
text_step c s room seen ks h l =
    let full : (room == 0) ≡ false = ground arith in rw (isprint-newline c h, h, full)

read_text-is_printable :
    (s acc : List ℕ) (room : ℕ) (ks : List Typed)
    → is_printable s ≡ true
    → length s < room
    → read_text room acc true (typed s ++ newline ∷ ks) ≡ ok (text (acc ++ s) true ks)
unfolding is_printable
read_text-is_printable [] acc room ks h l =
    let full : (room == 0) ≡ false = ground arith in unfold read_text in rw (full, append-nil acc)
read_text-is_printable (c ∷ s) acc room ks h l =
    text_step c acc room true (typed s ++ newline ∷ ks) (ground (arith, h)) (omega arith)
    ∙ read_text-is_printable s (acc ++ c ∷ []) (room - 1) ks (ground (arith, h)) (omega arith)
    ∙ ap (λ x. ok (text x true ks)) (append_assoc acc (c ∷ []) s)

-- What the prompt returns when it takes a filter.
abbrev pub taken : Filter → List Typed → Run Prompted
taken flt ks = ok (record { failed = false; filter = some flt; keys = ks })

digits-Reads :
    (type : FieldType) (old : Option Filter) (op : CmpOp) (ds : List ℕ) (ks : List Typed)
    → is_number_op op ≡ true
    → HasHead ds
    → Reads type old op (number_op op) (typed ds ++ ks)
digits-Reads type old op ds ks h (c, r, e, ne) =
    rw e (number_op-Reads type old op c (typed r ++ ks) h ne)

-- The operator and the operand, typed one after the other.
typed_append :
    (type : FieldType) (old : Option Filter) (a b : List ℕ) (ks : List Typed)
    → fp_common true type old (typed (a ++ b) ++ ks)
      ≡ fp_common true type old (typed a ++ (typed b ++ ks))
typed_append type old a b ks =
    ap (λ x. fp_common true type old (x ++ ks)) (map-append byte a b)
    ∙ ap (fp_common true type old) (append_assoc (typed a) (typed b) ks)

number-again :
    (type : FieldType) (old : Option Filter) (op : CmpOp) (v : ℕ) (ks : List Typed)
    → is_string type ≡ false
    → is_number_op op ≡ true
    → v < 2 ^ 64
    → fp_common true type old (typed (number_op op ++ decimal 20 v []) ++ newline ∷ ks)
      ≡ taken (new_filter op v []) ks
unfolding read_operand store_operand read_number
number-again type old op v ks t h b =
    typed_append type old (number_op op) (decimal 20 v []) (newline ∷ ks)
    ∙ digits-Reads type old op (decimal 20 v []) (newline ∷ ks) h (decimal-HasHead 19 v)
    ∙ rw (t, decimal-read_number 19 v [] false (newline ∷ ks) (omega arith) b)

string-again :
    (type : FieldType) (old : Option Filter) (op : CmpOp) (s : List ℕ) (ks : List Typed)
    → is_string type ≡ true
    → is_string_op op ≡ true
    → is_printable s ≡ true
    → 1 ≤ length s
    → length s ≤ 77
    → fp_common true type old (typed (string_op op ++ s) ++ newline ∷ ks)
      ≡ taken (new_filter op 0 s) ks
unfolding read_operand store_operand is_printable
string-again type old op [] ks t h p low high = absurd (omega arith)
string-again type old op (c ∷ s) ks t h p low high =
    typed_append type old (string_op op) (c ∷ s) (newline ∷ ks)
    ∙ string_op-Reads type old op (typed (c ∷ s) ++ newline ∷ ks) h
    ∙ rw (
      t,
      text_step c [] 80 false (typed s ++ newline ∷ ks) (ground (arith, p)) (omega arith),
      read_text-is_printable s (c ∷ []) 79 ks (ground (arith, p)) (omega arith),
    )

-- A filter that the prompt can make: a number of 64 bits with a comparison, or a text of 1 to 77
-- printable characters.
unfoldable pub is_typable : FieldType → CmpOp → ℕ → List ℕ → Bool
unfolding is_printable
is_typable type op v s =
    if is_string type
    then is_string_op op && (is_printable s && (leb 1 (length s) && leb (length s) 77))
    else is_number_op op && ltb v (2 ^ 64)

abbrev pub filter_of : FieldType → CmpOp → ℕ → List ℕ → Filter
filter_of type op v s = if is_string type then new_filter op 0 s else new_filter op v []

length-string_op : (op : CmpOp) → length (string_op op) ≤ 2
length-string_op op = ground arith

length-number_op : (op : CmpOp) → length (number_op op) ≤ 2
length-number_op op = ground arith

-- For a comparison with a number of 64 bits under a type that is no string, or a comparison with
-- a text of 1 to 77 printable characters under a string type, the text that decode_filter shows
-- of the filter, typed at the prompt with a newline and with memory at hand, gives the filter
-- again and leaves the keys after the newline, whatever filter stood there.
pub fp_common-decode_filter :
    (type : FieldType) (old : Option Filter) (op : CmpOp) (v : ℕ) (s : List ℕ) (ks : List Typed)
    → is_typable type op v s ≡ true
    → fp_common true type old (typed (decode_filter type (filter_of type op v s)) ++ byte 10 ∷ ks)
      ≡ taken (filter_of type op v s) ks
unfolding is_typable decode_filter
fp_common-decode_filter type old op v s ks h = elim (Bool-cases (is_string type)) [
  | inl t ↦
      rw
        (
          t,
          take-all 79 (string_op op ++ s)
              (ground (arith, h, t, length-string_op op, length-append (string_op op) s)),
        )
        (string-again type old op s ks t (ground (arith, h, t)) (ground (arith, h, t))
          (ground (arith, h, t)) (ground (arith, h, t)))
  | inr t ↦
      rw
        (
          t,
          take-all 79 (number_op op ++ decimal 20 v []) (
              omega (
                arith,
                length-number_op op,
                length-append (number_op op) (decimal 20 v []),
                length-decimal 20 v [],
              )),
        )
        (number-again type old op v ks t (ground (arith, h, t)) (ground (arith, h, t)))
]
