-- ===== src/Prompt.antt =====
-- src/draw.c: `fp_common`, the prompt for a filter on a number or a text, over the keys that are
-- typed at it, and the text that `decode_filter` shows of such a filter.
pub mod Digits
pub mod Again
pub mod Line
pub mod Defects
use sockmon.Base.{
  ℕ, zero, suc, ◌+◌, ◌-◌, ◌*◌, ◌/◌, ◌%◌, ◌^◌, Bool, true, false, not, ◌||◌, is_none, Option, none,
  some, List, [], ◌∷◌, ◌++◌, ltb, ◌==◌, if◌then◌else◌, take, Run, ok, fault, waits, out_of_bounds,
  ◌>>=◌,
}
use sockmon.Field.{
  FieldType, type_string, CmpOp, op_eq, op_ne, op_gt, op_ge, op_lt, op_le, op_ct, op_nc, Filter,
}
use sockmon.MainScreen.{Typed, byte, err, is_newline, skip_line}
use sockmon.Text.{isdigit, isprint}

abbrev pub is_blank : ℕ → Bool
is_blank c = c == 32 || c == 9

-- The first key that is no blank, and the keys after it.
unfoldable pub skip_blanks : List Typed → Run (Typed × List Typed)
skip_blanks [] = waits
skip_blanks (err ∷ ks) = ok (err, ks)
skip_blanks (byte c ∷ ks) = if is_blank c then skip_blanks ks else ok (byte c, ks)

-- What the switch makes of that key: an operator, an error, or the end of the prompt.
pub data Head : Type 0 where
  with_op : CmpOp → List Typed → Head
  without_op : List Typed → Head
  at_newline : List Typed → Head

-- One more key, which `ungetch` gives back if it is not `=`.
unfoldable pub or_equal : CmpOp → CmpOp → List Typed → Run Head
or_equal alone both [] = waits
or_equal alone both (err ∷ ks) = ok (with_op alone (err ∷ ks))
or_equal alone both (byte c ∷ ks) =
    ok (if c == b'=' then with_op both ks else with_op alone (byte c ∷ ks))

unfoldable pub after_not : List Typed → Run Head
after_not [] = waits
after_not (err ∷ ks) = ok (without_op (err ∷ ks))
after_not (byte c ∷ ks) = ok (
    if c == b'='
    then with_op op_ne ks
    else (if c == b'~' then with_op op_nc ks else without_op (byte c ∷ ks)))

unfoldable pub read_op : Typed → List Typed → Run Head
unfolding or_equal after_not
read_op err ks = ok (without_op ks)
read_op (byte c) ks =
    if c == b'='
    then ok (with_op op_eq ks)
    else (if c == b'!'
        then after_not ks
        else (if c == b'>'
            then or_equal op_gt op_ge ks
            else (if c == b'<'
                then or_equal op_lt op_le ks
                else (if c == b'~'
                    then ok (with_op op_ct ks)
                    else ok (if is_newline c then at_newline ks else without_op ks)))))

-- The operand, with whether a character of it was typed, or an error.
pub data Operand : Type 0 where
  number : ℕ → Bool → List Typed → Operand
  text : List ℕ → Bool → List Typed → Operand
  invalid : List Typed → Operand

-- The loop for a number; `unsigned long long` wraps.
unfoldable pub read_number : ℕ → Bool → List Typed → Run Operand
unfolding isdigit
read_number v seen_input [] = waits
read_number v seen_input (err ∷ ks) = ok (invalid ks)
read_number v seen_input (byte c ∷ ks) =
    let blank = read_number v seen_input ks in
    let digit = read_number ((v * 10 + (c - b'0')) % 2 ^ 64) true ks in
    if is_blank c
    then blank
    else (if is_newline c
        then ok (number v seen_input ks)
        else (if isdigit c then digit else ok (invalid ks)))

-- The loop for a text, with `room` bytes left in `buf`: only the store of a character asks for room.
unfoldable pub read_text : ℕ → List ℕ → Bool → List Typed → Run Operand
unfolding isprint
read_text room s seen_input [] = waits
read_text room s seen_input (err ∷ ks) = ok (invalid ks)
read_text room s seen_input (byte c ∷ ks) =
    let next = read_text (room - 1) (s ++ c ∷ []) true ks in
    if is_newline c
    then (if room == 0 then fault out_of_bounds else ok (text s seen_input ks))
    else (if isprint c then (if room == 0 then ok (invalid ks) else next) else ok (invalid ks))

abbrev pub is_string : FieldType → Bool
is_string type_string = true
is_string _ = false

abbrev pub buf_size : ℕ
buf_size = 80

unfoldable pub read_operand : FieldType → List Typed → Run Operand
unfolding read_number read_text
read_operand type ks =
    if is_string type then read_text buf_size [] false ks else read_number 0 false ks

-- Whether the prompt fails, the field's filter, and the keys left.
pub record Prompted : Type 0 where
  pub failed : Bool
  pub filter : Option Filter
  pub keys : List Typed

-- A filter of which one member of the union is in use.
abbrev pub new_filter : CmpOp → ℕ → List ℕ → Filter
new_filter op v s = record { op = op; v = v; selected = 0; addr = []; mask = []; family = 0; s = s }

-- What follows the loops: memory for the filter is there, or the prompt fails.
unfoldable pub store_operand : Bool → Option Filter → CmpOp → Operand → Run Prompted
unfolding skip_line
store_operand alloc old op (invalid ks) =
    skip_line ks >>= λ rest. ok (record { failed = true; filter = old; keys = rest })
store_operand alloc old op (number v seen_input ks) = ok (
    if seen_input
    then record {
      failed = not alloc;
      filter = if alloc then some (new_filter op v []) else old;
      keys = ks;
    }
    else record { failed = false; filter = old; keys = ks })
store_operand alloc old op (text s seen_input ks) = ok (
    if seen_input
    then record {
      failed = not alloc;
      filter = if alloc then some (new_filter op 0 s) else old;
      keys = ks;
    }
    else record { failed = false; filter = old; keys = ks })

unfoldable pub after_op : Bool → FieldType → Option Filter → Head → Run Prompted
unfolding read_operand store_operand
after_op alloc type old (at_newline ks) =
    ok (record { failed = is_none old; filter = old; keys = ks })
after_op alloc type old (without_op ks) =
    skip_line ks >>= λ rest. ok (record { failed = true; filter = old; keys = rest })
after_op alloc type old (with_op op ks) = read_operand type ks >>= store_operand alloc old op

-- `alloc` says whether `calloc` and `strdup` return memory.
unfoldable pub fp_common : Bool → FieldType → Option Filter → List Typed → Run Prompted
unfolding skip_blanks read_op after_op
fp_common alloc type old keys = do
  (ch, ks) ← skip_blanks keys
  head ← read_op ch ks
  after_op alloc type old head

-- `%llu`: the digits of a number below 10 ^ 20.
unfoldable pub decimal : ℕ → ℕ → List ℕ → List ℕ
decimal zero v s = s
decimal (suc k) v s =
    let more = decimal k (v / 10) ((b'0' + v % 10) ∷ s) in
    if ltb v 10 then (b'0' + v % 10) ∷ s else more

abbrev pub string_op : CmpOp → List ℕ
string_op op_eq = b'=' ∷ []
string_op op_ct = b'~' ∷ []
string_op op_nc = b'!' ∷ b'~' ∷ []
string_op _ = b'?' ∷ []

abbrev pub number_op : CmpOp → List ℕ
number_op op_eq = b'=' ∷ []
number_op op_ne = b'!' ∷ b'=' ∷ []
number_op op_gt = b'>' ∷ []
number_op op_ge = b'>' ∷ b'=' ∷ []
number_op op_lt = b'<' ∷ []
number_op op_le = b'<' ∷ b'=' ∷ []
number_op _ = b'?' ∷ []

-- The text of `decode_filter`, which `snprintf` cuts to the size of `buf`, for a filter on no address.
unfoldable pub decode_filter : FieldType → Filter → List ℕ
unfolding decimal
decode_filter type flt =
    take (buf_size - 1) (
      if is_string type then string_op flt.op ++ flt.s else number_op flt.op ++ decimal 20 flt.v [])
