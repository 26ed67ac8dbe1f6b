-- ===== src/Prompt/Line.antt =====
-- src/draw.c: `fp_common` over a line that is typed at its prompt.
pub mod Heads
use sockmon.Base.{
  ℕ, suc, ◌+◌, ◌-◌, ◌*◌, ◌%◌, ◌^◌, ◌≤◌, ◌<◌, ◌≡◌, refl, arith, Bool, true, false, Bool-cases, inl,
  inr, Option, List, [], ◌∷◌, ◌++◌, length, ◌==◌, if◌then◌else◌, Run, ok, ◌>>=◌,
}
use sockmon.Field.{FieldType, CmpOp, op_eq, op_ne, op_ct, op_nc, op_gt, op_ge, op_lt, op_le, Filter}
use sockmon.MainScreen.{Typed, byte, err, is_newline, skip_line}
use sockmon.MainScreen.Delay.{IsLine, skip_line-line}
use sockmon.Prompt.Line.Heads.{FirstEnds, HeadEnds, skip_blanks-FirstEnds, read_op-HasHead}
use sockmon.Prompt.{
  is_blank, skip_blanks, Head, with_op, without_op, at_newline, or_equal, after_not, read_op,
  Operand, number, text, invalid, read_number, read_text, read_operand, is_string, Prompted,
  store_operand, after_op, fp_common,
}
use sockmon.Text.{isdigit, isprint}

module _ (c : ℕ) (ks : List Typed) (nl : is_newline c ≡ true) where
  OperandEnds : Operand → Type 0
  OperandEnds (number v seen x) = x ≡ ks
  OperandEnds (text s seen x) = x ≡ ks
  OperandEnds (invalid x) = (line : List Typed) × IsLine line × (x ≡ line ++ byte c ∷ ks)

  abbrev HasOperand : Run Operand → Type 0
  HasOperand r = (o : Operand) × (r ≡ ok o) × OperandEnds o

  read_number-HasOperand :
      (v : ℕ) (seen : Bool) (line : List Typed)
      → IsLine line
      → HasOperand (read_number v seen (line ++ byte c ∷ ks))
  unfolding read_number OperandEnds IsLine
  read_number-HasOperand v seen [] h =
      let blank : is_blank c ≡ false = ground (arith, nl) in
      (number v seen ks, rw (blank, nl), refl)
  read_number-HasOperand v seen (err ∷ line) h =
      (invalid (line ++ byte c ∷ ks), refl, (line, h, refl))
  read_number-HasOperand v seen (byte d ∷ line) h = elim (Bool-cases (is_blank d)) [
    | inl blank ↦ rw blank (read_number-HasOperand v seen line h.1)
    | inr solid ↦ elim (Bool-cases (isdigit d)) [
      | inl digit ↦
          rw (solid, h.0, digit)
            (read_number-HasOperand ((v * 10 + (d - b'0')) % 2 ^ 64) true line h.1)
      | inr plain ↦ (invalid (line ++ byte c ∷ ks), rw (solid, h.0, plain), (line, h.1, refl))
    ]
  ]

  read_text-HasOperand :
      (room : ℕ) (s : List ℕ) (seen : Bool) (line : List Typed)
      → IsLine line
      → length line < room
      → HasOperand (read_text room s seen (line ++ byte c ∷ ks))
  unfolding read_text OperandEnds IsLine
  read_text-HasOperand room s seen [] h l =
      let full : (room == 0) ≡ false = ground arith in (text s seen ks, rw (nl, full), refl)
  read_text-HasOperand room s seen (err ∷ line) h l =
      (invalid (line ++ byte c ∷ ks), refl, (line, h, refl))
  read_text-HasOperand room s seen (byte d ∷ line) h l =
      let full : (room == 0) ≡ false = ground arith in
      elim (Bool-cases (isprint d)) [
        | inl print ↦
            rw (h.0, print, full)
              (read_text-HasOperand (room - 1) (s ++ d ∷ []) true line h.1 (omega arith))
        | inr plain ↦ (invalid (line ++ byte c ∷ ks), rw (h.0, plain), (line, h.1, refl))
      ]

  -- The prompt returns, takes the line and no key behind it, and keeps the filter if it fails.
  pub record Asked (old : Option Filter) (r : Run Prompted) : Type 0 where
    pub result : Prompted
    pub returns : r ≡ ok result
    pub rest : result.keys ≡ ks
    pub kept : result.failed ≡ true → result.filter ≡ old

  pub skipped-Asked :
      (old : Option Filter) (line : List Typed)
      → IsLine line
      → Asked old (
          skip_line (line ++ byte c ∷ ks) >>= λ rest.
          ok (record { failed = true; filter = old; keys = rest }))
  skipped-Asked old line h = rw (skip_line-line line ks c h nl) (record {
    result = record { failed = true; filter = old; keys = ks };
    returns = refl;
    rest = refl;
    kept = λ _. refl;
  })

  stored-Asked :
      (alloc : Bool) (old : Option Filter) (op : CmpOp) (o : Operand)
      → OperandEnds o
      → Asked old (store_operand alloc old op o)
  unfolding store_operand OperandEnds
  stored-Asked alloc old op (invalid x) (line, h, e) = rw e (skipped-Asked old line h)
  stored-Asked true old op (number v true x) e = record {
    result = _;
    returns = refl;
    rest = e;
    kept = λ f. absurd (ground (arith, f));
  }
  stored-Asked false old op (number v true x) e = record {
    result = _;
    returns = refl;
    rest = e;
    kept = λ f. refl;
  }
  stored-Asked alloc old op (number v false x) e = record {
    result = _;
    returns = refl;
    rest = e;
    kept = λ f. refl;
  }
  stored-Asked true old op (text s true x) e = record {
    result = _;
    returns = refl;
    rest = e;
    kept = λ f. absurd (ground (arith, f));
  }
  stored-Asked false old op (text s true x) e = record {
    result = _;
    returns = refl;
    rest = e;
    kept = λ f. refl;
  }
  stored-Asked alloc old op (text s false x) e = record {
    result = _;
    returns = refl;
    rest = e;
    kept = λ f. refl;
  }

  operand_of :
      (type : FieldType) (line : List Typed)
      → IsLine line
      → length line ≤ 79
      → HasOperand (read_operand type (line ++ byte c ∷ ks))
  unfolding read_operand
  operand_of type line h l = elim (Bool-cases (is_string type)) [
    | inl t ↦ rw t (read_text-HasOperand 80 [] false line h (omega (arith, l)))
    | inr t ↦ rw t (read_number-HasOperand 0 false line h)
  ]

  after_op-Asked :
      (alloc : Bool) (type : FieldType) (old : Option Filter) (head : Head)
      → HeadEnds c ks nl 79 head
      → Asked old (after_op alloc type old head)
  unfolding after_op HeadEnds
  after_op-Asked alloc type old (with_op op x) (line, h, l, e) =
      let (o, run, ends) = operand_of type line h l in
      rw (e, run) (stored-Asked alloc old op o ends)
  after_op-Asked alloc type old (without_op x) (line, h, l, e) = rw e (skipped-Asked old line h)
  after_op-Asked alloc type old (at_newline x) e = record {
    result = _;
    returns = refl;
    rest = e;
    kept = λ f. refl;
  }

  -- Over a line of at most 80 keys and its newline fp_common returns without a fault, takes
  -- exactly that line, and keeps the old filter if it fails.
  pub fp_common-Asked :
      (alloc : Bool) (type : FieldType) (old : Option Filter) (line : List Typed)
      → IsLine line
      → length line ≤ 80
      → Asked old (fp_common alloc type old (line ++ byte c ∷ ks))
  unfolding fp_common
  fp_common-Asked alloc type old line h l =
      let (ch, x, run, first) = skip_blanks-FirstEnds c ks nl 79 line h l in
      let (head, ops, ends) = read_op-HasHead c ks nl 79 ch x first in
      rw (run, ops) (after_op-Asked alloc type old head ends)
