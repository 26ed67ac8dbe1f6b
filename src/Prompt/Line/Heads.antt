-- ===== src/Prompt/Line/Heads.antt =====
-- src/draw.c: the operator that `fp_common` reads off a line.
use sockmon.Base.{
  ℕ, suc, ◌≤◌, ◌≡◌, refl, arith, true, false, Bool-cases, inl, inr, List, [], ◌∷◌, ◌++◌, length,
  ◌==◌, if◌then◌else◌, Run, ok,
}
use sockmon.Field.{CmpOp, op_eq, op_ne, op_ct, op_nc, op_gt, op_ge, op_lt, op_le}
use sockmon.MainScreen.{Typed, byte, err, is_newline}
use sockmon.MainScreen.Delay.{IsLine}
use sockmon.Prompt.{
  is_blank, skip_blanks, Head, with_op, without_op, at_newline, or_equal, after_not, read_op,
}

-- The keys are a rest of the line, of at most `n` keys, its newline, and what comes after it.
abbrev pub Tail : ℕ → List Typed → ℕ → List Typed → Type 0
Tail c ks n x = (line : List Typed) × IsLine line × (length line ≤ n) × (x ≡ line ++ byte c ∷ ks)

module _ (c : ℕ) (ks : List Typed) (nl : is_newline c ≡ true) where
  -- The first key, of the line or its newline.
  unfoldable pub FirstEnds : ℕ → Typed → List Typed → Type 0
  FirstEnds n err x = Tail c ks n x
  FirstEnds n (byte d) x = if is_newline d then (x ≡ ks) else Tail c ks n x

  pub skip_blanks-FirstEnds :
      (n : ℕ) (line : List Typed)
      → IsLine line
      → length line ≤ suc n
      → (ch : Typed) × (x : List Typed) × (skip_blanks (line ++ byte c ∷ ks) ≡ ok (ch, x))
        × FirstEnds n ch x
  unfolding skip_blanks FirstEnds IsLine
  skip_blanks-FirstEnds n [] h l =
      let blank : is_blank c ≡ false = ground (arith, nl) in (byte c, ks, rw blank, rw nl refl)
  skip_blanks-FirstEnds n (err ∷ line) h l =
      (err, line ++ byte c ∷ ks, refl, (line, h, omega (arith, l), refl))
  skip_blanks-FirstEnds n (byte d ∷ line) h l = elim (Bool-cases (is_blank d)) [
    | inl blank ↦ rw blank (skip_blanks-FirstEnds n line h.1 (omega (arith, l)))
    | inr other ↦
        (byte d, line ++ byte c ∷ ks, rw other, rw h.0 (line, h.1, omega (arith, l), refl))
  ]

  unfoldable pub HeadEnds : ℕ → Head → Type 0
  HeadEnds n (with_op op x) = Tail c ks n x
  HeadEnds n (without_op x) = Tail c ks n x
  HeadEnds n (at_newline x) = x ≡ ks

  abbrev pub HasHead : ℕ → Run Head → Type 0
  HasHead n r = (h : Head) × (r ≡ ok h) × HeadEnds n h

  or_equal-HasHead :
      (alone both : CmpOp) (n : ℕ) (line : List Typed)
      → IsLine line
      → length line ≤ n
      → HasHead n (or_equal alone both (line ++ byte c ∷ ks))
  unfolding or_equal HeadEnds IsLine
  or_equal-HasHead alone both n [] h l =
      let other : (c == b'=') ≡ false = ground (arith, nl) in
      (with_op alone (byte c ∷ ks), rw other, ([], tt, omega arith, refl))
  or_equal-HasHead alone both n (err ∷ line) h l =
      (with_op alone (err ∷ line ++ byte c ∷ ks), refl, (err ∷ line, h, l, refl))
  or_equal-HasHead alone both n (byte d ∷ line) h l = elim (Bool-cases (d == b'=')) [
    | inl same ↦ (with_op both (line ++ byte c ∷ ks), rw same, (line, h.1, omega (arith, l), refl))
    | inr other ↦
        (with_op alone (byte d ∷ line ++ byte c ∷ ks), rw other, (byte d ∷ line, h, l, refl))
  ]

  after_not-HasHead :
      (n : ℕ) (line : List Typed)
      → IsLine line
      → length line ≤ n
      → HasHead n (after_not (line ++ byte c ∷ ks))
  unfolding after_not HeadEnds IsLine
  after_not-HasHead n [] h l =
      let other : (c == b'=') ≡ false = ground (arith, nl) in
      let tilde : (c == b'~') ≡ false = ground (arith, nl) in
      (without_op (byte c ∷ ks), rw (other, tilde), ([], tt, omega arith, refl))
  after_not-HasHead n (err ∷ line) h l =
      (without_op (err ∷ line ++ byte c ∷ ks), refl, (err ∷ line, h, l, refl))
  after_not-HasHead n (byte d ∷ line) h l = elim (Bool-cases (d == b'=')) [
    | inl same ↦ (with_op op_ne (line ++ byte c ∷ ks), rw same, (line, h.1, omega (arith, l), refl))
    | inr other ↦ elim (Bool-cases (d == b'~')) [
      | inl tilde ↦ (
        with_op op_nc (line ++ byte c ∷ ks),
        rw (other, tilde),
        (line, h.1, omega (arith, l), refl),
      )
      | inr none_of ↦ (
        without_op (byte d ∷ line ++ byte c ∷ ks),
        rw (other, none_of),
        (byte d ∷ line, h, l, refl),
      )
    ]
  ]

  -- The key is none of the operators.
  read_op-newline :
      (d : ℕ) (x : List Typed) → is_newline d ≡ true → read_op (byte d) x ≡ ok (at_newline x)
  unfolding read_op
  read_op-newline d x h =
      let e₁ : (d == b'=') ≡ false = ground (arith, h) in
      let e₂ : (d == b'!') ≡ false = ground (arith, h) in
      let e₃ : (d == b'>') ≡ false = ground (arith, h) in
      let e₄ : (d == b'<') ≡ false = ground (arith, h) in
      let e₅ : (d == b'~') ≡ false = ground (arith, h) in rw (e₁, e₂, e₃, e₄, e₅, h)

  read_op-other :
      (d n : ℕ) (line : List Typed)
      → is_newline d ≡ false
      → IsLine line
      → length line ≤ n
      → HasHead n (read_op (byte d) (line ++ byte c ∷ ks))
  unfolding read_op HeadEnds
  read_op-other d n line plain h l = elim (Bool-cases (d == b'=')) [
    | inl e₁ ↦ (with_op op_eq (line ++ byte c ∷ ks), rw e₁, (line, h, l, refl))
    | inr e₁ ↦ elim (Bool-cases (d == b'!')) [
      | inl e₂ ↦ rw (e₁, e₂) (after_not-HasHead n line h l)
      | inr e₂ ↦ elim (Bool-cases (d == b'>')) [
        | inl e₃ ↦ rw (e₁, e₂, e₃) (or_equal-HasHead op_gt op_ge n line h l)
        | inr e₃ ↦ elim (Bool-cases (d == b'<')) [
          | inl e₄ ↦ rw (e₁, e₂, e₃, e₄) (or_equal-HasHead op_lt op_le n line h l)
          | inr e₄ ↦ elim (Bool-cases (d == b'~')) [
            | inl e₅ ↦
                (with_op op_ct (line ++ byte c ∷ ks), rw (e₁, e₂, e₃, e₄, e₅), (line, h, l, refl))
            | inr e₅ ↦ (
              without_op (line ++ byte c ∷ ks),
              rw (e₁, e₂, e₃, e₄, e₅, plain),
              (line, h, l, refl),
            )
          ]
        ]
      ]
    ]
  ]

  pub read_op-HasHead :
      (n : ℕ) (ch : Typed) (x : List Typed) → FirstEnds n ch x → HasHead n (read_op ch x)
  unfolding FirstEnds HeadEnds read_op
  read_op-HasHead n err x (line, h, l, e) = (without_op x, refl, (line, h, l, e))
  read_op-HasHead n (byte d) x f = elim (Bool-cases (is_newline d)) [
    | inl yes_nl ↦ (at_newline x, read_op-newline d x yes_nl, rw yes_nl at f)
    | inr plain ↦
        let (line, h, l, e) : Tail c ks n x = rw plain at f in
        rw e (read_op-other d n line plain h l)
  ]
