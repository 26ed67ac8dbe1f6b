-- ===== src/MainScreen/Delay.antt =====
-- src/input.c: the prompt of `main_delay_handler` over a line that is typed at it.
use sockmon.Base.{
  ℕ, ◌+◌, ◌-◌, ◌*◌, ◌≤◌, ◌≡◌, ◌∙◌, refl, ap, arith, Bool, true, false, ◌&&◌, Bool-cases, inl, inr,
  Option, none, some, List, [], ◌∷◌, ◌++◌, ltb, leb, ◌==◌, ==_iff, if◌then◌else◌, ok, ◌>>=◌,
}
use sockmon.Ctx.{Ctx}
use sockmon.MainScreen.{
  Typed, byte, err, is_newline, read_delay, skip_line, end_delay, set_delay, main_delay_handler,
}

-- A line: no key of it ends it.
unfoldable pub IsLine : List Typed → Type 0
IsLine [] = Unit
IsLine (err ∷ ks) = IsLine ks
IsLine (byte c ∷ ks) = (is_newline c ≡ false) × IsLine ks

abbrev is_digit : ℕ → Bool
is_digit c = leb b'0' c && leb c b'9'

-- The number that a line of digits writes after `acc`, of any size; `none` if another key is in it.
unfoldable pub line_value : ℕ → List Typed → Option ℕ
line_value acc [] = some acc
line_value acc (err ∷ ks) = none
line_value acc (byte c ∷ ks) =
    let rest = line_value (acc * 10 + (c - b'0')) ks in if is_digit c then rest else none

-- A delay from 1 to 255 is taken, and nothing else changes.
unfoldable pub delayed : Ctx → Option ℕ → Ctx
delayed n none = n
delayed n (some v) = if leb 1 v && leb v 255 then record n { delay = v } else n

line_value-le : (acc : ℕ) (ks : List Typed) {v : ℕ} → line_value acc ks ≡ some v → acc ≤ v
unfolding line_value
line_value-le acc [] e = ground arith
line_value-le acc (err ∷ ks) e = ground arith
line_value-le acc (byte c ∷ ks) e = elim (Bool-cases (is_digit c)) [
  | inl d ↦ omega (arith, line_value-le (acc * 10 + (c - b'0')) ks (rw d at e))
  | inr d ↦ let e' : none ≡ some _ = (rw d at e) in ground (arith, e')
]

pub skip_line-line :
    (line ks : List Typed) (c : ℕ)
    → IsLine line
    → is_newline c ≡ true
    → skip_line (line ++ byte c ∷ ks) ≡ ok ks
unfolding skip_line IsLine
skip_line-line [] ks c h e = rw e
skip_line-line (err ∷ line) ks c h e = skip_line-line line ks c h e
skip_line-line (byte d ∷ line) ks c h e = rw (h.0, skip_line-line line ks c h.1 e)

delayed_big : (n : Ctx) (o : Option ℕ) → ((v : ℕ) → o ≡ some v → 256 ≤ v) → n ≡ delayed n o
unfolding delayed
delayed_big n none h = refl
delayed_big n (some v) h =
    let e : (leb v 255) ≡ false = ground (arith, h v refl) in
    elim (Bool-cases (leb 1 v)) [ inl d ↦ rw (d, e) | inr d ↦ rw d ]

-- Keys that are no newline are dropped, up to the end of the line.
end_delay_off :
    (n : Ctx) (acc : ℕ) (line ks : List Typed) (c : ℕ)
    → IsLine line
    → is_newline c ≡ true
    → end_delay n (acc, false, line ++ byte c ∷ ks) ≡ ok (n, ks)
unfolding end_delay
end_delay_off n acc line ks c h e = rw (skip_line-line line ks c h e)

set_delay_lem : (n : Ctx) (v : ℕ) → set_delay n v ≡ record n { delay = v }
set_delay_lem n v = elim (Bool-cases (n.delay == v)) [
  | inl e ↦ rw e (ap (λ d. record n { delay = d }) ((==_iff n.delay v).0 e))
  | inr e ↦ rw e
]

end_delay_on :
    (n : Ctx) (acc : ℕ) (ks : List Typed)
    → end_delay n (acc, true, ks) ≡ ok (delayed n (some acc), ks)
unfolding end_delay delayed
end_delay_on n acc ks = elim (Bool-cases (ltb acc 1)) [
  | inl low ↦ let e : leb 1 acc ≡ false = ground (arith, low) in rw (low, e)
  | inr pos ↦
      let e : leb 1 acc ≡ true = ground (arith, pos) in
      elim (Bool-cases (ltb 255 acc)) [
        | inl big ↦ let d : leb acc 255 ≡ false = ground (arith, big) in rw (pos, e, big, d)
        | inr fits ↦
            let d : leb acc 255 ≡ true = ground (arith, fits) in
            rw (pos, e, fits, d, set_delay_lem n acc)
      ]
]

read_delay-line :
    (n : Ctx) (acc : ℕ) (line ks : List Typed) (c : ℕ)
    → IsLine line
    → is_newline c ≡ true
    → (read_delay acc (line ++ byte c ∷ ks) >>= end_delay n)
      ≡ ok (delayed n (line_value acc line), ks)
unfolding read_delay IsLine line_value delayed
read_delay-line n acc [] ks c h e =
    let d : is_digit c ≡ false = ground (arith, e) in rw (d, e, end_delay_on n acc ks)
read_delay-line n acc (err ∷ line) ks c h e = end_delay_off n acc line ks c h e
read_delay-line n acc (byte d ∷ line) ks c h e =
    let acc' : ℕ = acc * 10 + (d - b'0') in
    elim (Bool-cases (is_digit d)) [
      | inr off ↦ rw (off, h.0, end_delay_off n acc line ks c h.1 e)
      | inl digit ↦ elim (Bool-cases (ltb 255 acc')) [
        | inl big ↦
            rw (digit, big)
              (end_delay_off n acc' line ks c h.1 e
                ∙ ap (λ m. ok (m, ks))
                    (delayed_big n (line_value acc' line)
                      (λ v p. ground (arith, big, line_value-le acc' line p))))
        | inr small ↦ rw (digit, small) (read_delay-line n acc' line ks c h.1 e)
      ]
    ]

-- The prompt for the delay reads exactly one line: a line of digits whose value is from 1 to 255
-- sets the delay to it, and any other line leaves the context as it was.
pub main_delay_handler-line :
    (n : Ctx) (line ks : List Typed) (c : ℕ)
    → IsLine line
    → is_newline c ≡ true
    → main_delay_handler n (line ++ byte c ∷ ks) ≡ ok (delayed n (line_value 0 line), ks)
unfolding main_delay_handler
main_delay_handler-line n line ks c h e = read_delay-line n 0 line ks c h e
