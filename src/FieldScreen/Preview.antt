-- ===== src/FieldScreen/Preview.antt =====
-- src/input.c and src/draw.c: the put-down of `field_key_left_handler`, and the order of the rows
-- of `draw_field_header`.
use sockmon.Base.{
  is_none, ℕ, zero, suc, ◌<◌, ◌≡◌, ◌≢◌, ◌∙◌, refl, sym, ap, arith, false, none, some, List, [], ◌∷◌,
  ◌==◌, length, get_elem?, pos, ok, at, at-get_elem?,
}
use sockmon.Ctx.{Ctx}
use sockmon.Field.{Field, DrawRow}
use sockmon.FieldScreen.{
  shown, header_row, shown_row, read_field, cursor_field, put_down, field_key_left_handler,
}
use sockmon.FieldScreen.Swap.{Renumbered}
use sockmon.FieldScreen.Move.{move-shown}

-- An entry is selected, and the cursor stands on another row that is no heading.
pub record IsPutDown (n : Ctx) (sel y : ℕ) (f : Field) (d : DrawRow) : Type 0 where
  pub selected : n.sel_field ≡ some sel
  pub cursor : n.pos_field.y ≡ pos y
  pub inside : sel < length n.tcp_fields
  pub entry : get_elem? n.tcp_fields y ≡ some f
  pub drawn : f.draw_row ≡ some d
  pub apart : sel ≢ y

lookup-lt {ℓ} : {A : Type ℓ} (xs : List A) (i : ℕ) {x : A} → get_elem? xs i ≡ some x → i < length xs
lookup-lt [] i e = ground arith
lookup-lt (x ∷ xs) zero e = omega arith
lookup-lt (x ∷ xs) (suc i) e = omega (arith, lookup-lt xs i e)

at-congr {ℓ} :
    {A : Type ℓ} (xs ys : List A) (i j : ℕ) → get_elem? xs i ≡ get_elem? ys j → at xs i ≡ at ys j
at-congr [] [] i j e = refl
at-congr [] (y ∷ ys) i zero e = ground arith
at-congr [] (y ∷ ys) i (suc j) e = at-congr [] ys i j e
at-congr (x ∷ xs) [] zero j e = ground arith
at-congr (x ∷ xs) [] (suc i) j e = at-congr xs [] i j e
at-congr (x ∷ xs) (y ∷ ys) zero zero e = ground arith
at-congr (x ∷ xs) (y ∷ ys) zero (suc j) e = at-congr (x ∷ []) ys zero j e
at-congr (x ∷ xs) (y ∷ ys) (suc i) j e = at-congr xs (y ∷ ys) i j e

pub cursor_field-ok :
    (n : Ctx) {y : ℕ} {f : Field}
    → n.pos_field.y ≡ pos y
    → get_elem? n.tcp_fields y ≡ some f
    → cursor_field n ≡ ok (y, f)
unfolding cursor_field read_field
cursor_field-ok n {y} c e = ap (read_field n.tcp_fields) c ∙ rw (at-get_elem? n.tcp_fields y e)

-- The selection plays no part in a renumbering.
Renumbered-unselect :
    {n n' : Ctx} {from : ℕ → ℕ}
    → Renumbered n n' from
    → Renumbered (record n { sel_field = none }) (record n' { sel_field = none }) from
Renumbered-unselect r = record {
  entries = r.entries;
  key = r.key;
  rest = ap (λ (m : Ctx). record m { sel_field = none }) r.rest;
  size = r.size;
}

module _ {n : Ctx} {sel y : ℕ} {f : Field} {d : DrawRow} (p : IsPutDown n sel y f d) where
  drawn_row : is_none f.draw_row ≡ false
  drawn_row = ap is_none p.drawn

  not_same : (sel == y) ≡ false
  not_same = ground (arith, p.apart)

  -- With an entry selected and the cursor on another row that is no heading, the put-down
  -- renumbers the table by the order shown, takes the sort key along with its entry, drops the
  -- selection and changes nothing else.
  pub left-Renumbered :
      (n' : Ctx) × (field_key_left_handler n ≡ ok n')
      × Renumbered (record n { sel_field = none }) n' (shown (some sel) y)
      × (n'.sel_field ≡ none)
  unfolding field_key_left_handler
  left-Renumbered =
      let (n₁, run, r) = move-shown sel y n p.inside (lookup-lt n.tcp_fields y p.entry) in
      (
        record n₁ { sel_field = none },
        ap (put_down n) p.selected
            ∙ unfold put_down in
              (rw (cursor_field-ok n p.cursor p.entry, drawn_row, not_same, run)),
        Renumbered-unselect r,
        refl,
      )

  -- With an entry selected and the cursor on another row that is no heading, the put-down
  -- returns, and each row shows after it what the screen showed there before it.
  pub header_row-left :
      (n' : Ctx) × (field_key_left_handler n ≡ ok n') × ((i : ℕ) → header_row n' i ≡ header_row n i)
  unfolding header_row shown_row
  header_row-left =
      let (n', run, r, gone) = left-Renumbered in
      (
        n',
        run,
        λ i.
            ap (λ (m : Ctx). shown_row n'.tcp_fields n'.sel_field m.pos_field.y i) r.rest
            ∙ ap (λ o. shown_row n'.tcp_fields o n.pos_field.y i) gone
            ∙ ap (λ z. shown_row n'.tcp_fields none z i) p.cursor
            ∙ at-congr n'.tcp_fields n.tcp_fields i (shown (some sel) y i) (r.entries i)
            ∙ sym (ap (λ z. shown_row n.tcp_fields (some sel) z i) p.cursor)
            ∙ sym (ap (λ o. shown_row n.tcp_fields o n.pos_field.y i) p.selected),
      )
