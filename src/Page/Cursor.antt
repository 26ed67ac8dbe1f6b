-- ===== src/Page/Cursor.antt =====
-- src/draw.c: the line of the cursor on the page of the table.
use sockmon.Base.{
  ℕ, zero, suc, ◌+◌, ◌-◌, ◌/◌, ◌≤◌, ◌<◌, ◌≡◌, ◌∙◌, refl, sym, ap, arith, true, Option, none, some,
  List, [], ◌∷◌, length, get_elem?, ltb, ◌==◌, lt→ltb, if◌then◌else◌, Bool-cases, inl, inr, pos,
  ◌-ℤ◌, ltb_ℤ, ok, at-lt,
}
use sockmon.Ctx.{Ctx}
use sockmon.Ctx.Valid.{IsEntry, half_page_lem}
use sockmon.Field.{Field}
use sockmon.FieldScreen.{shown, shown_row, header_row}
use sockmon.Page.{
  Header, draw_header, not_negative, fill_page, first_line, header_line, header_loop, field_header,
}

shown-lt :
    (sel : Option ℕ) (y i bound : ℕ)
    → IsEntry bound sel
    → y < bound
    → i < bound
    → shown sel y i < bound
unfolding shown IsEntry
shown-lt none y i bound hs hy hi = hi
shown-lt (some s) y i bound hs hy hi = ground arith

not_negative-sub : (a b : ℕ) → not_negative (pos a -ℤ pos b) ≡ pos (a - b)
unfolding not_negative
not_negative-sub a b = ground arith

abbrev filled : ℕ → ℕ → ℕ → ℕ
filled nr room skip = if ltb (nr - skip) room then nr - room else skip

fill_page-filled :
    (nr room skip : ℕ)
    → room ≤ nr
    → skip ≤ nr
    → fill_page (pos nr) (pos room) (pos skip) ≡ pos (filled nr room skip)
unfolding fill_page
fill_page-filled nr room skip h k = ground arith

filled-bounds :
    (nr room c : ℕ)
    → 0 < room
    → room ≤ nr
    → c < nr
    → (filled nr room (c - room / 2) ≤ c)
      × (c < filled nr room (c - room / 2) + room)
      × (filled nr room (c - room / 2) + room ≤ nr)
filled-bounds nr room c h k l = ground arith

module _ (n : Ctx) (c : ℕ) (at_c : n.pos_field.y ≡ pos c) (below : c < length n.tcp_fields)
    (selected : IsEntry (length n.tcp_fields) n.sel_field) where
  -- The line of a row: the entry that the page shows there.
  Line : ℕ → ℕ → Type 0
  Line i y =
      (f : Field) × (header_row n i ≡ ok f)
      × (header_line n i y ≡ ok (draw_header n y (i == c) (shown n.sel_field c i) f))

  at-Line : (i y : ℕ) → i < length n.tcp_fields → Line i y
  unfolding Line header_line header_row shown_row
  at-Line i y h =
      let (f, is) =
        at-lt n.tcp_fields (shown n.sel_field c i) (shown-lt n.sel_field c i _ selected below h) in
      (f, rw (at_c, is) refl, rw (at_c, is) refl)

  loop-returns :
      (left i y : ℕ)
      → i + left ≤ length n.tcp_fields
      → (rows : List Header) × (header_loop n left i y (pos 0) ≡ ok rows)
  unfolding header_loop Line
  loop-returns zero i y h = ([], refl)
  loop-returns (suc left) i y h =
      let (f, is, line) = at-Line i y (omega (arith, h)) in
      let (rows, rest) = loop-returns left (i + 1) (y + 1) (omega (arith, h)) in
      elim (Bool-cases (ltb y n.lines)) [
        | inl room ↦
            (draw_header n y (i == c) (shown n.sel_field c i) f ∷ rows, rw (room, line, rest) refl)
        | inr full ↦ ([], rw full refl)
      ]

  abbrev header_at : (i y : ℕ) → Field → Header
  header_at i y f = draw_header n y (i == c) (shown n.sel_field c i) f

  -- The loop has a line for row `k`, `j` lines below `i`.
  record Reached (left i y j k z : ℕ) : Type 0 where
    rows : List Header
    entry : Field
    returns : header_loop n left i y (pos 0) ≡ ok rows
    is_shown : header_row n k ≡ ok entry
    is_line : get_elem? rows j ≡ some (header_at k z entry)

  loop-Reached :
      (left i y j k z : ℕ)
      → i + left ≤ length n.tcp_fields
      → j < left
      → z < n.lines
      → k ≡ i + j
      → z ≡ y + j
      → Reached left i y j k z
  unfolding header_loop Line
  loop-Reached zero i y j k z h lt on e g = absurd (omega arith)
  loop-Reached (suc left) i y zero k z h lt on e g =
      let (f, is, line) = at-Line i y (omega (arith, h)) in
      let (rows, rest) = loop-returns left (i + 1) (y + 1) (omega (arith, h)) in
      let room : ltb y n.lines ≡ true = lt→ltb _ _ (omega (arith, on, g)) in
      let k_is : i ≡ k = omega (arith, e) in
      let z_is : y ≡ z = omega (arith, g) in
      record {
        rows = header_at i y f ∷ rows;
        entry = f;
        returns = rw (room, line, rest) refl;
        is_shown = ap (header_row n) (sym k_is) ∙ is;
        is_line = ap (λ x. some (header_at x y f)) k_is ∙ ap (λ x. some (header_at k x f)) z_is;
      }
  loop-Reached (suc left) i y (suc j) k z h lt on e g =
      let (f, is, line) = at-Line i y (omega (arith, h)) in
      let r =
        loop-Reached left (i + 1) (y + 1) j k z (omega (arith, h)) (omega arith) on
          (omega (arith, e)) (omega (arith, g)) in
      let room : ltb y n.lines ≡ true = lt→ltb _ _ (omega (arith, on, g)) in
      record {
        rows = header_at i y f ∷ r.rows;
        entry = r.entry;
        returns = rw (room, line, r.returns) refl;
        is_shown = r.is_shown;
        is_line = r.is_line;
      }

  skip_loop :
      (all s left i k y : ℕ)
      → y < n.lines
      → all ≡ s + left
      → k ≡ i + s
      → header_loop n all i y (pos s) ≡ header_loop n left k y (pos 0)
  unfolding header_loop
  skip_loop all zero left i k y h e g =
      ap (λ a. header_loop n a i y (pos 0)) (omega (arith, e))
      ∙ ap (λ x. header_loop n left x y (pos 0)) (omega (arith, g))
  skip_loop zero (suc s) left i k y h e g = absurd (omega (arith, e))
  skip_loop (suc all) (suc s) left i k y h e g =
      let room : ltb y n.lines ≡ true = lt→ltb _ _ h in
      let more : ltb_ℤ (pos 0) (pos (suc s)) ≡ true = ground arith in
      let less : pos (suc s) -ℤ pos 1 ≡ pos s = ground arith in
      rw (room, more, less)
        (skip_loop all s left (i + 1) k y h (omega (arith, e)) (omega (arith, g)))

  -- The rows above the first line, in a window that has room for a row and at most all of them.
  first_line-filled :
      4 < n.lines
      → n.lines ≤ length n.tcp_fields + 4
      → first_line n ≡ pos (filled (length n.tcp_fields) (n.lines - 4) (c - (n.lines - 4) / 2))
  unfolding first_line
  first_line-filled h k =
      let room : pos n.lines -ℤ pos 4 ≡ pos (n.lines - 4) = ground arith in
      rw
        (
          at_c,
          half_page_lem n.lines (omega (arith, h)),
          not_negative-sub c ((n.lines - 4) / 2),
          room,
        )
        (fill_page-filled (length n.tcp_fields) (n.lines - 4) (c - (n.lines - 4) / 2)
          (omega (arith, k)) (omega (arith, below)))

  -- The line of the cursor on the page.
  pub record OnPage : Type 0 where
    pub rows : List Header
    pub j : ℕ
    pub z : ℕ
    pub entry : Field
    pub returns : field_header n ≡ ok rows
    pub is_shown : header_row n c ≡ ok entry
    pub is_line : get_elem? rows j ≡ some (draw_header n z true (shown n.sel_field c c) entry)
    pub inside : (z ≡ 4 + j) × (z < n.lines)

  -- In a window of more than four lines and at most four more than the table has entries, with
  -- the cursor and the selection inside the table, the page of draw_field_header returns, and has
  -- inside the window, at its place below the first four lines, a line that is marked as the one
  -- of the cursor and shows the entry of the cursor's row.
  pub field_header-OnPage : 4 < n.lines → n.lines ≤ length n.tcp_fields + 4 → OnPage
  unfolding field_header
  field_header-OnPage h k =
      let nr = length n.tcp_fields in
      let s = filled nr (n.lines - 4) (c - (n.lines - 4) / 2) in
      let (lo, hi, fit) =
        filled-bounds nr (n.lines - 4) c (omega (arith, h)) (omega (arith, k)) below in
      let r =
        loop-Reached (nr - s) s 4 (c - s) c (4 + (c - s)) (omega (arith, fit))
          (omega (arith, lo, below)) (omega (arith, lo, hi)) (omega (arith, lo)) refl in
      let here : (c == c) ≡ true = ground arith in
      record {
        rows = r.rows;
        j = c - s;
        z = 4 + (c - s);
        entry = r.entry;
        returns =
            ap (header_loop n nr 0 4) (first_line-filled h k)
            ∙ skip_loop nr s (nr - s) 0 s 4 h (omega (arith, fit)) (omega arith)
            ∙ r.returns;
        is_shown = r.is_shown;
        is_line =
            r.is_line
            ∙ ap (λ b. some (draw_header n (4 + (c - s)) b (shown n.sel_field c c) r.entry)) here;
        inside = (refl, omega (arith, lo, hi));
      }
