-- ===== src/FieldScreen/Kept.antt =====
-- src/input.c: the handlers of the field screen and the ranges of the context.
use sockmon.Base.{
  is_none, ℕ, ◌-◌, ◌/◌, ◌<◌, ◌≡◌, refl, sym, arith, Bool, true, false, ◌>>=◌, if◌then◌else◌, ◌||◌,
  not, Bool-cases, inl, inr, ◌==◌, ℤ, pos, leb_ℤ, ◌+ℤ◌, ◌-ℤ◌, Option, none, some, List, length,
  length-set, set, Run, ok,
}
use mathlib.Core.Option
use mathlib.Core.Path.{subst}
use sockmon.Ctx.{Ctx, screen_field, screen_main}
use sockmon.Ctx.Valid.{
  IsBelow, IsEntry, IsCtx, IsBelow-index, IsBelow-down, IsBelow-up, IsBelow-pgdn, IsBelow-pgup,
  half_page_lem, if-IsCtx, set-IsCtx, table-IsCtx,
}
use sockmon.Field.{Field, FilterParse}
use sockmon.FieldScreen.{
  Parse, shown, put_field, cursor_field, draw_field_header, field_space_handler, field_pin_handler,
  toggle_filter, filter_entry, field_filter_handler, common_quit_handler, field_quit_handler,
  request_loop, next_sort, field_sort_handler, field_key_down_handler, field_key_up_handler,
  field_pgdn_handler, field_pgup_handler, put_down, field_key_left_handler, pick_up,
  field_key_right_handler,
}
use sockmon.MainScreen.{Typed}
use sockmon.FieldScreen.Swap.{Renumbered, lookup_lt}
use sockmon.FieldScreen.Move.{move-shown}
use sockmon.FieldScreen.Preview.{cursor_field-ok}

-- The handler returns, and leaves a valid context.
pub record Kept (r : Run Ctx) : Type 0 where
  pub result : Ctx
  pub returns : r ≡ ok result
  pub valid : IsCtx result

kept : {r : Run Ctx} {n : Ctx} → r ≡ ok n → IsCtx n → Kept r
kept {r} {n} e v = record { result = n; returns = e; valid = v }

pub draw_field_header-IsCtx : {n : Ctx} → IsCtx n → IsCtx (draw_field_header n)
unfolding draw_field_header
draw_field_header-IsCtx {n} v = set-IsCtx v screen_field n.family n.protocol n.ext_req n.should_stop

module _ {n : Ctx} (v : IsCtx n) where
  -- The entry under the cursor.
  cursor_entry :
      (y : ℕ) × (f : Field) × (n.pos_field.y ≡ pos y)
      × (y < length n.tcp_fields)
      × (cursor_field n ≡ ok (y, f))
  cursor_entry =
      let (y, c, b) = IsBelow-index n.pos_field.y v.cursor in
      let (f, e) = lookup_lt n.tcp_fields y b in (y, f, c, b, cursor_field-ok n c e)

  put_field-IsCtx : (y : ℕ) (f : Field) → IsCtx (put_field n y f)
  put_field-IsCtx y f =
      table-IsCtx v (set n.tcp_fields y f) n.pos_field.y n.sel_field n.sort_key n.sort_ascending
        (length-set n.tcp_fields y f) v.cursor v.selected v.sorted

  at_cursor :
      (y : ℤ)
      → IsBelow (length n.tcp_fields) y
      → IsCtx (record n { pos_field = record { y = y; x = n.pos_field.x } })
  at_cursor y h =
      table-IsCtx v n.tcp_fields y n.sel_field n.sort_key n.sort_ascending refl h v.selected
        v.sorted

  pub field_space_handler-Kept : Kept (field_space_handler n)
  unfolding field_space_handler
  field_space_handler-Kept =
      let (y, f, c, b, run) = cursor_entry in
      kept (rw run) (
        if-IsCtx (is_none f.draw_row) v
          (draw_field_header-IsCtx (put_field-IsCtx y (record f { enabled = not f.enabled }))))

  pub field_pin_handler-Kept : Kept (field_pin_handler n)
  unfolding field_pin_handler
  field_pin_handler-Kept =
      let (y, f, c, b, run) = cursor_entry in
      kept (rw run) (
        if-IsCtx (is_none f.draw_row) v
          (draw_field_header-IsCtx (put_field-IsCtx y (record f { pinned = not f.pinned }))))

  -- The prompt of the entry under the cursor, if it has one, returns on the keys.
  abbrev pub Prompts : Parse → List Typed → Type 0
  Prompts parse keys =
      (y : ℕ) (f : Field) (p : FilterParse)
      → cursor_field n ≡ ok (y, f)
      → f.filter_parse ≡ some p
      → f.filter_on ≡ false
      → (r : Bool × Field × List Typed) × (parse p f keys ≡ ok r)

  -- The handler returns, and leaves a valid context and some keys.
  pub record FilterKept (r : Run (Ctx × List Typed)) : Type 0 where
    pub result : Ctx
    pub left : List Typed
    pub returns : r ≡ ok (result, left)
    pub valid : IsCtx result

  toggle-returns :
      {A B : Type 0} (on : Bool) (asked : Run A)
      → (on ≡ false → (r : A) × (asked ≡ ok r))
      → (store : A → B) (off : B)
      → (r : B) × ((if not on then (asked >>= λ a. ok (store a)) else ok off) ≡ ok r)
  toggle-returns true asked h store off = (off, refl)
  toggle-returns false asked h store off = let (r, run) = h refl in (store r, rw run refl)

  toggle_filter-returns :
      (parse : Parse) (p : FilterParse) (f : Field) (keys : List Typed)
      → (f.filter_on ≡ false → (r : Bool × Field × List Typed) × (parse p f keys ≡ ok r))
      → (r : Field × List Typed) × (toggle_filter parse p f keys ≡ ok r)
  unfolding toggle_filter
  toggle_filter-returns parse p f keys h = toggle-returns f.filter_on _ h _ _

  filter_entry-FilterKept :
      (parse : Parse) (y : ℕ) (f : Field) (o : Option FilterParse) (keys : List Typed)
      → ((p : FilterParse)
          → o ≡ some p
          → f.filter_on ≡ false
          → (r : Bool × Field × List Typed) × (parse p f keys ≡ ok r))
      → FilterKept (filter_entry parse n y f o keys)
  unfolding filter_entry
  filter_entry-FilterKept parse y f none keys h = record {
    result = n;
    left = keys;
    returns = refl;
    valid = v;
  }
  filter_entry-FilterKept parse y f (some p) keys h =
      let (r, run) = toggle_filter-returns parse p f keys (h p refl) in
      record {
        result = draw_field_header (put_field n y r.0);
        left = r.1;
        returns = rw run refl;
        valid = draw_field_header-IsCtx (put_field-IsCtx y r.0);
      }

  pub field_filter_handler-FilterKept :
      (parse : Parse) (keys : List Typed)
      → Prompts parse keys
      → FilterKept (field_filter_handler parse n keys)
  unfolding field_filter_handler
  field_filter_handler-FilterKept parse keys h =
      let (y, f, c, b, run) = cursor_entry in
      rw run (filter_entry-FilterKept parse y f f.filter_parse keys (λ p. h y f p run))

  pub common_quit_handler-IsCtx : IsCtx (common_quit_handler n)
  unfolding common_quit_handler
  common_quit_handler-IsCtx = set-IsCtx v screen_main n.family n.protocol n.ext_req n.should_stop

  next_sort-IsEntry :
      (y : ℕ) (key : Option ℕ) (ascending : Bool)
      → y < length n.tcp_fields
      → IsEntry (length n.tcp_fields) (next_sort y key ascending).0
  unfolding next_sort IsEntry
  next_sort-IsEntry y none ascending h = h
  next_sort-IsEntry y (some k) ascending h = elim (Bool-cases (k == y)) [
    | inl e ↦ elim (Bool-cases ascending) [ inl a ↦ rw (e, a) tt | inr a ↦ rw (e, a) h ]
    | inr e ↦ rw e h
  ]

  pub field_sort_handler-Kept : Kept (field_sort_handler n)
  unfolding field_sort_handler
  field_sort_handler-Kept =
      let (y, f, c, b, run) = cursor_entry in
      let (key, ascending) = next_sort y n.sort_key n.sort_ascending in
      kept (rw c) (
        draw_field_header-IsCtx (
          table-IsCtx v n.tcp_fields n.pos_field.y n.sel_field key ascending refl v.cursor
            v.selected (next_sort-IsEntry y n.sort_key n.sort_ascending b)))

  pub field_key_down_handler-IsCtx : IsCtx (field_key_down_handler n)
  unfolding field_key_down_handler
  field_key_down_handler-IsCtx =
      elim (Bool-cases (leb_ℤ (pos (length n.tcp_fields) -ℤ pos 1) n.pos_field.y)) [
        | inl e ↦ rw e v
        | inr e ↦ rw e (
            draw_field_header-IsCtx (
              at_cursor (n.pos_field.y +ℤ pos 1)
                (IsBelow-down (length n.tcp_fields) n.pos_field.y v.cursor e)))
      ]

  pub field_key_up_handler-IsCtx : IsCtx (field_key_up_handler n)
  unfolding field_key_up_handler
  field_key_up_handler-IsCtx = elim (Bool-cases (leb_ℤ n.pos_field.y (pos 0))) [
    | inl e ↦ rw e v
    | inr e ↦ rw e (
        draw_field_header-IsCtx (
          at_cursor (n.pos_field.y -ℤ pos 1)
            (IsBelow-up (length n.tcp_fields) n.pos_field.y v.cursor e)))
  ]

  pub field_pgdn_handler-IsCtx : IsCtx (field_pgdn_handler n)
  unfolding field_pgdn_handler
  field_pgdn_handler-IsCtx =
      let k : ℕ = (n.lines - 4) / 2 in
      let below = IsBelow-pgdn (length n.tcp_fields) k n.pos_field.y v.cursor in
      rw (half_page_lem n.lines v.page) (if-IsCtx _ v (draw_field_header-IsCtx (at_cursor _ below)))

  pub field_pgup_handler-IsCtx : IsCtx (field_pgup_handler n)
  unfolding field_pgup_handler
  field_pgup_handler-IsCtx =
      let k : ℕ = (n.lines - 4) / 2 in
      let below = IsBelow-pgup (length n.tcp_fields) k n.pos_field.y v.cursor in
      rw (half_page_lem n.lines v.page) (if-IsCtx _ v (draw_field_header-IsCtx (at_cursor _ below)))

  pub field_quit_handler-IsCtx : IsCtx (field_quit_handler n)
  unfolding field_quit_handler common_quit_handler IsEntry
  field_quit_handler-IsCtx =
      set-IsCtx
        (table-IsCtx v n.tcp_fields n.pos_field.y none n.sort_key n.sort_ascending refl v.cursor tt
          v.sorted)
        screen_main n.family n.protocol (request_loop 0 n.tcp_fields) n.should_stop

  shown-IsEntry :
      (sel y len : ℕ) (o : Option ℕ)
      → sel < len
      → y < len
      → IsEntry len (Option.map (shown (some sel) y) o)
      → IsEntry len o
  unfolding shown IsEntry
  shown-IsEntry sel y len none hs hy h = tt
  shown-IsEntry sel y len (some j) hs hy h = ground (arith, h)

  -- The table renumbered, with the selection dropped.
  Renumbered-IsCtx :
      {n' : Ctx} (sel y : ℕ)
      → sel < length n.tcp_fields
      → y < length n.tcp_fields
      → Renumbered n n' (shown (some sel) y)
      → IsCtx (record n' { sel_field = none })
  unfolding IsEntry
  Renumbered-IsCtx {n'} sel y hs hy r =
      let key : IsEntry (length n.tcp_fields) n'.sort_key =
        shown-IsEntry sel y (length n.tcp_fields) n'.sort_key hs hy
          (subst (IsEntry (length n.tcp_fields)) r.key v.sorted) in
      let w : IsCtx
          (record n { tcp_fields = n'.tcp_fields; sel_field = none; sort_key = n'.sort_key }) =
        table-IsCtx v n'.tcp_fields n.pos_field.y none n'.sort_key n.sort_ascending r.size v.cursor
          tt key in
      subst (λ (m : Ctx). IsCtx (record m { sel_field = none })) (sym r.rest) w

  put_down-Kept : (o : Option ℕ) → IsEntry (length n.tcp_fields) o → Kept (put_down n o)
  unfolding put_down IsEntry
  put_down-Kept none h = kept refl v
  put_down-Kept (some sel) h =
      let (y, f, c, b, run) = cursor_entry in
      let (n', moved, r) = move-shown sel y n h b in
      elim (Bool-cases (is_none f.draw_row || sel == y)) [
        | inl stay ↦ kept (rw (run, stay)) v
        | inr go ↦ kept (rw (run, go, moved)) (Renumbered-IsCtx sel y h b r)
      ]

  pub field_key_left_handler-Kept : Kept (field_key_left_handler n)
  unfolding field_key_left_handler
  field_key_left_handler-Kept = put_down-Kept n.sel_field v.selected

  pick_up-Kept : (o : Option ℕ) → Kept (pick_up n o)
  unfolding pick_up IsEntry
  pick_up-Kept (some sel) = kept refl v
  pick_up-Kept none =
      let (y, f, c, b, run) = cursor_entry in
      kept (rw run) (
        if-IsCtx (is_none f.draw_row) v (
          table-IsCtx v n.tcp_fields n.pos_field.y (some y) n.sort_key n.sort_ascending refl
            v.cursor b v.sorted))

  pub field_key_right_handler-Kept : Kept (field_key_right_handler n)
  unfolding field_key_right_handler
  field_key_right_handler-Kept = pick_up-Kept n.sel_field
