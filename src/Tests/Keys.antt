-- ===== src/Tests/Keys.antt =====
-- The keys.
use sockmon.Base.{
  is_none, ℕ, ◌≡◌, ap, Bool, Run, refl, arith, true, some, none, List, [], ◌∷◌, ok, fault,
  null_pointer, get_elem?,
}
use mathlib.Core.Option
use sockmon.ConnList.{add_conn_info}
use sockmon.Ctx.{Ctx}
use sockmon.Ctx.Valid.{IsBelow, IsNat, IsEntry, IsCtx}
use sockmon.Field.{dr_common, ext_is_set, has_ext}
use sockmon.FieldScreen.{
  shown, header_row, field_key_left_handler, field_quit_handler, field_sort_handler,
}
use sockmon.FieldScreen.Preview.{IsPutDown, left-Renumbered, header_row-left}
use sockmon.FieldScreen.Request.{needs, field_quit_handler-ext_req}
use sockmon.FieldScreen.SortKey.{field_sort_handler-null}
use sockmon.FieldScreen.Swap.{Renumbered}
use sockmon.Input.{char, should_stop}
use sockmon.Input.Keys.{IsKey, HasLine, Served, Leaves, should_stop-Served}
use sockmon.Address.{InetPton}
use sockmon.Choice.{Pressed, other_key, choices}
use sockmon.FieldScreen.{cursor_field}
use sockmon.FieldScreen.Prompts.{filter_parse}
use sockmon.Field.{Field}
use sockmon.Ctx.{screen_field}
use sockmon.MainScreen.{Typed, byte, main_delay_handler}
use sockmon.MainScreen.Delay.{IsLine, delayed, line_value, main_delay_handler-line}
use sockmon.Tests.Samples.{abi, heading, column, conn, fields, ctx}

-- The second entry is picked up, and the cursor stands on the fourth.
moved : IsPutDown (ctx 3 (some 1)) 1 3 (column 2) dr_common
moved = record {
  selected = refl;
  cursor = refl;
  inside = omega arith;
  entry = refl;
  drawn = refl;
  apart = omega arith;
}

left-Renumbered_example :
    (n' : Ctx) × (field_key_left_handler (ctx 3 (some 1)) ≡ ok n')
    × Renumbered (ctx 3 none) n' (shown (some 1) 3)
    × (n'.sel_field ≡ none)
left-Renumbered_example = left-Renumbered moved

header_row-left_example :
    (n' : Ctx) × (field_key_left_handler (ctx 3 (some 1)) ≡ ok n')
    × ((i : ℕ) → header_row n' i ≡ header_row (ctx 3 (some 1)) i)
header_row-left_example = header_row-left moved

ctx-IsCtx : IsCtx (ctx 3 (some 1))
unfolding IsBelow IsNat IsEntry
ctx-IsCtx = record {
  main_y = tt;
  main_x = tt;
  cursor = omega arith;
  selected = omega arith;
  sorted = tt;
  page = omega arith;
  delay_low = omega arith;
  delay_high = omega arith;
}

abbrev typed : List Typed
typed = byte 50 ∷ byte 53 ∷ byte 10 ∷ []

typed-IsLine : IsLine (byte 50 ∷ byte 53 ∷ [])
unfolding IsLine
typed-IsLine = (refl, (refl, tt))

typed-HasLine : HasLine typed
typed-HasLine = record {
  line = byte 50 ∷ byte 53 ∷ [];
  newline = 10;
  left = [];
  is = refl;
  is_line = typed-IsLine;
  ends = refl;
}

-- `=5` is typed at the prompt of the fourth entry.
abbrev operand : List Typed
operand = byte b'=' ∷ byte b'5' ∷ byte 10 ∷ []

operand-IsLine : IsLine (byte b'=' ∷ byte b'5' ∷ [])
unfolding IsLine
operand-IsLine = (refl, (refl, tt))

abbrev operand-HasLine : HasLine operand
operand-HasLine = record {
  line = byte b'=' ∷ byte b'5' ∷ [];
  newline = 10;
  left = [];
  is = refl;
  is_line = operand-IsLine;
  ends = refl;
}

abbrev no_address : InetPton
no_address family buf = none

abbrev pressed : Typed → Pressed
pressed k = other_key

abbrev asking : Ctx
asking = record (ctx 3 (some 1)) { cur_screen = screen_field }

asking-IsCtx : IsCtx asking
asking-IsCtx = record {
  main_y = ctx-IsCtx.main_y;
  main_x = ctx-IsCtx.main_x;
  cursor = ctx-IsCtx.cursor;
  selected = ctx-IsCtx.selected;
  sorted = ctx-IsCtx.sorted;
  page = ctx-IsCtx.page;
  delay_low = ctx-IsCtx.delay_low;
  delay_high = ctx-IsCtx.delay_high;
}

no_values : Run (ℕ × Field) → Bool
no_values (ok r) = elim r.1.filter_parse [ none ↦ true | some p ↦ is_none (choices p) ]
no_values _ = true

-- The entry's prompt is `fp_common`, not one on a set of values.
asking-no_values : no_values (cursor_field asking) ≡ true
unfolding cursor_field no_values choices
asking-no_values = refl

asking-Leaves : Leaves no_address [] pressed true operand asking
unfolding no_values
asking-Leaves y f p rows e q c =
    let none_of : is_none (choices p) ≡ true = rw (e, q) at asking-no_values in
    absurd (ground (arith, none_of, ap is_none c))

char-IsKey : IsKey (char b'f')
unfolding IsKey
char-IsKey = tt

should_stop-Served_example :
    Served (should_stop (filter_parse no_address [] pressed true) (char b'f') asking operand)
should_stop-Served_example =
    should_stop-Served no_address [] pressed true operand (char b'f') asking-IsCtx char-IsKey
      operand-HasLine (omega arith) asking-Leaves

main_delay_handler-line_example :
    main_delay_handler (ctx 0 none) typed
    ≡ ok (delayed (ctx 0 none) (line_value 0 (byte 50 ∷ byte 53 ∷ [])), [])
main_delay_handler-line_example =
    main_delay_handler-line (ctx 0 none) (byte 50 ∷ byte 53 ∷ []) [] 10 typed-IsLine refl

field_quit_handler-ext_req_example :
    ext_is_set (field_quit_handler (ctx 0 none)).ext_req 2 ≡ needs 2 fields
field_quit_handler-ext_req_example = field_quit_handler-ext_req (ctx 0 none) 2 (omega arith)

heading_present : has_ext 5 0 ≡ true
unfolding has_ext
heading_present = refl

field_sort_handler-null_example :
    (n' : Ctx) × (field_sort_handler (ctx 0 none) ≡ ok n')
    × (Option.map (get_elem? n'.tcp_fields) n'.sort_key ≡ some (some heading))
    × (add_conn_info abi (some heading) n'.sort_ascending (conn 1) (conn 2 ∷ [])
        ≡ fault null_pointer)
field_sort_handler-null_example =
    field_sort_handler-null abi (ctx 0 none) 0 heading (conn 1) (conn 2) [] refl refl refl refl
      heading_present heading_present
