-- ===== src/FieldScreen.antt =====
-- src/input.c: the key handlers of the field screen, with `draw_field_header` of src/draw.c. A read
-- of `tcp_fields` outside its bounds is a fault.
pub mod Prompts
pub mod Swap
pub mod Move
pub mod Preview
pub mod Request
pub mod Kept
pub mod SortKey
use sockmon.Base.{
  is_none, ℕ, zero, suc, ◌+◌, ◌-◌, Bool, true, false, not, ◌&&◌, ◌||◌, Option, none, some, List, [],
  ◌∷◌, ltb, leb, ◌==◌, if◌then◌else◌, ℤ, pos, ◌+ℤ◌, ◌-ℤ◌, leb_ℤ, ltb_ℤ, length, set, Run, ok, at,
  ◌>>=◌,
}
use sockmon.Ctx.{Position, Ctx, screen_main, screen_field, half_page, index}
use sockmon.Field.{Field, FilterParse, ext_set}
use sockmon.MainScreen.{Typed}

-- What `draw_field_header` does to the context.
unfoldable pub draw_field_header : Ctx → Ctx
draw_field_header n = record n { cur_screen = screen_field }

-- The entry that `draw_field_header` shows in row `i`, with the cursor on row `y`.
unfoldable pub shown : Option ℕ → ℕ → ℕ → ℕ
shown none y i = i
shown (some sel) y i =
    if ltb sel y
    then (if leb sel i && ltb i y then i + 1 else (if i == y then sel else i))
    else (if ltb y sel
        then (if i == y then sel else (if ltb y i && leb i sel then i - 1 else i))
        else i)

-- The entry itself.
unfoldable pub shown_row : List Field → Option ℕ → ℤ → ℕ → Run Field
unfolding shown
shown_row fields sel cursor i = do y ← index cursor; at fields (shown sel y i)

unfoldable pub header_row : Ctx → ℕ → Run Field
unfolding shown_row
header_row n i = shown_row n.tcp_fields n.sel_field n.pos_field.y i

-- `tcp_fields[pos->y]`, by its index and its value.
unfoldable pub read_field : List Field → ℤ → Run (ℕ × Field)
read_field fields cursor = do y ← index cursor; f ← at fields y; ok (y, f)

unfoldable pub cursor_field : Ctx → Run (ℕ × Field)
unfolding read_field
cursor_field n = read_field n.tcp_fields n.pos_field.y

abbrev pub put_field : Ctx → ℕ → Field → Ctx
put_field n i f = record n { tcp_fields = set n.tcp_fields i f }

unfoldable pub field_space_handler : Ctx → Run Ctx
unfolding cursor_field draw_field_header
field_space_handler n = do
  (y, f) ← cursor_field n
  ok (
      if is_none f.draw_row
      then n
      else draw_field_header (put_field n y (record f { enabled = not f.enabled })))

unfoldable pub field_pin_handler : Ctx → Run Ctx
unfolding cursor_field draw_field_header
field_pin_handler n = do
  (y, f) ← cursor_field n
  ok (
      if is_none f.draw_row
      then n
      else draw_field_header (put_field n y (record f { pinned = not f.pinned })))

-- `parse` is the call through `filter_parse` on the keys that are typed at its prompt: whether it
-- fails, the field that it leaves, and the keys left. src/draw.c has the functions; FieldScreen/Prompts
-- puts them together.
abbrev pub Parse : Type 0
Parse = FilterParse → Field → List Typed → Run (Bool × Field × List Typed)

unfoldable pub toggle_filter : Parse → FilterParse → Field → List Typed → Run (Field × List Typed)
toggle_filter parse p f keys =
    if not f.filter_on
    then (parse p f keys >>= λ r. ok (if r.0 then r.1 else record r.1 { filter_on = true }, r.2))
    else ok (record f { filter_on = false }, keys)

-- The handler on entry `y`, whose `filter_parse` is the last argument but the keys.
unfoldable pub filter_entry :
    Parse → Ctx → ℕ → Field → Option FilterParse → List Typed → Run (Ctx × List Typed)
unfolding draw_field_header toggle_filter
filter_entry parse n y f none keys = ok (n, keys)
filter_entry parse n y f (some p) keys =
    toggle_filter parse p f keys >>= λ r. ok (draw_field_header (put_field n y r.0), r.1)

unfoldable pub field_filter_handler : Parse → Ctx → List Typed → Run (Ctx × List Typed)
unfolding cursor_field filter_entry
field_filter_handler parse n keys = do
  (y, f) ← cursor_field n
  filter_entry parse n y f f.filter_parse keys

-- The loop of `field_quit_handler` over the table.
unfoldable pub request_loop : ℕ → List Field → ℕ
request_loop ext [] = ext
request_loop ext (f ∷ fs) =
    request_loop (if f.enabled && not (f.ext_req == 0) then ext_set ext f.ext_req else ext) fs

unfoldable pub common_quit_handler : Ctx → Ctx
common_quit_handler n = record n { cur_screen = screen_main }

unfoldable pub field_quit_handler : Ctx → Ctx
unfolding request_loop common_quit_handler
field_quit_handler n =
    common_quit_handler (record n { ext_req = request_loop 0 n.tcp_fields; sel_field = none })

-- The sort key after `s` on entry `y`, and whether the order is ascending.
unfoldable pub next_sort : ℕ → Option ℕ → Bool → Option ℕ × Bool
next_sort y none ascending = (some y, false)
next_sort y (some k) ascending =
    if k == y
    then (if not ascending then (some y, true) else (none, ascending))
    else (some y, false)

-- The pointer `f` is not read.
unfoldable pub field_sort_handler : Ctx → Run Ctx
unfolding next_sort draw_field_header
field_sort_handler n = do
  y ← index n.pos_field.y
  let (key, ascending) = next_sort y n.sort_key n.sort_ascending
  ok (draw_field_header (record n { sort_key = key; sort_ascending = ascending }))

abbrev with_y : Ctx → ℤ → Ctx
with_y n y = record n { pos_field = record { y = y; x = n.pos_field.x } }

-- `nr_tcp_fields - 1`
abbrev last : Ctx → ℤ
last n = pos (length n.tcp_fields) -ℤ pos 1

unfoldable pub field_key_down_handler : Ctx → Ctx
unfolding draw_field_header
field_key_down_handler n =
    if leb_ℤ (last n) n.pos_field.y
    then n
    else draw_field_header (with_y n (n.pos_field.y +ℤ pos 1))

unfoldable pub field_key_up_handler : Ctx → Ctx
unfolding draw_field_header
field_key_up_handler n =
    if leb_ℤ n.pos_field.y (pos 0) then n else draw_field_header (with_y n (n.pos_field.y -ℤ pos 1))

unfoldable pub field_pgdn_handler : Ctx → Ctx
unfolding draw_field_header half_page
field_pgdn_handler n =
    if leb_ℤ (last n) n.pos_field.y
    then n
    else (let y = n.pos_field.y +ℤ half_page n.lines in
        draw_field_header (with_y n (if ltb_ℤ (last n) y then last n else y)))

unfoldable pub field_pgup_handler : Ctx → Ctx
unfolding draw_field_header half_page
field_pgup_handler n =
    if leb_ℤ n.pos_field.y (pos 0)
    then n
    else (let y = n.pos_field.y -ℤ half_page n.lines in
        draw_field_header (with_y n (if ltb_ℤ y (pos 0) then pos 0 else y)))

unfoldable pub swap_key : ℕ → ℕ → Option ℕ → Option ℕ
swap_key a b none = none
swap_key a b (some k) = if k == a then some b else (if k == b then some a else some k)

unfoldable pub swap_field : Ctx → ℕ → ℕ → Run Ctx
unfolding swap_key
swap_field n a b = do
  x ← at n.tcp_fields a
  y ← at n.tcp_fields b
  ok (record n { sort_key = swap_key a b n.sort_key; tcp_fields = set (set n.tcp_fields a y) b x })

-- The first loop, `rounds` times from `f`: the entry moves down the list.
unfoldable pub move_down : ℕ → ℕ → Ctx → Run Ctx
unfolding swap_field
move_down zero f n = ok n
move_down (suc rounds) f n = swap_field n f (f + 1) >>= move_down rounds (f + 1)

-- The second loop: the entry moves up.
unfoldable pub move_up : ℕ → ℕ → Ctx → Run Ctx
unfolding swap_field
move_up zero f n = ok n
move_up (suc rounds) f n = swap_field n f (f - 1) >>= move_up rounds (f - 1)

-- The two loops of `field_key_left_handler`.
unfoldable pub move : ℕ → ℕ → Ctx → Run Ctx
unfolding move_down move_up
move sel y n =
    if ltb sel y
    then move_down (y - sel) sel n
    else (if ltb y sel then move_up (sel - y) sel n else ok n)

unfoldable pub put_down : Ctx → Option ℕ → Run Ctx
unfolding cursor_field move
put_down n none = ok n
put_down n (some sel) = do
  (y, f) ← cursor_field n
  (if is_none f.draw_row || sel == y
      then ok n
      else move sel y n >>= λ n'. ok (record n' { sel_field = none }))

unfoldable pub field_key_left_handler : Ctx → Run Ctx
unfolding put_down
field_key_left_handler n = put_down n n.sel_field

unfoldable pub pick_up : Ctx → Option ℕ → Run Ctx
unfolding cursor_field
pick_up n (some sel) = ok n
pick_up n none = do
  (y, f) ← cursor_field n
  ok (if is_none f.draw_row then n else record n { sel_field = some y })

unfoldable pub field_key_right_handler : Ctx → Run Ctx
unfolding pick_up
field_key_right_handler n = pick_up n n.sel_field
