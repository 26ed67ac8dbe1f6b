-- ===== src/Rows.antt =====
-- src/draw.c: the columns that `draw_connections` writes in the heading and `draw_protocol` in the
-- row of a connection.
pub mod Align
pub mod Shown
use sockmon.Base.{
  ℤ, pos, pos_part, ◌-ℤ◌, ltb_ℤ, length, ℕ, ◌+◌, ◌-◌, ◌/◌, ◌%◌, ◌^◌, Bool, true, false, not, ◌&&◌,
  is_some, Option, none, some, List, [], ◌∷◌, ltb, ◌==◌, if◌then◌else◌, Run, ok, fault,
  null_pointer, ◌>>=◌,
}
use sockmon.Accept.{filter_apply}
use sockmon.Conn.{Conn, af_inet}
use sockmon.Ctx.{Ctx}
use sockmon.Field.{Field, FilterApply, has_ext, ext_is_set, inet_diag_address, inet_diag_proc}
use sockmon.Field.Table.Layout.{Abi}
use sockmon.Proc.{SkMap, Status, free_sk_proc_map}

-- Where a column stands: whether a space comes before it, its first cell, and its width.
pub record Column : Type 0 where
  pub gap : Bool
  pub x : ℕ
  pub width : ℕ
  pub field : Field

-- The three tests at the head of both loops.
abbrev pub is_drawn : Ctx → Field → Bool
is_drawn n f = f.enabled && is_some f.draw_row && has_ext n.ext_rcv f.ext_rcv

-- `if (skip_x > 0 && !f->pinned)`
abbrev pub is_skipped : ℕ → Field → Bool
is_skipped skip_x f = ltb 0 skip_x && not f.pinned

-- The width of an address is kept for both families, that of IPv4 in the second byte.
unfoldable pub width_of : Ctx → Field → ℕ
width_of n f =
    if f.ext_rcv == inet_diag_address
    then f.width / 2 ^ (if n.family == af_inet then 8 else 0) % 256
    else f.width

abbrev pub column : Ctx → ℕ → Bool → Field → Column
column n x drawn f = record {
  gap = drawn;
  x = if drawn then x + 1 else x;
  width = width_of n f;
  field = f;
}

-- The loop of `draw_connections` over the table.
unfoldable pub heading_loop : Ctx → ℕ → ℕ → Bool → List Field → List Column
heading_loop n skip_x x drawn [] = []
heading_loop n skip_x x drawn (f ∷ fs) =
    let c = column n x drawn f in
    let on = heading_loop n skip_x x drawn fs in
    let skipped = heading_loop n (skip_x - 1) x drawn fs in
    let next = heading_loop n skip_x (c.x + c.width) true fs in
    if not (ltb x n.cols)
    then []
    else (if not (is_drawn n f) then on else (if is_skipped skip_x f then skipped else c ∷ next))

-- `f->filter_apply(f, p)`
unfoldable pub apply_through : Abi → Option FilterApply → Field → Conn → Run Bool
unfolding filter_apply
apply_through abi none f ci = fault null_pointer
apply_through abi (some a) f ci = filter_apply abi a f ci.bytes f.offset

-- The test under `f->filter_on`: whether the row goes on.
unfoldable pub passes : Abi → Conn → Field → Run Bool
unfolding apply_through
passes abi ci f =
    if f.filter_on
    then (if has_ext ci.ext f.ext_rcv then apply_through abi f.filter_apply f ci else ok false)
    else ok true

-- The loop of `draw_protocol`: the columns, each with whether a value stands in it, and `rewind`.
unfoldable pub row_loop :
    Abi → Ctx → Conn → ℕ → ℕ → Bool → List Field → Run (List (Column × Bool) × Bool)
unfolding passes
row_loop abi n ci skip_x x drawn [] = ok ([], false)
row_loop abi n ci skip_x x drawn (f ∷ fs) =
    let c = column n x drawn f in
    let on = row_loop abi n ci skip_x x drawn fs in
    let skipped = row_loop abi n ci (skip_x - 1) x drawn fs in
    let next = row_loop abi n ci skip_x (c.x + c.width) true fs in
    if not (is_drawn n f) then on else (do
      pass ← passes abi ci f
      (if not pass
          then ok ([], true)
          else (if is_skipped skip_x f
              then skipped
              else next >>= λ r. ok ((c, has_ext ci.ext f.ext_rcv) ∷ r.0, r.1))))

-- `draw_protocol`, which starts at the left with the position of the main screen.
unfoldable pub draw_protocol : Abi → Ctx → Conn → Run (List (Column × Bool) × Bool)
unfolding row_loop
draw_protocol abi n ci = row_loop abi n ci (pos_part n.pos_main.x) 0 false n.tcp_fields

unfoldable pub heading : Ctx → List Column
unfolding heading_loop
heading n = heading_loop n (pos_part n.pos_main.x) 0 false n.tcp_fields

-- The first line of the list that is shown is moved back to the last one.
unfoldable pub clamp_y : ℕ → ℤ → ℤ
clamp_y nr_conns y =
    if ltb 0 nr_conns
    then (if ltb_ℤ (pos nr_conns -ℤ pos 1) y then pos nr_conns -ℤ pos 1 else y)
    else (if ltb_ℤ (pos 0) y then pos 0 else y)

-- The loop over the list: a row that was rewound leaves its line to the next one.
unfoldable pub rows_loop : Abi → Ctx → ℕ → List Conn → Run (List (List (Column × Bool)))
unfolding draw_protocol
rows_loop abi n skip_y [] = ok []
rows_loop abi n skip_y (ci ∷ cs) =
    let skipped = rows_loop abi n (skip_y - 1) cs in
    let next = rows_loop abi n skip_y cs in
    if ltb 0 skip_y then skipped else (do
      (cells, rewind) ← draw_protocol abi n ci
      rest ← next
      ok (if rewind then rest else cells ∷ rest))

-- What `draw_connections` shows and leaves.
pub record Drawn : Type 0 where
  pub ctx : Ctx
  pub top : List Column
  pub rows : List (List (Column × Bool))
  pub owners : Status

abbrev pub scrolled : Ctx → Ctx
scrolled n = record n {
  pos_main = record { y = clamp_y n.nr_conns n.pos_main.y; x = n.pos_main.x };
}

-- `alloc` is that of `free_sk_proc_map`. `nr_conns` counts the entries of the list, which are
-- taken off one by one.
unfoldable pub draw_connections : Abi → Bool → Ctx → SkMap → Run Drawn
unfolding heading rows_loop
draw_connections abi alloc n m = do
  let n₁ = scrolled n
  rows ← rows_loop abi n₁ (pos_part n₁.pos_main.y) n.conn_list
  owners ← free_sk_proc_map (ext_is_set n.ext_req inet_diag_proc) true alloc m
  ok (record {
    ctx = record n₁ { conn_list = []; nr_conns = n.nr_conns - length n.conn_list };
    top = heading n₁;
    rows = rows;
    owners = owners;
  })
