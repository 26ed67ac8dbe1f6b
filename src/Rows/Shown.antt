-- ===== src/Rows/Shown.antt =====
-- src/draw.c: the rows that `draw_connections` shows, and the list that it leaves.
use sockmon.Base.{
  ℕ, ◌+◌, ◌-◌, ◌≤◌, ◌≡◌, Bool, true, false, not, ◌&&◌, ◌||◌, List, [], ◌∷◌, map, drop, pos_part,
  if◌then◌else◌, Run, ok,
}
use sockmon.Conn.{Conn}
use sockmon.Ctx.{Ctx}
use sockmon.Field.{Field, has_ext}
use sockmon.Field.Table.Layout.{Abi}
use sockmon.Rows.{Column, is_drawn, is_skipped, column, apply_through, scrolled, Drawn, heading}

-- The filters that are on in the columns that are drawn return for the connection.
abbrev pub Decided : Abi → Ctx → List Field → Conn → Type 0
Decided abi n [] ci = Unit
Decided abi n (f ∷ fs) ci =
    (is_drawn n f ≡ true
      → f.filter_on ≡ true
      → has_ext ci.ext f.ext_rcv ≡ true
      → (b : Bool) × (apply_through abi f.filter_apply f ci ≡ ok b))
    × Decided abi n fs ci

abbrev is_yes : Run Bool → Bool
is_yes (ok b) = b
is_yes _ = false

-- The field's filter, if it is on, takes the connection.
unfoldable pub takes : Abi → Conn → Field → Bool
takes abi ci f =
    not f.filter_on || (has_ext ci.ext f.ext_rcv && is_yes (apply_through abi f.filter_apply f ci))

-- All columns that are drawn take it.
unfoldable pub accepts : Abi → Ctx → List Field → Conn → Bool
accepts abi n [] ci = true
accepts abi n (f ∷ fs) ci = (not (is_drawn n f) || takes abi ci f) && accepts abi n fs ci

-- The columns of a row, whatever the width of the window.
unfoldable pub all_columns : Ctx → ℕ → ℕ → Bool → List Field → List Column
all_columns n skip_x x drawn [] = []
all_columns n skip_x x drawn (f ∷ fs) =
    let c = column n x drawn f in
    let on = all_columns n skip_x x drawn fs in
    let skipped = all_columns n (skip_x - 1) x drawn fs in
    let next = all_columns n skip_x (c.x + c.width) true fs in
    if not (is_drawn n f) then on else (if is_skipped skip_x f then skipped else c ∷ next)

-- A value stands in each column whose attribute the connection received.
abbrev pub filled : Conn → Column → Column × Bool
filled ci c = (c, has_ext ci.ext c.field.ext_rcv)

-- A row that is not rewound has all columns.
pub record IsRow (ci : Conn) (accepted : Bool) (columns : List Column)
    (r : Run (List (Column × Bool) × Bool)) : Type 0 where
  pub cells : List (Column × Bool)
  pub returns : r ≡ ok (cells, not accepted)
  pub all : accepted ≡ true → cells ≡ map (filled ci) columns

unfoldable pub keep : (Conn → Bool) → List Conn → List Conn
keep p [] = []
keep p (c ∷ cs) = let rest = keep p cs in if p c then c ∷ rest else rest

-- The row of a connection on the main screen.
unfoldable pub row_of : Ctx → Conn → List (Column × Bool)
unfolding all_columns
row_of n ci = map (filled ci) (all_columns n (pos_part n.pos_main.x) 0 false n.tcp_fields)

-- The whole call.
pub record Shows (abi : Abi) (n : Ctx) (d : Drawn) : Type 0 where
  pub emptied : d.ctx.conn_list ≡ []
  pub none_left : d.ctx.nr_conns ≡ 0
  pub top : d.top ≡ heading (scrolled n)
  pub first : pos_part (scrolled n).pos_main.y ≤ n.nr_conns - 1
  pub rows :
      d.rows
      ≡ map (row_of (scrolled n)) (
          keep
            (accepts abi (scrolled n) n.tcp_fields)
            (drop (pos_part (scrolled n).pos_main.y) n.conn_list))
