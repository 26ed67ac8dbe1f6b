-- ===== src/Rows/Align.antt =====
-- src/draw.c: the columns of a row (`draw_protocol`) beside those of the heading.
use sockmon.Base.{
  ℕ, ◌+◌, ◌-◌, ◌≤◌, ◌≡◌, refl, ap, arith, Bool, true, false, Bool-cases, inl, inr, List, [], ◌∷◌,
  ◌++◌, map, pos_part, ltb, Run, ok,
}
use sockmon.Conn.{Conn}
use sockmon.ConnList.Place.{All}
use sockmon.Ctx.{Ctx}
use sockmon.Field.{Field, has_ext}
use sockmon.Field.Table.Layout.{Abi}
use sockmon.Rows.{
  Column, is_drawn, is_skipped, column, heading_loop, passes, row_loop, draw_protocol, heading,
}

-- The connection passes the filters of all columns that are drawn.
abbrev pub IsAccepted : Abi → Ctx → Conn → List Field → Type 0
IsAccepted abi n ci [] = Unit
IsAccepted abi n ci (f ∷ fs) =
    (is_drawn n f ≡ true → passes abi ci f ≡ ok true) × IsAccepted abi n ci fs

-- The columns of a row that are written over a heading `h`: those of the heading, and behind them
-- only columns that start outside the window.
pub record Aligned (n : Ctx) (r : Run (List (Column × Bool) × Bool)) (h : List Column)
    : Type 0 where
  pub cells : List (Column × Bool)
  pub returns : r ≡ ok (cells, false)
  pub outside : List Column
  pub columns : map (λ (c : Column × Bool). c.0) cells ≡ h ++ outside
  pub hidden : All (λ c. n.cols ≤ c.x) outside

module _ (abi : Abi) (n : Ctx) (ci : Conn) where
  row_loop-hidden :
      (skip_x x : ℕ) (drawn : Bool) (fs : List Field)
      → n.cols ≤ x
      → IsAccepted abi n ci fs
      → Aligned n (row_loop abi n ci skip_x x drawn fs) []
  unfolding row_loop
  row_loop-hidden skip_x x drawn [] h a = record {
    cells = [];
    returns = refl;
    outside = [];
    columns = refl;
    hidden = tt;
  }
  row_loop-hidden skip_x x drawn (f ∷ fs) h a = elim (Bool-cases (is_drawn n f)) [
    | inr off ↦ rw off (row_loop-hidden skip_x x drawn fs h a.1)
    | inl on ↦ elim (Bool-cases (is_skipped skip_x f)) [
      | inl skip ↦ rw (on, a.0 on, skip) (row_loop-hidden (skip_x - 1) x drawn fs h a.1)
      | inr draw ↦
          let c = column n x drawn f in
          let far : n.cols ≤ c.x = ground (arith, h) in
          let rest = row_loop-hidden skip_x (c.x + c.width) true fs (omega (arith, far)) a.1 in
          record {
            cells = (c, has_ext ci.ext f.ext_rcv) ∷ rest.cells;
            returns = rw (on, a.0 on, draw, rest.returns);
            outside = c ∷ rest.outside;
            columns = ap (λ cs. c ∷ cs) rest.columns;
            hidden = (far, rest.hidden);
          }
    ]
  ]

  -- The loop of a row against the loop of the heading, from one state of both.
  pub row_loop-Aligned :
      (skip_x x : ℕ) (drawn : Bool) (fs : List Field)
      → IsAccepted abi n ci fs
      → Aligned n (row_loop abi n ci skip_x x drawn fs) (heading_loop n skip_x x drawn fs)
  unfolding row_loop heading_loop
  row_loop-Aligned skip_x x drawn [] a = record {
    cells = [];
    returns = refl;
    outside = [];
    columns = refl;
    hidden = tt;
  }
  row_loop-Aligned skip_x x drawn (f ∷ fs) a = elim (Bool-cases (ltb x n.cols)) [
    | inr full ↦ rw full (row_loop-hidden skip_x x drawn (f ∷ fs) (ground (arith, full)) a)
    | inl room ↦ elim (Bool-cases (is_drawn n f)) [
      | inr off ↦ rw (room, off) (row_loop-Aligned skip_x x drawn fs a.1)
      | inl on ↦ elim (Bool-cases (is_skipped skip_x f)) [
        | inl skip ↦ rw (room, on, a.0 on, skip) (row_loop-Aligned (skip_x - 1) x drawn fs a.1)
        | inr draw ↦
            let c = column n x drawn f in
            let rest = row_loop-Aligned skip_x (c.x + c.width) true fs a.1 in
            record {
              cells = (c, has_ext ci.ext f.ext_rcv) ∷ rest.cells;
              returns = rw (on, a.0 on, draw, rest.returns);
              outside = rest.outside;
              columns = rw (room, on, draw) (ap (λ cs. c ∷ cs) rest.columns);
              hidden = rest.hidden;
            }
      ]
    ]
  ]

-- For a connection that passes the filters of the columns that are drawn, draw_protocol returns
-- without a rewind, and its columns are those of the heading, each at the same place and of the
-- same width, followed only by columns that start outside the window.
pub draw_protocol-Aligned :
    (abi : Abi) (n : Ctx) (ci : Conn)
    → IsAccepted abi n ci n.tcp_fields
    → Aligned n (draw_protocol abi n ci) (heading n)
unfolding draw_protocol heading
draw_protocol-Aligned abi n ci a =
    row_loop-Aligned abi n ci (pos_part n.pos_main.x) 0 false n.tcp_fields a
