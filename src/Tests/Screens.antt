-- ===== src/Tests/Screens.antt =====
-- The main screen.
use sockmon.Base.{◌≡◌, refl, some, true, none, [], ◌∷◌, map, pos}
use sockmon.Ctx.{Ctx}
use sockmon.Field.{has_ext}
use sockmon.Rows.{Column, width_of, heading, passes, draw_protocol}
use sockmon.Rows.Align.{IsAccepted, Aligned, draw_protocol-Aligned}
use sockmon.Tests.Samples.{abi, above_one, column, heading as part, conn, bare, ctx}

-- Three connections, with the list moved up by one.
abbrev screen : Ctx
screen = record (ctx 0 none) {
  ext_rcv = 5;
  nr_conns = 3;
  conn_list = conn 1 ∷ conn 2 ∷ bare 3 ∷ [];
  pos_main = record { y = pos 1; x = pos 0 };
}

-- The same with a filter: only connections whose byte is above 1.
abbrev filtered : Ctx
filtered = record screen {
  tcp_fields =
      part ∷ record (column 0) { filter_on = true; filter = some above_one } ∷ column 1 ∷ [];
}

-- Three columns of three cells, with a space between them.
heading_places : map (λ (c : Column). c.x) (heading screen) ≡ 0 ∷ 4 ∷ 8 ∷ []
unfolding heading has_ext width_of
heading_places = refl

accepted : IsAccepted abi screen (bare 3) screen.tcp_fields
unfolding passes
accepted = (λ e. refl, (λ e. refl, (λ e. refl, (λ e. refl, tt))))

draw_protocol-Aligned_example : Aligned screen (draw_protocol abi screen (bare 3)) (heading screen)
draw_protocol-Aligned_example = draw_protocol-Aligned abi screen (bare 3) accepted
