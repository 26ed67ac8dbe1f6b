-- ===== src/Ctx.antt =====
-- src/main.h: `struct nm_ctx`, with the array `tcp_fields` of src/draw.c beside it. A pointer into
-- the array is its index, `none` for NULL. An `int` that can fall below zero is an integer; the
-- windows are not modelled.
pub mod Valid
use sockmon.Base.{
  ℕ, ◌-◌, ◌/◌, Bool, true, false, Option, none, List, [], map, leb, if◌then◌else◌, ℤ, pos, negsuc,
  sub_ℕ, Run, ok, fault, out_of_bounds,
}
use sockmon.Conn.{Conn, af_inet}
use sockmon.Field.{Field}

pub data Screen : Type 0 where
  screen_main screen_field screen_help : Screen

pub record Position : Type 0 where
  pub y : ℤ
  pub x : ℤ

pub record Ctx : Type 0 where
  pub pos_main : Position
  pub pos_field : Position
  pub sel_field : Option ℕ
  pub sort_key : Option ℕ
  pub cur_screen : Screen
  pub lines : ℕ
  pub cols : ℕ
  pub delay : ℕ
  pub should_stop : Bool
  pub we_called : Bool
  pub sort_ascending : Bool
  pub family : ℕ
  pub protocol : ℕ
  pub ext_req : ℕ
  pub ext_rcv : ℕ
  pub nr_conns : ℕ
  pub conn_list : List Conn
  pub tcp_fields : List Field

abbrev pub ipproto_tcp : ℕ
ipproto_tcp = 6

abbrev pub ipproto_udp : ℕ
ipproto_udp = 17

abbrev origin : Position
origin = record { y = pos 0; x = pos 0 }

-- src/main.c: `nm_ctx_init`, over the table that the program starts with.
abbrev pub nm_ctx_init : List Field → Ctx
nm_ctx_init fields = record {
  pos_main = origin;
  pos_field = origin;
  sel_field = none;
  sort_key = none;
  cur_screen = screen_main;
  lines = 0;
  cols = 0;
  delay = 30;
  should_stop = false;
  we_called = false;
  sort_ascending = false;
  family = af_inet;
  protocol = ipproto_tcp;
  ext_req = 0;
  ext_rcv = 0;
  nr_conns = 0;
  conn_list = [];
  tcp_fields = fields;
}

-- `window_exit` of src/draw.c, which `nm_error` and `nm_perror` call before they print: the filters are
-- freed once. `none` stands for a pointer to memory that was freed, too: both are not to be read.
unfoldable pub window_exit : Ctx → Ctx
window_exit n = record n {
  we_called = true;
  tcp_fields =
      if n.we_called
      then n.tcp_fields
      else map (λ (f : Field). record f { filter = none }) n.tcp_fields;
}

-- `(n->lines - 4) / 2`: the division of C rounds towards zero.
unfoldable pub half_page : ℕ → ℤ
half_page lines = if leb 4 lines then pos ((lines - 4) / 2) else sub_ℕ 0 ((4 - lines) / 2)

-- An index that the code takes from an `int`.
abbrev pub index : ℤ → Run ℕ
index (pos i) = ok i
index (negsuc i) = fault out_of_bounds
