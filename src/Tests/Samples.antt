-- ===== src/Tests/Samples.antt =====
-- Concrete fields, connections and contexts.
use sockmon.Base.{ℕ, true, false, Option, none, some, List, [], ◌∷◌, pos}
use sockmon.Conn.{Conn}
use sockmon.Ctx.{Ctx, nm_ctx_init}
use sockmon.Field.{
  Field, Filter, op_gt, dr_common, sort_common, fp_common, fa_common, type_u8, type_other,
  inet_diag_none, inet_diag_info,
}
use sockmon.Field.Table.Layout.{Abi, define_field}

abbrev pub abi : Abi
abi = record { offsetof = λ _. 0; idiag_family = 0; idiag_src = 4; idiag_dst = 8 }

-- A column that shows and sorts by one byte, which comes with attribute 2.
abbrev pub column : ℕ → Field
column offset =
    define_field "byte" "" true inet_diag_info inet_diag_info 3 type_u8 0 offset (some dr_common)
      (some sort_common) (some fp_common) (some fa_common)

abbrev pub heading : Field
heading =
    define_field "part:" "" false inet_diag_none inet_diag_none 0 type_other 0 0 none none none none

-- A connection of bytes `b` that received attributes 0 and 2.
abbrev pub conn : ℕ → Conn
conn b = record { bytes = λ _. b; ext = 5 }

-- The same without attribute 2.
abbrev pub bare : ℕ → Conn
bare b = record { bytes = λ _. b; ext = 1 }

abbrev pub fields : List Field
fields = heading ∷ column 0 ∷ column 1 ∷ column 2 ∷ []

-- The cursor on row `y`, and `sel` picked up.
abbrev pub ctx : ℕ → Option ℕ → Ctx
ctx y sel = record (nm_ctx_init fields) {
  pos_field = record { y = pos y; x = pos 0 };
  sel_field = sel;
  lines = 24;
  cols = 80;
}

-- `>1`
abbrev pub above_one : Filter
above_one = record { op = op_gt; v = 1; selected = 0; addr = []; mask = []; family = 0; s = [] }
