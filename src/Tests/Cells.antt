-- ===== src/Tests/Cells.antt =====
-- The columns of a connection, and the page of the table.
use sockmon.Base.{ℕ, ◌≡◌, refl, arith, true, none, some, [], ◌∷◌, get_elem?, get_or}
use sockmon.Cell.Marked.{ShownLine, cell-ShownLine}
use sockmon.Cell.Names.{draws_names, value, prompt_of}
use sockmon.Cell.Picked.{typed-Picks}
use sockmon.Cell.Typed.{Picks}
use sockmon.Cell.{InetNtop}
use sockmon.Choice.{choices}
use sockmon.Conn.{Bytes, load_u8}
use sockmon.Ctx.{Ctx}
use sockmon.Ctx.Valid.{IsEntry}
use sockmon.Field.{Field, Filter, op_eq, dr_state, fp_state, fa_common}
use sockmon.Field.Table.{tcp_fields}
use sockmon.MainScreen.{err}
use sockmon.Page.Cursor.{OnPage, field_header-OnPage}
use sockmon.Tests.Samples.{abi, ctx, heading}

abbrev unknown : InetNtop
unknown family addr = none

unfoldable entry : ℕ → Field
unfolding tcp_fields
entry i = get_or (tcp_fields abi) i heading

-- Of every connection a byte 10: TCP_LISTEN as a state.
abbrev bytes : Bytes
bytes p = 10

abbrev chosen : Filter
chosen = record { op = op_eq; v = 0; selected = 1024; addr = []; mask = []; family = 0; s = [] }

state_entry : get_elem? (tcp_fields abi) 5 ≡ some (entry 5)
unfolding tcp_fields entry
state_entry = refl

state_drawn : (entry 5).draw_row ≡ some dr_state
unfolding entry
state_drawn = refl

state_names : draws_names dr_state (entry 5).type (entry 5).type_nr ≡ true
unfolding entry draws_names
state_names = refl

state_choices : choices fp_state ≡ some (11, 1)
unfolding choices
state_choices = refl

state_prompt : choices (prompt_of dr_state) ≡ some (11, 1)
unfolding prompt_of
state_prompt = state_choices

state_value : value dr_state (entry 5).type (entry 5).type_nr bytes 0 ≡ 10
unfolding entry value load_u8
state_value = refl

cell-ShownLine_example : ShownLine abi unknown (entry 5) dr_state chosen bytes 0 11 1
cell-ShownLine_example =
    cell-ShownLine abi unknown 5 (entry 5) dr_state chosen bytes 0 11 1 state_entry state_drawn
      state_names state_prompt (omega (arith, state_value)) (omega (arith, state_value))

port_entry : get_elem? (tcp_fields abi) 2 ≡ some (entry 2)
unfolding tcp_fields entry
port_entry = refl

port_filter : (entry 2).filter_apply ≡ some fa_common
unfolding entry
port_filter = refl

typed-Picks_example : Picks abi unknown (entry 2) bytes (λ p. 9) 0 none (err ∷ [])
typed-Picks_example =
    typed-Picks abi unknown 2 (entry 2) bytes (λ p. 9) 0 none (err ∷ []) port_entry port_filter

-- The cursor on the last of four entries, and a window with room for two.
abbrev small : Ctx
small = record (ctx 3 (some 1)) { lines = 6 }

small_entry : IsEntry 4 (some 1)
unfolding IsEntry
small_entry = omega arith

field_header-OnPage_example : OnPage small 3 refl (omega arith) small_entry
field_header-OnPage_example =
    field_header-OnPage small 3 refl (omega arith) small_entry (omega arith) (omega arith)
