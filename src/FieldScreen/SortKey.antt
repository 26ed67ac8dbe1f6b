-- ===== src/FieldScreen/SortKey.antt =====
-- src/input.c and src/draw.c: `field_sort_handler`, and the call through `sort_func` in
-- `add_conn_info`.
use mathlib.Core.Option
use sockmon.Base.{
  ℕ, ◌≡◌, ◌∙◌, ap, Bool, true, false, Option, none, some, List, ◌∷◌, get_elem?, pos, ok, fault,
  null_pointer, ◌>>=◌,
}
use sockmon.Conn.{Conn}
use sockmon.ConnList.{add_conn_info}
use sockmon.ConnList.Ordered.{present}
use sockmon.ConnList.Added.{add_conn_info-null}
use sockmon.Ctx.{Ctx, index}
use sockmon.Field.{Field}
use sockmon.Field.Table.Layout.{Abi}
use sockmon.FieldScreen.{draw_field_header, next_sort, field_sort_handler}

abbrev sorted_by : Ctx → Option ℕ × Bool → Ctx
sorted_by n (key, ascending) =
    draw_field_header (record n { sort_key = key; sort_ascending = ascending })

field_sort_handler_lem :
    (n : Ctx) (y : ℕ)
    → n.pos_field.y ≡ pos y
    → n.sort_key ≡ none
    → field_sort_handler n ≡ ok (sorted_by n (some y, false))
unfolding field_sort_handler next_sort
field_sort_handler_lem n y c k =
    ap (λ z. index z >>= λ i. ok (sorted_by n (next_sort i n.sort_key n.sort_ascending))) c
    ∙ ap (λ o. ok (sorted_by n (next_sort y o n.sort_ascending))) k

-- With no sort key set, the sort key pressed on an entry without a comparison function, a
-- heading, makes it the sort key, and the second connection of the next dump that has its
-- attribute then calls through NULL.
pub field_sort_handler-null :
    (abi : Abi) (n : Ctx) (y : ℕ) (f : Field) (ci x : Conn) (l : List Conn)
    → n.pos_field.y ≡ pos y
    → n.sort_key ≡ none
    → get_elem? n.tcp_fields y ≡ some f
    → f.sort_func ≡ none
    → present f ci ≡ true
    → present f x ≡ true
    → (n' : Ctx) × (field_sort_handler n ≡ ok n')
      × (Option.map (get_elem? n'.tcp_fields) n'.sort_key ≡ some (some f))
      × (add_conn_info abi (some f) n'.sort_ascending ci (x ∷ l) ≡ fault null_pointer)
unfolding draw_field_header
field_sort_handler-null abi n y f ci x l c k e s p q = (
  sorted_by n (some y, false),
  field_sort_handler_lem n y c k,
  ap some e,
  add_conn_info-null abi f false ci x l s p q,
)
