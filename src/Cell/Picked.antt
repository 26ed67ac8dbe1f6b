-- ===== src/Cell/Picked.antt =====
-- src/draw.c: the columns of numbers of `tcp_fields`, typed at their prompts.
use sockmon.Base.{
  ℕ, ◌≡◌, ◌∙◌, refl, sym, ap, Bool, true, false, Option, none, some, List, map, get_elem?,
  if◌then◌else◌,
}
use sockmon.Accept.Numbers.{is_number}
use sockmon.Cell.{InetNtop}
use sockmon.Cell.Typed.{drawn_by, Picks, picks}
use sockmon.Conn.{Bytes}
use sockmon.Field.{Filter, Field, DrawRow, FilterParse, FilterApply, fa_common, fp_common}
use sockmon.Field.Table.{tcp_fields}
use sockmon.Field.Table.Entries.{at_entry}
use sockmon.Field.Table.Layout.{Abi}
use sockmon.MainScreen.{Typed}

abbrev is_common : Option FilterApply → Bool
is_common (some fa_common) = true
is_common _ = false

-- What goes with `fa_common` in an entry.
abbrev beside :
    Option DrawRow → Option FilterParse → Bool → Field → Option DrawRow × Option FilterParse × Bool
beside draw parse number f =
    if is_common f.filter_apply then (draw, parse, number) else (none, none, true)

table-beside :
    (abi : Abi)
    → map (λ f. beside f.draw_row f.filter_parse (is_number f.type) f) (tcp_fields abi)
      ≡ map (λ f. beside (some (drawn_by f.type)) (some fp_common) true f) (tcp_fields abi)
unfolding tcp_fields is_number drawn_by
table-beside abi = refl

beside_lem :
    (draw : Option DrawRow) (parse : Option FilterParse) (number : Bool) (f : Field)
    → f.filter_apply ≡ some fa_common
    → beside draw parse number f ≡ (draw, parse, number)
beside_lem draw parse number f e =
    ap (λ a. if is_common a then (draw, parse, number) else (none, none, true)) e

-- For an entry of tcp_fields under fa_common, the text that its column shows of one connection,
-- typed behind = at its prompt with a newline and with memory at hand, is taken as a filter
-- without a fault, and the filter takes exactly the connections of which the column shows the
-- same text.
pub typed-Picks :
    (abi : Abi) (inet_ntop : InetNtop) (i : ℕ) (f : Field) (m m' : Bytes) (p : ℕ)
    (old : Option Filter) (ks : List Typed)
    → get_elem? (tcp_fields abi) i ≡ some f
    → f.filter_apply ≡ some fa_common
    → Picks abi inet_ntop f m m' p old ks
typed-Picks abi inet_ntop i f m m' p old ks at applies =
    let e =
      sym (beside_lem f.draw_row f.filter_parse (is_number f.type) f applies)
      ∙ at_entry _ _ (tcp_fields abi) i (table-beside abi) at
      ∙ beside_lem (some (drawn_by f.type)) (some fp_common) true f applies in
    picks abi inet_ntop f m m' p old ks (ap (λ t. t.0) e) (ap (λ t. t.1) e) (ap (λ t. t.2) e)
