-- ===== src/Cell/Marked.antt =====
-- src/draw.c: a name in a column against its line in the prompt.
use mathlib.Core.Option
use sockmon.Accept.{choose, filter_apply}
use sockmon.Base.{
  ℕ, ◌+◌, ◌-◌, ◌≤◌, ◌<◌, ◌≡◌, ◌∙◌, refl, sym, ap, arith, true, Option, none, some, List, [], length,
  map, get_elem?, get_or, if◌then◌else◌, lt→ltb, ok,
}
use sockmon.Cell.{InetNtop, cell_text}
use sockmon.Cell.Names.{draws_names, value, prompt_of, apply_of, cell-name, apply-choose}
use sockmon.Choice.{choices}
use sockmon.Choice.Listed.{strings, Listed, line, draw_str, draw_str-get_elem?}
use sockmon.Conn.{Bytes}
use sockmon.Field.{FieldType, Filter, Field, DrawRow, dr_state}
use sockmon.Field.Table.{tcp_fields}
use sockmon.Field.Table.Entries.{at_entry}
use sockmon.Field.Table.Layout.{Abi}

-- The drawing function of an entry that shows names.
abbrev named : Field → Option DrawRow
named f = elim f.draw_row [
  | none ↦ none
  | some d ↦ if draws_names d f.type f.type_nr then some d else none
]

abbrev if_some {ℓ κ} : {A : Type ℓ} {B : Type κ} → Option A → Option B → Option B
if_some none x = none
if_some (some a) x = x

abbrev only_named {ℓ} : {A : Type ℓ} → (Field → Option A) → Field → Option A
only_named of f = if_some (named f) (of f)

table-prompts :
    (abi : Abi)
    → map (only_named λ f. f.filter_parse) (tcp_fields abi)
      ≡ map (λ f. Option.map prompt_of (named f)) (tcp_fields abi)
unfolding tcp_fields draws_names prompt_of
table-prompts abi = refl

table-filters :
    (abi : Abi)
    → map (only_named λ f. f.filter_apply) (tcp_fields abi)
      ≡ map (λ f. Option.map apply_of (named f)) (tcp_fields abi)
unfolding tcp_fields draws_names apply_of
table-filters abi = refl

named_lem :
    (f : Field) (d : DrawRow)
    → f.draw_row ≡ some d
    → draws_names d f.type f.type_nr ≡ true
    → named f ≡ some d
named_lem f d e n = rw e (rw n refl)

sym_only {ℓ} :
    {A : Type ℓ} (of : Field → Option A) (f : Field) (d : DrawRow)
    → named f ≡ some d
    → of f ≡ only_named of f
sym_only of f d e = ap (λ o. if_some o (of f)) (sym e)

fits :
    (d : DrawRow) (t : FieldType) (nr : ℕ) {lines start : ℕ}
    → draws_names d t nr ≡ true
    → choices (prompt_of d) ≡ some (lines, start)
    → (start + lines ≡ length (strings (prompt_of d))) × (start + lines < 32)
unfolding choices prompt_of strings draws_names
fits dr_state t nr n e = ground (arith, e)
fits _ t nr n e = ground (arith, e)

-- The line of the prompt for the value that a column shows.
pub record ShownLine (abi : Abi) (inet_ntop : InetNtop) (f : Field) (d : DrawRow) (flt : Filter)
    (m : Bytes) (p lines start : ℕ) : Type 0 where
  pub rows : List Listed
  pub row : Listed
  pub parses : f.filter_parse ≡ some (prompt_of d)
  pub applies : f.filter_apply ≡ some (apply_of d)
  pub drawn : draw_str (strings (prompt_of d)) lines start 1 flt.selected ≡ ok rows
  pub is_row : get_elem? rows (value d f.type f.type_nr m p - start) ≡ some row
  pub is_name : row.text ≡ cell_text abi inet_ntop d f m p
  pub is_marked : filter_apply abi (apply_of d) (record f { filter = some flt }) m p ≡ ok row.marked

choose_marked :
    (str : List (List ℕ)) (flt : Filter) (k y : ℕ)
    → k < 32
    → choose (some flt) k ≡ ok (line str flt.selected k y).marked
unfolding choose
choose_marked str flt k y h = rw (lt→ltb _ _ h) refl

-- For an entry of tcp_fields that shows names of whole bytes or bits, and a connection whose
-- value is one that its prompt offers, the prompt lists on the line of the value the very name
-- that the column shows, and the filter that the prompt sets takes the connection exactly if that
-- line is marked.
pub cell-ShownLine :
    (abi : Abi) (inet_ntop : InetNtop) (i : ℕ) (f : Field) (d : DrawRow) (flt : Filter) (m : Bytes)
    (p lines start : ℕ)
    → get_elem? (tcp_fields abi) i ≡ some f
    → f.draw_row ≡ some d
    → draws_names d f.type f.type_nr ≡ true
    → choices (prompt_of d) ≡ some (lines, start)
    → start ≤ value d f.type f.type_nr m p
    → value d f.type f.type_nr m p < start + lines
    → ShownLine abi inet_ntop f d flt m p lines start
cell-ShownLine abi inet_ntop i f d flt m p lines start at draws n c lo hi =
    let (all, small) = fits d f.type f.type_nr n c in
    let is = named_lem f d draws n in
    let k = value d f.type f.type_nr m p in
    let back : start + (k - start) ≡ k = omega arith in
    let str = strings (prompt_of d) in
    let (rows, drawn, is_row) =
      draw_str-get_elem? str lines start 1 flt.selected (k - start) (omega (arith, all))
        (omega arith) in
    record {
      rows = rows;
      row = line str flt.selected (start + (k - start)) (1 + (k - start));
      parses =
          sym_only (λ g. g.filter_parse) f d is
          ∙ at_entry _ _ (tcp_fields abi) i (table-prompts abi) at
          ∙ ap (Option.map prompt_of) is;
      applies =
          sym_only (λ g. g.filter_apply) f d is
          ∙ at_entry _ _ (tcp_fields abi) i (table-filters abi) at
          ∙ ap (Option.map apply_of) is;
      drawn = drawn;
      is_row = is_row;
      is_name =
          ap (λ j. get_or str j []) back
          ∙ sym (cell-name abi inet_ntop f m p d n (omega (arith, all)));
      is_marked =
          apply-choose abi inet_ntop (record f { filter = some flt }) m p d n
          ∙ choose_marked str flt k (1 + (k - start)) (omega arith)
          ∙ ap (λ j. ok (line str flt.selected j (1 + (k - start))).marked) (sym back);
    }
