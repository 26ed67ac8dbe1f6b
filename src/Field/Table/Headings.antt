-- ===== src/Field/Table/Headings.antt =====
-- src/draw.c: the two kinds of entries in `tcp_fields`.
use sockmon.Base.{
  is_some, ℕ, Bool, true, false, not, ◌&&◌, ◌||◌, ◌≡◌, refl, Option, none, some, List, [], ◌∷◌, leb,
  ltb,
}
use sockmon.Field.{
  Field, FieldType, SortFunc, sort_common, type_u8, type_u16, type_u32, type_u64, type_bool_u8,
  type_bool_u16, type_bool_u32, type_string, type_bit_u8, inet_diag_proc,
}
use sockmon.Field.Table.{tcp_fields}
use sockmon.Field.Table.Layout.{Abi}

unfoldable pub is_heading : Field → Bool
is_heading f =
    not (
      is_some f.draw_row || is_some f.sort_func || is_some f.filter_parse || is_some f.filter_apply)
    && not f.enabled

-- A case of its own in `sort_common`.
unfoldable pub has_order : FieldType → ℕ → Bool
has_order type_u8 nr = true
has_order type_u16 nr = true
has_order type_u32 nr = true
has_order type_u64 nr = true
has_order type_bool_u8 nr = true
has_order type_bool_u16 nr = true
has_order type_bool_u32 nr = true
has_order type_string nr = true
has_order type_bit_u8 nr = ltb nr 8
has_order _ nr = false

unfoldable pub orders : Option SortFunc → FieldType → ℕ → Bool
unfolding has_order
orders (some sort_common) type nr = has_order type nr
orders (some _) type nr = true
orders none type nr = false

-- Each function can be called, a column under `sort_common` has a type that it compares, and the attributes are those of the interface with the kernel or the
-- ones that the program adds to them.
unfoldable pub is_column : Field → Bool
unfolding orders
is_column f =
    is_some f.draw_row
    && orders f.sort_func f.type f.type_nr
    && is_some f.filter_parse
    && is_some f.filter_apply
    && leb f.ext_req inet_diag_proc
    && leb f.ext_rcv inet_diag_proc

unfoldable pub all_fields : (Field → Bool) → List Field → Bool
all_fields p [] = true
all_fields p (f ∷ fs) = p f && all_fields p fs

-- Every entry of tcp_fields is either a disabled heading without functions, or has all four
-- functions, attributes that the program knows, and, under sort_common, a type that it compares.
pub tcp_fields-headings :
    (abi : Abi) → all_fields (λ f. is_heading f || is_column f) (tcp_fields abi) ≡ true
unfolding tcp_fields all_fields is_heading is_column orders
tcp_fields-headings abi = refl
