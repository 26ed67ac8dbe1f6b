-- ===== src/ConnList.antt =====
-- src/draw.c: `add_conn_info`, which keeps the list of connections in the order of the sort key.
-- The list `n->conn_list` is a list of connections; `list_add_tail` before an entry puts the new
-- one in front of it.
pub mod Place
pub mod Ordered
pub mod Added
use sockmon.Base.{
  Bool, not, Option, none, some, List, [], ◌∷◌, ◌++◌, if◌then◌else◌, ℤ, Run, ok, fault,
  null_pointer, ◌>>=◌,
}
use sockmon.Conn.{Conn}
use sockmon.Field.{Field, SortFunc, has_ext}
use sockmon.Field.Table.Layout.{Abi}
use sockmon.Sort.{sort_func}
use sockmon.Sort.Order.{is_neg, is_pos}

-- `sort_key->sort_func(sort_key, p1, p2)`: a call through NULL is a fault.
unfoldable pub call_through : Abi → Option SortFunc → Field → Conn → Conn → Run ℤ
call_through abi none k ci other = fault null_pointer
call_through abi (some s) k ci other = ok (sort_func abi s k ci.bytes other.bytes k.offset)

unfoldable pub call_sort_func : Abi → Field → Conn → Conn → Run ℤ
unfolding call_through
call_sort_func abi k ci other = call_through abi k.sort_func k ci other

-- The test that ends the loop, `ret < 0` in ascending order and `ret > 0` in descending order.
abbrev pub stops : Bool → ℤ → Bool
stops ascending ret = if ascending then is_neg ret else is_pos ret

-- The loop over the list, with the insertion that follows it.
unfoldable pub insert_loop : Abi → Field → Bool → Conn → List Conn → Run (List Conn)
unfolding call_sort_func
insert_loop abi k ascending ci [] = ok (ci ∷ [])
insert_loop abi k ascending ci (other ∷ rest) =
    if not (has_ext other.ext k.ext_rcv) then ok (ci ∷ other ∷ rest) else (do
      ret ← call_sort_func abi k ci other
      (if stops ascending ret
          then ok (ci ∷ other ∷ rest)
          else insert_loop abi k ascending ci rest >>= λ rest'. ok (other ∷ rest')))

-- The early return, `!(ci->ext & ext) || list_empty(&n->conn_list)`.
unfoldable pub add_by_key : Abi → Field → Bool → Conn → List Conn → Run (List Conn)
unfolding insert_loop
add_by_key abi k ascending ci [] = ok (ci ∷ [])
add_by_key abi k ascending ci (x ∷ xs) =
    if not (has_ext ci.ext k.ext_rcv)
    then ok ((x ∷ xs) ++ ci ∷ [])
    else insert_loop abi k ascending ci (x ∷ xs)

unfoldable pub add_conn_info : Abi → Option Field → Bool → Conn → List Conn → Run (List Conn)
unfolding add_by_key
add_conn_info abi none ascending ci l = ok (l ++ ci ∷ [])
add_conn_info abi (some k) ascending ci l = add_by_key abi k ascending ci l

-- The connections of one dump, added as they arrive.
unfoldable pub add_all : Abi → Option Field → Bool → List Conn → List Conn → Run (List Conn)
unfolding add_conn_info
add_all abi key ascending [] l = ok l
add_all abi key ascending (ci ∷ cs) l =
    add_conn_info abi key ascending ci l >>= add_all abi key ascending cs
