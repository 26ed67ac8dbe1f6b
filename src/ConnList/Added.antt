-- ===== src/ConnList/Added.antt =====
-- src/draw.c: `add_conn_info` without a sort key, and under one that has no comparison function.
use mathlib.Core.List.{append_assoc, append-nil}
use sockmon.Base.{
  ◌≡◌, ◌∙◌, sym, ap, Bool, true, none, some, List, [], ◌∷◌, ◌++◌, ok, fault, null_pointer,
}
use sockmon.Conn.{Conn}
use sockmon.ConnList.{add_by_key, add_conn_info, add_all, call_sort_func, call_through, insert_loop}
use sockmon.ConnList.Ordered.{present}
use sockmon.Field.{Field}
use sockmon.Field.Table.Layout.{Abi}

-- Without a sort key the connections of a dump come after those of the list, in the order of
-- their arrival.
pub add_all-none :
    (abi : Abi) (ascending : Bool) (cs l : List Conn)
    → add_all abi none ascending cs l ≡ ok (l ++ cs)
unfolding add_all add_conn_info
add_all-none abi ascending [] l = ap ok (sym (append-nil l))
add_all-none abi ascending (c ∷ cs) l =
    add_all-none abi ascending cs (l ++ c ∷ []) ∙ ap ok (append_assoc l (c ∷ []) cs)

-- A key without a comparison function is called through as soon as a second connection comes.
pub add_conn_info-null :
    (abi : Abi) (k : Field) (ascending : Bool) (ci x : Conn) (l : List Conn)
    → k.sort_func ≡ none
    → present k ci ≡ true
    → present k x ≡ true
    → add_conn_info abi (some k) ascending ci (x ∷ l) ≡ fault null_pointer
unfolding add_conn_info add_by_key insert_loop call_sort_func
add_conn_info-null abi k ascending ci x l e p q = rw (p, q, ap (λ o. call_through abi o k ci x) e)
