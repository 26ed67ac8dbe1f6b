-- ===== src/Tests/Conns.antt =====
-- Sorting of connections.
use mathlib.Core.List.{Perm}
use sockmon.Base.{◌≡◌, refl, arith, ◌==◌, if◌then◌else◌, true, some, List, [], ◌∷◌, ok}
use sockmon.Conn.{load_u8, Conn, af_inet, af_inet6}
use sockmon.ConnList.{add_conn_info, add_all}
use sockmon.ConnList.Ordered.{IsSorted, Added, add_conn_info-Added, add_all-IsSorted}
use sockmon.Field.{sort_common, sort_dst, has_ext}
use sockmon.Sort.{sort_func, cmp3, or_next}
use sockmon.Sort.Order.{lex}
use sockmon.Sort.Laws.{sort_value, sort_func-lex}
use sockmon.Tests.Samples.{abi, column, conn, bare}

abbrev three : List Conn
three = conn 3 ∷ bare 9 ∷ conn 1 ∷ []

add_all-IsSorted_example :
    (r : List Conn) × (add_all abi (some (column 0)) true three [] ≡ ok r)
    × IsSorted abi (column 0) sort_common true r
    × Perm three r
add_all-IsSorted_example =
    add_all-IsSorted abi (column 0) sort_common af_inet true refl three (tt, (tt, (tt, tt)))

-- The connection that lacks the attribute comes last.
three_sorted : add_all abi (some (column 0)) true three [] ≡ ok (conn 1 ∷ conn 3 ∷ bare 9 ∷ [])
unfolding add_all has_ext sort_func
three_sorted = refl

abbrev two : List Conn
two = conn 1 ∷ conn 3 ∷ []

two-IsSorted : IsSorted abi (column 0) sort_common true two
unfolding has_ext lex sort_value cmp3 or_next load_u8
two-IsSorted = (λ _. (λ _. refl, tt), λ e. absurd (ground (arith, e)), (λ _. tt, λ _. tt, tt))

add_conn_info-Added_example :
    (r : List Conn) × (add_conn_info abi (some (column 0)) true (conn 2) two ≡ ok r)
    × Added abi (column 0) sort_common af_inet true refl (conn 2) two r
add_conn_info-Added_example =
    add_conn_info-Added abi (column 0) sort_common af_inet true refl (conn 2) two tt (tt, (tt, tt))
      two-IsSorted

family_is : load_u8 (λ _. 10) 0 ≡ 10
unfolding load_u8
family_is = refl

family_is_too : load_u8 (λ p. if p == 0 then 10 else 7) 0 ≡ 10
unfolding load_u8
family_is_too = refl

sort_func-lex_example :
    sort_func abi sort_dst (column 0) (λ _. 10) (λ p. if p == 0 then 10 else 7) 0
    ≡ lex
        (sort_value abi sort_dst (column 0) (λ _. 10) 0)
        (sort_value abi sort_dst (column 0) (λ p. if p == 0 then 10 else 7) 0)
sort_func-lex_example =
    sort_func-lex abi sort_dst (column 0) af_inet6 0 (λ _. 10) (λ p. if p == 0 then 10 else 7)
      family_is family_is_too
