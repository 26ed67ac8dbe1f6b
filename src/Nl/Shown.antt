-- ===== src/Nl/Shown.antt =====
-- src/nl.c: the list and the counter that `connections_dump` leaves, for what comes after it.
use Prim.Native.Nat.{bit_or}
use mathlib.Core.List.{Perm}
use sockmon.Base.{
  ℕ, suc, ◌+◌, ◌≡◌, ◌∙◌, refl, ap, arith, Bool, true, false, ◌||◌, Bool-cases, inl, inr, is_some,
  Option, none, some, List, [], ◌∷◌, ◌++◌, map, length, length-append, length-map, Run, ok,
  ok-injective, sym,
}
use sockmon.Conn.{Conn}
use sockmon.ConnList.{
  add_conn_info, add_by_key, add_all, insert_loop, call_sort_func, call_through, stops,
}
use sockmon.ConnList.Ordered.{OfFamily, IsSorted, add_all-IsSorted}
use sockmon.ConnList.Place.{All}
use sockmon.Ctx.{Ctx, window_exit}
use sockmon.Field.{Field, SortFunc, has_ext}
use sockmon.Field.Table.Layout.{Abi}
use sockmon.Nl.{Failure, Receipt, connections_dump, key_of, always}
use sockmon.Nl.Copy.{Sizes}
use sockmon.Nl.Dumped.{
  Ending, done, failed, more, answer, all_ext, grown, concluded, collect, connections_dump-answer,
}
use sockmon.Nl.Received.{conn_of, has_ext-bit_or}
use sockmon.Proc.{SkMap}
use sockmon.Proc.Lookup.{Owners, Models}

-- NULL, or a column with a comparison function.
unfoldable pub is_usable : Option Field → Bool
is_usable none = true
is_usable (some k) = is_some k.sort_func

-- A call returns a list of that length.
abbrev pub Gives : Run (List Conn) → ℕ → Type 0
Gives r n = (l : List Conn) × (r ≡ ok l) × (length l ≡ n)

call-returns :
    (abi : Abi) (k : Field) (o : Option SortFunc) (a b : Conn)
    → is_some o ≡ true
    → (z : _) × (call_through abi o k a b ≡ ok z)
unfolding call_through
call-returns abi k none a b h = absurd (ground arith)
call-returns abi k (some s) a b h = (_, refl)

module _ (abi : Abi) (ascending : Bool) (c : Conn) where
  insert_loop-Gives :
      (k : Field) (l : List Conn)
      → is_some k.sort_func ≡ true
      → Gives (insert_loop abi k ascending c l) (suc (length l))
  unfolding insert_loop call_sort_func
  insert_loop-Gives k [] h = (c ∷ [], refl, refl)
  insert_loop-Gives k (x ∷ xs) h =
      let (z, run) = call-returns abi k k.sort_func c x h in
      let (r, rest, len) = insert_loop-Gives k xs h in
      elim (Bool-cases (has_ext x.ext k.ext_rcv)) [
        | inr lacks ↦ (c ∷ x ∷ xs, rw lacks, refl)
        | inl has ↦ elim (Bool-cases (stops ascending z)) [
          | inl here ↦ (c ∷ x ∷ xs, rw (has, run, here), refl)
          | inr on ↦ (x ∷ r, rw (has, run, on, rest), ap suc len)
        ]
      ]

  add_conn_info-Gives :
      (o : Option Field) (l : List Conn)
      → is_usable o ≡ true
      → Gives (add_conn_info abi o ascending c l) (suc (length l))
  unfolding add_conn_info add_by_key is_usable
  add_conn_info-Gives none l h = (l ++ c ∷ [], refl, omega (arith, length-append l (c ∷ [])))
  add_conn_info-Gives (some k) [] h = (c ∷ [], refl, refl)
  add_conn_info-Gives (some k) (x ∷ xs) h = elim (Bool-cases (has_ext c.ext k.ext_rcv)) [
    | inl has ↦ rw has (insert_loop-Gives k (x ∷ xs) h)
    | inr lacks ↦ ((x ∷ xs) ++ c ∷ [], rw lacks, omega (arith, length-append (x ∷ xs) (c ∷ [])))
  ]

add_all-Gives :
    (abi : Abi) (o : Option Field) (ascending : Bool) (cs l : List Conn)
    → is_usable o ≡ true
    → Gives (add_all abi o ascending cs l) (length l + length cs)
unfolding add_all
add_all-Gives abi o ascending [] l h = (l, refl, omega arith)
add_all-Gives abi o ascending (c ∷ cs) l h =
    let (l₁, run, len) = add_conn_info-Gives abi ascending c o l h in
    let (r, rest, all) = add_all-Gives abi o ascending cs l₁ h in
    (r, rw (run, rest), omega (arith, len, all))

-- Whether a call reports success or a failure, by the way the messages end.
unfoldable pub verdict : Ending → Option Failure
verdict done = none
verdict (failed e) = some e
verdict more = none

unfoldable pub is_ended : Ending → Bool
is_ended more = false
is_ended _ = true

-- The context after the call.
abbrev left_by : Ending → Ctx → Ctx
left_by (failed e) n = window_exit n
left_by _ n = n

left_by-kept :
    (e : Ending) (n : Ctx)
    → ((left_by e n).nr_conns ≡ n.nr_conns) × ((left_by e n).conn_list ≡ n.conn_list)
unfolding window_exit
left_by-kept done n = (refl, refl)
left_by-kept (failed e) n = (refl, refl)
left_by-kept more n = (refl, refl)

concluded-is_ended :
    (e : Ending) (n : Ctx) → is_ended e ≡ true → concluded e n ≡ ok (verdict e, left_by e n)
unfolding concluded is_ended verdict
concluded-is_ended done n h = refl
concluded-is_ended (failed e) n h = refl
concluded-is_ended more n h = absurd (ground arith)

-- With a valid table of sockets, a sort key that is unset or has a comparison function, and a
-- counter that counts the list, connections_dump returns as soon as a message or a failure of
-- recvmsg ends the dump; it reports how the dump ended, and the counter counts the list, which
-- grew by the messages that were handled.
pub connections_dump-returns :
    (lay : Sizes) {m : SkMap} {f : Owners} (rs : List Receipt) (n : Ctx)
    → Models m f
    → is_usable (key_of n.tcp_fields n.sort_key) ≡ true
    → n.nr_conns ≡ length n.conn_list
    → is_ended (answer rs).1 ≡ true
    → (n' : Ctx) × (connections_dump lay m true rs n ≡ ok (verdict (answer rs).1, n'))
      × (n'.nr_conns ≡ length n'.conn_list)
      × (length n'.conn_list ≡ length n.conn_list + length (answer rs).0)
unfolding collect grown
connections_dump-returns lay {f} rs n v usable count ended =
    let cs = map (conn_of lay f n.ext_req) (answer rs).0 in
    let (l, run, len) =
      add_all-Gives lay.abi (key_of n.tcp_fields n.sort_key) n.sort_ascending cs n.conn_list
        usable in
    let n₁ = grown (record n { ext_rcv = always }) cs l in
    let kept = left_by-kept (answer rs).1 n₁ in
    (
      left_by (answer rs).1 n₁,
      connections_dump-answer lay v true rs n ∙ rw run (concluded-is_ended (answer rs).1 n₁ ended),
      omega (arith, count, len, ap length kept.1, kept.0),
      omega (arith, len, length-map (answer rs).0 (conn_of lay f n.ext_req), ap length kept.1),
    )

-- Some connection brings the attribute.
unfoldable pub is_brought : ℕ → List Conn → Bool
is_brought t [] = false
is_brought t (c ∷ cs) = has_ext c.ext t || is_brought t cs

all_ext-is_brought :
    (cs : List Conn) (ext t : ℕ) → has_ext (all_ext cs ext) t ≡ (has_ext ext t || is_brought t cs)
unfolding all_ext is_brought
all_ext-is_brought [] ext t = ground arith
all_ext-is_brought (c ∷ cs) ext t =
    ground (arith, all_ext-is_brought cs (bit_or ext c.ext) t, has_ext-bit_or ext c.ext t)

-- The context after a dump of the connections `cs`.
pub record IsDump (abi : Abi) (k : Field) (s : SortFunc) (cs : List Conn) (n n' : Ctx)
    : Type 0 where
  pub sorted : IsSorted abi k s n.sort_ascending n'.conn_list
  pub same : Perm cs n'.conn_list
  pub counted : n'.nr_conns ≡ length n'.conn_list
  pub frame :
      n' ≡ record n { ext_rcv = n'.ext_rcv; nr_conns = n'.nr_conns; conn_list = n'.conn_list }
  pub bits : (t : ℕ) → has_ext n'.ext_rcv t ≡ (has_ext always t || is_brought t cs)

-- With a valid table of sockets, a sort key that has a comparison function, an empty list and the
-- counter 0, a dump that the kernel ends without a failure, of connections that have one address
-- family where the key is an address, returns success; the list is then a permutation of the
-- connections in the order of the key, the counter is their number, and the attributes received
-- are those that every dump brings and those that some connection brings.
pub connections_dump-IsDump :
    (lay : Sizes) {m : SkMap} {f : Owners} (rs : List Receipt) (n : Ctx) (k : Field) (s : SortFunc)
    (family : ℕ)
    → Models m f
    → key_of n.tcp_fields n.sort_key ≡ some k
    → k.sort_func ≡ some s
    → n.conn_list ≡ []
    → n.nr_conns ≡ 0
    → (answer rs).1 ≡ done
    → All (OfFamily lay.abi k s family) (map (conn_of lay f n.ext_req) (answer rs).0)
    → (n' : Ctx) × (connections_dump lay m true rs n ≡ ok (none, n'))
      × IsDump lay.abi k s (map (conn_of lay f n.ext_req) (answer rs).0) n n'
unfolding collect grown concluded is_usable
connections_dump-IsDump lay {f} rs n k s family v key sort empty zero_conns end hs =
    let cs = map (conn_of lay f n.ext_req) (answer rs).0 in
    let (l, run, sorted, same) = add_all-IsSorted lay.abi k s family n.sort_ascending sort cs hs in
    let usable : is_usable (some k) ≡ true = ap is_some sort in
    let (l', again, len) = add_all-Gives lay.abi (some k) n.sort_ascending cs [] usable in
    (
      grown (record n { ext_rcv = always }) cs l,
      connections_dump-answer lay v true rs n ∙ rw (key, empty, run, end),
      record {
        sorted = sorted;
        same = same;
        counted = omega (arith, zero_conns, ap length (ok-injective (sym run ∙ again)), len);
        frame = refl;
        bits = all_ext-is_brought cs always;
      },
    )
