-- ===== src/Tests/Dumps.antt =====
-- Dumps of concrete messages.
use sockmon.Base.{
  ℕ, ◌+◌, ◌≡◌, refl, arith, true, ◌&&◌, Option, some, none, List, [], ◌∷◌, map, length, leb,
  if◌then◌else◌, Run, ok,
}
use sockmon.Base.Bits.{test_bit}
use sockmon.Conn.{Bytes, load_u8}
use sockmon.ConnList.Ordered.{OfFamily}
use sockmon.ConnList.Place.{All}
use sockmon.Ctx.{Ctx, window_exit}
use sockmon.Field.{sort_common, has_ext, ext_is_set}
use sockmon.Nl.{
  Diag, Failure, nlmsg_done, diag, Receipt, datagram, build_request, connections_dump, key_of,
  always, sendmsg_failed,
}
use sockmon.Nl.Copy.{Sizes}
use sockmon.Nl.Members.{or_old, last_byte, attr_loop-last_byte}
use sockmon.Nl.{attr_loop, copied}
use sockmon.Nl.Dumped.{answer, concluded, collect, done, connections_dump-answer}
use sockmon.Nl.Received.{are_supported, is_good, conn_of}
use sockmon.Nl.Requested.{build_request-bits}
use sockmon.Nl.Shown.{
  is_usable, is_ended, verdict, IsDump, connections_dump-returns, connections_dump-IsDump,
}
use sockmon.Proc.{initial, SkOwner}
use sockmon.Proc.Free.{initial-Models}
use sockmon.Sort.{sort_func}
use sockmon.Tests.Samples.{abi, column, ctx}

abbrev pub sizes : Sizes
sizes = record {
  abi = abi;
  minfo = 100;
  info = 0;
  cc_info = 200;
  sizeof_msg = 0;
  sizeof_meminfo = 16;
  sizeof_tcp_info = 8;
  sizeof_vegas = 16;
  sizeof_dctcp = 16;
  sizeof_bbr = 20;
  sizeof_mem = 36;
  sizeof_sockopt = 4;
}

abbrev none_known : ℕ → Option SkOwner
none_known j = none

-- A message with INET_DIAG_INFO and INET_DIAG_SKMEMINFO.
abbrev message : ℕ → Diag
message b = record {
  r = λ _. 0;
  attrs =
      record { rta_type = 2; rta_data = λ _. b } ∷ record { rta_type = 7; rta_data = λ _. b } ∷ [];
  allocated = true;
}

abbrev pub receipts : List Receipt
receipts =
    datagram (diag (message 9) ∷ [])
    ∷ datagram (diag (message 4) ∷ diag (message 6) ∷ nlmsg_done ∷ [])
    ∷ []

-- Sorted by the first column, which reads one byte of INET_DIAG_INFO.
abbrev pub sorted_ctx : Ctx
sorted_ctx = record (ctx 0 none) { sort_key = some 1; sort_ascending = true }

build_request-bits_example :
    (ext_is_set (build_request sorted_ctx).idiag_ext 2
      ≡ (ext_is_set sorted_ctx.ext_req 2 && leb 2 8))
    × (test_bit 4 (build_request sorted_ctx).idiag_states ≡ (leb 1 4 && leb 4 11))
build_request-bits_example = build_request-bits sorted_ctx 2 4 (omega arith) (omega arith)

connections_dump-answer_example : connections_dump sizes initial true receipts sorted_ctx ≡ (
    if true
    then collect sizes
        (record sorted_ctx { ext_rcv = always })
        (map (conn_of sizes none_known sorted_ctx.ext_req) (answer receipts).0)
        (concluded (answer receipts).1)
    else ok (some sendmsg_failed, window_exit sorted_ctx))
connections_dump-answer_example =
    connections_dump-answer sizes initial-Models true receipts sorted_ctx

usable : is_usable (key_of sorted_ctx.tcp_fields sorted_ctx.sort_key) ≡ true
unfolding is_usable key_of
usable = refl

ended : is_ended (answer receipts).1 ≡ true
unfolding is_ended answer is_good
ended = refl

connections_dump-returns_example :
    (n' : Ctx) × (connections_dump sizes initial true receipts sorted_ctx
      ≡ ok (verdict (answer receipts).1, n'))
    × (n'.nr_conns ≡ length n'.conn_list)
    × (length n'.conn_list ≡ length sorted_ctx.conn_list + length (answer receipts).0)
connections_dump-returns_example =
    connections_dump-returns sizes receipts sorted_ctx initial-Models usable refl ended

key_is : key_of sorted_ctx.tcp_fields sorted_ctx.sort_key ≡ some (column 0)
unfolding key_of
key_is = refl

done_is : (answer receipts).1 ≡ done
unfolding answer is_good
done_is = refl

family_is :
    All
      (OfFamily abi (column 0) sort_common 2)
      (map (conn_of sizes none_known sorted_ctx.ext_req) (answer receipts).0)
unfolding answer is_good
family_is = (tt, (tt, (tt, tt)))

connections_dump-IsDump_example :
    (n' : Ctx) × (connections_dump sizes initial true receipts sorted_ctx ≡ ok (none, n'))
    × IsDump abi
        (column 0)
        sort_common
        (map (conn_of sizes none_known sorted_ctx.ext_req) (answer receipts).0)
        sorted_ctx
        n'
connections_dump-IsDump_example =
    connections_dump-IsDump sizes receipts sorted_ctx (column 0) sort_common 2 initial-Models key_is
      refl refl refl done_is family_is

-- The three connections stand in ascending order.
bytes_of_list : Run (Option Failure × Ctx) → List ℕ
bytes_of_list (ok r) = map (λ c. load_u8 c.bytes 0) r.1.conn_list
bytes_of_list _ = []

in_order : bytes_of_list (connections_dump sizes initial true receipts sorted_ctx) ≡ 4 ∷ 6 ∷ 9 ∷ []
unfolding bytes_of_list connections_dump load_u8 initial ext_is_set has_ext sort_func
in_order = refl

known : are_supported (message 9).attrs ≡ true
unfolding are_supported
known = refl

attr_loop-last_byte_example :
    (ci' : Bytes) × (ext' : ℕ) × (attr_loop sizes (message 9).attrs (λ _. 0) always
      ≡ ok (copied ci' ext'))
    × ((q : ℕ) → ci' q ≡ or_old (last_byte sizes (message 9).attrs q) 0)
attr_loop-last_byte_example = attr_loop-last_byte sizes (message 9).attrs (λ _. 0) always known
