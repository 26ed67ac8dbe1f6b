-- ===== src/Nl/Dumped.antt =====
-- src/nl.c: `connections_dump` beside the stream of messages, whatever datagrams they come in.
use Prim.Native.Nat.{bit_or}
use mathlib.Core.List.{map-append}
use sockmon.Base.{
  ℕ, suc, ◌+◌, ◌≡◌, ◌∙◌, refl, sym, ap, arith, Bool, true, false, Bool-cases, inl, inr, Option,
  none, some, List, [], ◌∷◌, ◌++◌, map, if◌then◌else◌, length, Run, ok, waits, ◌>>=◌, bind_assoc,
  bind_congr,
}
use sockmon.Conn.{Conn}
use sockmon.ConnList.{add_conn_info, add_all}
use sockmon.Ctx.{Ctx, window_exit}
use sockmon.Nl.{
  Diag, Failure, recvmsg_failed, sendmsg_failed, nlmsg_error, Message, nlmsg_done, nlmsg_failed,
  diag, Receipt, recv_failed, datagram, Outcome, go_on, returns, message_loop, recv_loop,
  connections_dump, key_of, always,
}
use sockmon.Nl.Copy.{Sizes}
use sockmon.Nl.Received.{is_good, failure_of, conn_of, handle, received, diag_dump-handle}
use sockmon.Proc.{SkMap}
use sockmon.Proc.Lookup.{Owners, Models}

-- How the messages end: with the kernel's last message, with a failure, or not yet.
pub data Ending : Type 0 where
  done : Ending
  failed : Failure → Ending
  more : Ending

-- The messages up to the first one that ends the dump, of one datagram.
unfoldable pub answer_messages : List Message → List Diag × Ending
unfolding is_good failure_of
answer_messages [] = ([], more)
answer_messages (nlmsg_done ∷ ms) = ([], done)
answer_messages (nlmsg_failed ∷ ms) = ([], failed nlmsg_error)
answer_messages (diag d ∷ ms) =
    let rest = answer_messages ms in
    if is_good d then (d ∷ rest.0, rest.1) else ([], failed (failure_of d))

unfoldable pub join : List Diag × Ending → List Diag × Ending → List Diag × Ending
join (ds, more) next = (ds ++ next.0, next.1)
join (ds, ending) next = (ds, ending)

-- Of all datagrams.
unfoldable pub answer : List Receipt → List Diag × Ending
unfolding answer_messages join
answer [] = ([], more)
answer (recv_failed ∷ rs) = ([], failed recvmsg_failed)
answer (datagram ms ∷ rs) = join (answer_messages ms) (answer rs)

unfoldable pub all_ext : List Conn → ℕ → ℕ
all_ext [] ext = ext
all_ext (c ∷ cs) ext = all_ext cs (bit_or ext c.ext)

-- The context with the connections of a dump, in the list `l`.
unfoldable pub grown : Ctx → List Conn → List Conn → Ctx
unfolding all_ext
grown n cs l = record n {
  ext_rcv = all_ext cs n.ext_rcv;
  nr_conns = n.nr_conns + length cs;
  conn_list = l;
}

outcome_of : Ending → Ctx → Outcome
outcome_of more n = go_on n
outcome_of done n = returns none n
outcome_of (failed e) n = returns (some e) (window_exit n)

unfoldable pub concluded : Ending → Ctx → Run (Option Failure × Ctx)
concluded more n = waits
concluded done n = ok (none, n)
concluded (failed e) n = ok (some e, window_exit n)

-- Connections are added under the sort key of the context.
abbrev added : Sizes → Ctx → Conn → Run (List Conn)
added lay n c =
    add_conn_info lay.abi (key_of n.tcp_fields n.sort_key) n.sort_ascending c n.conn_list

abbrev all_added : Sizes → Ctx → List Conn → List Conn → Run (List Conn)
all_added lay n = add_all lay.abi (key_of n.tcp_fields n.sort_key) n.sort_ascending

-- All connections are added, and `k` goes on.
unfoldable pub collect {ℓ} : {A : Type ℓ} → Sizes → Ctx → List Conn → (Ctx → Run A) → Run A
unfolding add_all key_of grown
collect lay n cs k = all_added lay n cs n.conn_list >>= λ l. k (grown n cs l)

collect-nil {ℓ} : {A : Type ℓ} (lay : Sizes) (n : Ctx) (k : Ctx → Run A) → collect lay n [] k ≡ k n
unfolding collect grown
collect-nil lay n k =
    let e : n.nr_conns + 0 ≡ n.nr_conns = omega arith in ap (λ x. k (record n { nr_conns = x })) e

collect-cons {ℓ} :
    {A : Type ℓ} (lay : Sizes) (n : Ctx) (c : Conn) (cs : List Conn) (k : Ctx → Run A)
    → collect lay n (c ∷ cs) k ≡ (added lay n c >>= λ l. collect lay (received n c l) cs k)
unfolding collect grown
collect-cons lay n c cs k =
    bind_assoc (added lay n c) _ _
    ∙ bind_congr (added lay n c) (λ l. bind_congr (all_added lay n cs l) (λ l'.
      let e : n.nr_conns + suc (length cs) ≡ n.nr_conns + 1 + length cs = omega arith in
      ap
        (λ x. k (record n {
          ext_rcv = all_ext cs (bit_or n.ext_rcv c.ext);
          nr_conns = x;
          conn_list = l';
        }))
        e))

collect-append {ℓ} :
    {A : Type ℓ} (lay : Sizes) (n : Ctx) (cs ds : List Conn) (k : Ctx → Run A)
    → collect lay n (cs ++ ds) k ≡ collect lay n cs (λ n'. collect lay n' ds k)
unfolding collect grown
collect-append lay n [] ds k = sym (collect-nil lay n (λ n'. collect lay n' ds k))
collect-append lay n (c ∷ cs) ds k =
    collect-cons lay n c (cs ++ ds) k
    ∙ bind_congr (added lay n c) (λ l. collect-append lay (received n c l) cs ds k)
    ∙ sym (collect-cons lay n c cs (λ n'. collect lay n' ds k))

module _ (lay : Sizes) {m : SkMap} {f : Owners} (v : Models m f) where
  message_loop-collect :
      (ms : List Message) (n : Ctx)
      → message_loop lay m ms n
        ≡ collect lay n
            (map (conn_of lay f n.ext_req) (answer_messages ms).0)
            (λ n'. ok (outcome_of (answer_messages ms).1 n'))
  unfolding message_loop answer_messages collect outcome_of handle
  message_loop-collect [] n = sym (collect-nil lay n (λ n'. ok (go_on n')))
  message_loop-collect (nlmsg_done ∷ ms) n = sym (collect-nil lay n (λ n'. ok (returns none n')))
  message_loop-collect (nlmsg_failed ∷ ms) n =
      sym (collect-nil lay n (λ n'. ok (returns (some nlmsg_error) (window_exit n'))))
  message_loop-collect (diag d ∷ ms) n = elim (Bool-cases (is_good d)) [
    | inl good ↦
        rw (diag_dump-handle lay v n d, good)
          (bind_assoc (added lay n (conn_of lay f n.ext_req d)) _ _
            ∙ bind_congr (added lay n (conn_of lay f n.ext_req d))
                (λ l. message_loop-collect ms (received n (conn_of lay f n.ext_req d) l))
            ∙ sym (
                collect-cons lay n (conn_of lay f n.ext_req d)
                  (map (conn_of lay f n.ext_req) (answer_messages ms).0)
                  (λ n'. ok (outcome_of (answer_messages ms).1 n'))))
    | inr bad ↦
        rw (diag_dump-handle lay v n d, bad)
          (sym (collect-nil lay n (λ n'. ok (returns (some (failure_of d)) (window_exit n')))))
  ]

  -- The next datagrams go on where one ended.
  next_datagrams : List Receipt → Outcome → Run (Option Failure × Ctx)
  next_datagrams rs (go_on n') = recv_loop lay m rs n'
  next_datagrams rs (returns err n') = ok (err, n')

  collect-join :
      (rs : List Receipt) (n : Ctx) (a b : List Diag × Ending)
      → ((n' : Ctx)
          → recv_loop lay m rs n'
            ≡ collect lay n' (map (conn_of lay f n'.ext_req) b.0) (concluded b.1))
      → (collect lay n (map (conn_of lay f n.ext_req) a.0) (λ n'. ok (outcome_of a.1 n'))
          >>= next_datagrams rs)
        ≡ collect lay n (map (conn_of lay f n.ext_req) (join a b).0) (concluded (join a b).1)
  unfolding join collect outcome_of next_datagrams concluded
  collect-join rs n (ds, done) b h =
      bind_assoc (all_added lay n (map (conn_of lay f n.ext_req) ds) n.conn_list) _ _
  collect-join rs n (ds, failed e) b h =
      bind_assoc (all_added lay n (map (conn_of lay f n.ext_req) ds) n.conn_list) _ _
  collect-join rs n (ds, more) b h =
      bind_assoc (all_added lay n (map (conn_of lay f n.ext_req) ds) n.conn_list) _ _
      ∙ bind_congr (all_added lay n (map (conn_of lay f n.ext_req) ds) n.conn_list)
          (λ l. h (grown n (map (conn_of lay f n.ext_req) ds) l))
      ∙ sym (
          collect-append lay n (map (conn_of lay f n.ext_req) ds)
            (map (conn_of lay f n.ext_req) b.0) (concluded b.1))
      ∙ ap (λ cs. collect lay n cs (concluded b.1))
          (sym (map-append (conn_of lay f n.ext_req) ds b.0))

  recv_loop-collect :
      (rs : List Receipt) (n : Ctx)
      → recv_loop lay m rs n
        ≡ collect lay n (map (conn_of lay f n.ext_req) (answer rs).0) (concluded (answer rs).1)
  unfolding recv_loop answer concluded next_datagrams
  recv_loop-collect [] n = sym (collect-nil lay n (concluded more))
  recv_loop-collect (recv_failed ∷ rs) n =
      sym (collect-nil lay n (concluded (failed recvmsg_failed)))
  recv_loop-collect (datagram ms ∷ rs) n =
      rw (message_loop-collect ms n)
        (collect-join rs n (answer_messages ms) (answer rs) (recv_loop-collect rs))

  -- With a valid table of sockets, connections_dump adds the connections of the messages up to
  -- the one that ends the dump, one after another under the sort key, however the messages are
  -- spread over datagrams, and then returns success at the last message of the kernel, the
  -- failure of the message that could not be handled with the filters freed, or waits for more;
  -- if the request cannot be sent it fails at once, with the filters freed.
  pub connections_dump-answer :
      (sent : Bool) (rs : List Receipt) (n : Ctx)
      → connections_dump lay m sent rs n ≡ (
          if sent
          then collect lay
              (record n { ext_rcv = always })
              (map (conn_of lay f n.ext_req) (answer rs).0)
              (concluded (answer rs).1)
          else ok (some sendmsg_failed, window_exit n))
  unfolding connections_dump
  connections_dump-answer true rs n = recv_loop-collect rs (record n { ext_rcv = always })
  connections_dump-answer false rs n = refl
