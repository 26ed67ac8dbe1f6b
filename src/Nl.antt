-- ===== src/Nl.antt =====
-- src/nl.c: the request for a dump, and the loop over what the kernel answers. A message comes as
-- the macros of linux/netlink.h and linux/rtnetlink.h take it apart.
pub mod Copy
pub mod Received
pub mod Dumped
pub mod Shown
pub mod Requested
pub mod Members
use Prim.Native.Nat.{bit_or}
use sockmon.Base.{
  ℕ, ◌+◌, ◌-◌, ◌%◌, ◌^◌, Bool, not, Option, none, some, List, [], ◌∷◌, leb, if◌then◌else◌,
  get_elem?, Run, ok, waits, at, ◌>>=◌,
}
use sockmon.Conn.{Bytes, Conn, load_u32}
use sockmon.ConnList.{add_conn_info}
use sockmon.Ctx.{Ctx, window_exit}
use sockmon.Field.{
  Field, inet_diag_none, inet_diag_max, inet_diag_address, inet_diag_proc, ext_is_set,
}
use sockmon.Field.Table.Layout.{msg, msg_idiag_inode}
use sockmon.Nl.Copy.{Sizes, store, copy_func, copy_owner}
use sockmon.Proc.{SkMap, SkOwner, lookup_socket_owner}

-- The members of the request that are not constants of the kernel, and the states asked for.
pub record Request : Type 0 where
  pub sdiag_family : ℕ
  pub sdiag_protocol : ℕ
  pub idiag_ext : ℕ
  pub idiag_states : ℕ

-- TCPF_ALL: the states TCP_ESTABLISHED = 1 to TCP_CLOSING = 11.
unfoldable pub tcpf_all : ℕ
tcpf_all = bit_or (2 ^ 1) (
    bit_or (2 ^ 2) (
      bit_or (2 ^ 3) (
        bit_or (2 ^ 4) (
          bit_or (2 ^ 5) (
            bit_or (2 ^ 6)
              (bit_or (2 ^ 7) (bit_or (2 ^ 8) (bit_or (2 ^ 9) (bit_or (2 ^ 10) (2 ^ 11))))))))))

unfoldable pub build_request : Ctx → Request
unfolding tcpf_all
build_request n = record {
  sdiag_family = n.family;
  sdiag_protocol = n.protocol;
  idiag_ext = n.ext_req % 256;
  idiag_states = tcpf_all;
}

-- An attribute, with the memory from its payload on.
pub record Attr : Type 0 where
  pub rta_type : ℕ
  pub rta_data : Bytes

-- A message about a connection: the memory from its `struct inet_diag_msg` on, its attributes, and
-- whether `conn_info_alloc` returns memory for it.
pub record Diag : Type 0 where
  pub r : Bytes
  pub attrs : List Attr
  pub allocated : Bool

-- Why a dump fails, as it is reported to the user.
pub data Failure : Type 0 where
  alloc_failed : Failure
  unsupported : ℕ → Failure
  sendmsg_failed : Failure
  recvmsg_failed : Failure
  nlmsg_error : Failure

-- The loop over the attributes, on the connection's bytes and the bits received.
pub data Attrs : Type 0 where
  refused : ℕ → Attrs
  copied : Bytes → ℕ → Attrs

unfoldable pub attr_loop : Sizes → List Attr → Bytes → ℕ → Run Attrs
unfolding copy_func
attr_loop lay [] ci ext = ok (copied ci ext)
attr_loop lay (a ∷ attrs) ci ext =
    if leb inet_diag_max a.rta_type then ok (refused a.rta_type) else (do
      copy ← at (copy_func lay) a.rta_type
      attr_loop lay attrs (copy ci a.rta_data) (bit_or ext (2 ^ a.rta_type)))

-- The owner of the socket, and its bit, if it is asked for and found.
unfoldable pub add_owner : Sizes → Option SkOwner → Bytes → ℕ → Bytes × ℕ
unfolding copy_owner
add_owner lay none ci ext = (ci, ext)
add_owner lay (some o) ci ext = (copy_owner lay o ci, bit_or ext (2 ^ inet_diag_proc))

unfoldable pub find_proc : Sizes → SkMap → Ctx → Bytes → Run (Option SkOwner)
unfolding lookup_socket_owner
find_proc lay m n r =
    if ext_is_set n.ext_req inet_diag_proc
    then lookup_socket_owner m
        (load_u32 r (lay.abi.offsetof msg_idiag_inode - lay.abi.offsetof msg))
    else ok none

-- `n->sort_key`.
unfoldable pub key_of : List Field → Option ℕ → Option Field
key_of fields none = none
key_of fields (some i) = get_elem? fields i

-- What follows the loop over the attributes; a connection that is refused is freed.
unfoldable pub add_received : Sizes → Ctx → Attrs → Run (Option Failure × Ctx)
unfolding key_of add_conn_info window_exit
add_received lay n (refused t) = ok (some (unsupported t), window_exit n)
add_received lay n (copied ci ext) = do
  let c : Conn = record { bytes = ci; ext = ext }
  l ← add_conn_info lay.abi (key_of n.tcp_fields n.sort_key) n.sort_ascending c n.conn_list
  ok (none, record n { ext_rcv = bit_or n.ext_rcv ext; nr_conns = n.nr_conns + 1; conn_list = l })

-- The bits that every message brings.
abbrev pub always : ℕ
always = bit_or (2 ^ inet_diag_none) (2 ^ inet_diag_address)

unfoldable pub diag_dump : Sizes → SkMap → Ctx → Diag → Run (Option Failure × Ctx)
unfolding store attr_loop add_owner find_proc add_received window_exit
diag_dump lay m n d = if not d.allocated then ok (some alloc_failed, window_exit n) else (do
  let ci = store (lay.abi.offsetof msg) lay.sizeof_msg d.r (λ _. 0)
  owner ← find_proc lay m n d.r
  let with_owner = add_owner lay owner ci always
  result ← attr_loop lay d.attrs with_owner.0 with_owner.1
  add_received lay n result)

pub data Message : Type 0 where
  nlmsg_done : Message
  nlmsg_failed : Message
  diag : Diag → Message

-- What `recvmsg` returns.
pub data Receipt : Type 0 where
  recv_failed : Receipt
  datagram : List Message → Receipt

-- After the messages of one datagram.
pub data Outcome : Type 0 where
  go_on : Ctx → Outcome
  returns : Option Failure → Ctx → Outcome

unfoldable pub message_loop : Sizes → SkMap → List Message → Ctx → Run Outcome
unfolding diag_dump window_exit
message_loop lay m [] n = ok (go_on n)
message_loop lay m (nlmsg_done ∷ ms) n = ok (returns none n)
message_loop lay m (nlmsg_failed ∷ ms) n = ok (returns (some nlmsg_error) (window_exit n))
message_loop lay m (diag d ∷ ms) n = do
  (err, n') ← diag_dump lay m n d
  elim err [ none ↦ message_loop lay m ms n' | some e ↦ ok (returns (some e) n') ]

-- The loop over `recvmsg`, which blocks when nothing comes any more.
unfoldable pub recv_loop : Sizes → SkMap → List Receipt → Ctx → Run (Option Failure × Ctx)
unfolding message_loop window_exit
recv_loop lay m [] n = waits
recv_loop lay m (recv_failed ∷ rs) n = ok (some recvmsg_failed, window_exit n)
recv_loop lay m (datagram ms ∷ rs) n = do
  outcome ← message_loop lay m ms n
  elim outcome [ go_on n' ↦ recv_loop lay m rs n' | returns err n' ↦ ok (err, n') ]

-- `sent` says whether `sendmsg` succeeds.
unfoldable pub connections_dump :
    Sizes → SkMap → Bool → List Receipt → Ctx → Run (Option Failure × Ctx)
unfolding recv_loop window_exit
connections_dump lay m sent rs n =
    if not sent
    then ok (some sendmsg_failed, window_exit n)
    else recv_loop lay m rs (record n { ext_rcv = always })
