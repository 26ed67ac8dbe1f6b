-- ===== src/Nl/Received.antt =====
-- src/nl.c: the connection that `diag_dump` makes of a message.
use sockmon.Base.{
  ℕ, zero, suc, ◌+◌, ◌-◌, ◌^◌, ◌<◌, ◌≡◌, refl, arith, Bool, true, false, ◌&&◌, ◌||◌, Bool-cases,
  inl, inr, is_some, Option, none, some, List, [], ◌∷◌, ltb, leb, ◌==◌, if◌then◌else◌, length,
  get_elem?, Run, ok, at, ◌>>=◌,
}
use Prim.Native.Nat.{bit_or}
use sockmon.Base.Bits.{test_bit, test_bit-bit_or, test_bit-pow, bit_and-pow_eq_zero}
use sockmon.Conn.{Bytes, Conn, load_u32}
use sockmon.ConnList.{add_conn_info}
use sockmon.Ctx.{Ctx, window_exit}
use sockmon.Field.{
  inet_diag_none, inet_diag_max, inet_diag_address, inet_diag_proc, ext_is_set, has_ext,
}
use sockmon.Field.Table.Layout.{msg, msg_idiag_inode}
use sockmon.Nl.{
  Attr, Diag, Failure, alloc_failed, unsupported, refused, copied, attr_loop, add_owner, find_proc,
  key_of, add_received, always, diag_dump,
}
use sockmon.Nl.Copy.{Sizes, Copy, copy_void, store, copy_func}
use sockmon.Proc.{SkMap, SkOwner}
use sockmon.Proc.Lookup.{Owners, Models}

pub has_ext-test_bit : (ext t : ℕ) → has_ext ext t ≡ test_bit t ext
unfolding has_ext
has_ext-test_bit ext t = ground (arith, bit_and-pow_eq_zero t ext)

pub has_ext-bit_or : (a b t : ℕ) → has_ext (bit_or a b) t ≡ (has_ext a t || has_ext b t)
has_ext-bit_or a b t =
    rw (has_ext-test_bit (bit_or a b) t, has_ext-test_bit a t, has_ext-test_bit b t)
      (test_bit-bit_or t a b)

pub has_ext-pow : (k t : ℕ) → has_ext (2 ^ k) t ≡ (t == k)
has_ext-pow k t = rw (has_ext-test_bit (2 ^ k) t) (test_bit-pow t k)

-- All attributes are of a type that the table has.
unfoldable pub are_supported : List Attr → Bool
are_supported [] = true
are_supported (a ∷ attrs) = ltb a.rta_type inet_diag_max && are_supported attrs

unfoldable pub has_type : ℕ → List Attr → Bool
has_type t [] = false
has_type t (a ∷ attrs) = t == a.rta_type || has_type t attrs

-- The first type that the table does not have.
unfoldable pub first_refused : List Attr → ℕ
first_refused [] = 0
first_refused (a ∷ attrs) = if ltb a.rta_type inet_diag_max then first_refused attrs else a.rta_type

unfoldable pub copy_or_void : Option Copy → Copy
copy_or_void none = copy_void
copy_or_void (some f) = f

-- What the attributes make of the connection's bytes.
unfoldable pub bytes_of : Sizes → List Attr → Bytes → Bytes
unfolding copy_func copy_or_void
bytes_of lay [] ci = ci
bytes_of lay (a ∷ attrs) ci =
    bytes_of lay attrs (copy_or_void (get_elem? (copy_func lay) a.rta_type) ci a.rta_data)

unfoldable pub ext_of : List Attr → ℕ → ℕ
ext_of [] ext = ext
ext_of (a ∷ attrs) ext = ext_of attrs (bit_or ext (2 ^ a.rta_type))

ext_of-has_type :
    (attrs : List Attr) (ext t : ℕ)
    → has_ext (ext_of attrs ext) t ≡ (has_ext ext t || has_type t attrs)
unfolding ext_of has_type
ext_of-has_type [] ext t = ground arith
ext_of-has_type (a ∷ attrs) ext t = ground (
  arith,
  ext_of-has_type attrs (bit_or ext (2 ^ a.rta_type)) t,
  has_ext-bit_or ext (2 ^ a.rta_type) t,
  has_ext-pow a.rta_type t,
)

at-or_void : (fs : List Copy) (i : ℕ) → i < length fs → at fs i ≡ ok (copy_or_void (get_elem? fs i))
unfolding copy_or_void
at-or_void [] i h = absurd (omega arith)
at-or_void (f ∷ fs) zero h = refl
at-or_void (f ∷ fs) (suc i) h = at-or_void fs i (omega arith)

module _ (lay : Sizes) where
  copies : (t : ℕ) → t < 23 → at (copy_func lay) t ≡ ok (copy_or_void (get_elem? (copy_func lay) t))
  unfolding copy_func
  copies t h = at-or_void (copy_func lay) t (omega arith)

  pub attr_loop_lem :
      (attrs : List Attr) (ci : Bytes) (ext : ℕ)
      → attr_loop lay attrs ci ext ≡ (
          if are_supported attrs
          then ok (copied (bytes_of lay attrs ci) (ext_of attrs ext))
          else ok (refused (first_refused attrs)))
  unfolding attr_loop are_supported bytes_of ext_of first_refused
  attr_loop_lem [] ci ext = refl
  attr_loop_lem (a ∷ attrs) ci ext = elim (Bool-cases (ltb a.rta_type inet_diag_max)) [
    | inl low ↦
        let high : leb inet_diag_max a.rta_type ≡ false = ground arith in
        rw (low, high, copies a.rta_type (ground arith))
          (attr_loop_lem attrs _ (bit_or ext (2 ^ a.rta_type)))
    | inr l ↦ let high : leb inet_diag_max a.rta_type ≡ true = ground arith in rw (l, high)
  ]

-- Why `diag_dump` refuses a message.
unfoldable pub is_good : Diag → Bool
unfolding are_supported
is_good d = d.allocated && are_supported d.attrs

unfoldable pub failure_of : Diag → Failure
unfolding first_refused
failure_of d = if d.allocated then unsupported (first_refused d.attrs) else alloc_failed

module _ (lay : Sizes) (f : Owners) (ext_req : ℕ) where
  unfoldable pub owner_of : Diag → Option SkOwner
  owner_of d =
      if ext_is_set ext_req inet_diag_proc
      then f (load_u32 d.r (lay.abi.offsetof msg_idiag_inode - lay.abi.offsetof msg))
      else none

  -- The connection of a message.
  unfoldable pub conn_of : Diag → Conn
  unfolding store add_owner owner_of bytes_of ext_of
  conn_of d =
      let w =
        add_owner lay (owner_of d) (store (lay.abi.offsetof msg) lay.sizeof_msg d.r (λ _. 0))
          always in
      record { bytes = bytes_of lay d.attrs w.0; ext = ext_of d.attrs w.1 }

  -- What the message brings: the attributes that every message brings, the owner if it is asked for
  -- and known, and the attributes that stand in it.
  unfoldable pub brings : Diag → ℕ → Bool
  unfolding owner_of has_type
  brings d t =
      t == inet_diag_none
      || (t == inet_diag_address
          || ((t == inet_diag_proc && is_some (owner_of d)) || has_type t d.attrs))

  has_ext-always : (t : ℕ) → has_ext always t ≡ (t == inet_diag_none || t == inet_diag_address)
  has_ext-always t =
      ground (arith, has_ext-bit_or (2 ^ 0) (2 ^ 23) t, has_ext-pow 0 t, has_ext-pow 23 t)

  has_ext-add_owner :
      (o : Option SkOwner) (ci : Bytes) (ext t : ℕ)
      → has_ext (add_owner lay o ci ext).1 t ≡ (has_ext ext t || (t == inet_diag_proc && is_some o))
  unfolding add_owner
  has_ext-add_owner none ci ext t = ground arith
  has_ext-add_owner (some o) ci ext t =
      ground (arith, has_ext-bit_or ext (2 ^ 24) t, has_ext-pow 24 t)

  pub has_ext-conn_of : (d : Diag) (t : ℕ) → has_ext (conn_of d).ext t ≡ brings d t
  unfolding conn_of brings
  has_ext-conn_of d t = ground (
    arith,
    ext_of-has_type d.attrs
        (add_owner lay (owner_of d) (store (lay.abi.offsetof msg) lay.sizeof_msg d.r (λ _. 0))
          always).1
        t,
    has_ext-add_owner (owner_of d) (store (lay.abi.offsetof msg) lay.sizeof_msg d.r (λ _. 0)) always
        t,
    has_ext-always t,
  )

-- The context after a connection was added.
abbrev pub received : Ctx → Conn → List Conn → Ctx
received n c l = record n {
  ext_rcv = bit_or n.ext_rcv c.ext;
  nr_conns = n.nr_conns + 1;
  conn_list = l;
}

-- What one message should do.
unfoldable pub handle : Sizes → Owners → Ctx → Diag → Run (Option Failure × Ctx)
unfolding is_good failure_of conn_of add_conn_info key_of
handle lay f n d =
    if is_good d
    then (do
      let c = conn_of lay f n.ext_req d
      l ← add_conn_info lay.abi (key_of n.tcp_fields n.sort_key) n.sort_ascending c n.conn_list
      ok (none, received n c l))
    else ok (some (failure_of d), window_exit n)

find_proc-owner_of :
    (lay : Sizes) {m : SkMap} {f : Owners}
    → Models m f
    → (n : Ctx) (d : Diag) → find_proc lay m n d.r ≡ ok (owner_of lay f n.ext_req d)
unfolding find_proc owner_of
find_proc-owner_of lay v n d = elim (Bool-cases (ext_is_set n.ext_req inet_diag_proc)) [
  | inl e ↦ rw (e, v.reads _)
  | inr e ↦ rw e
]

pub diag_dump-handle :
    (lay : Sizes) {m : SkMap} {f : Owners}
    → Models m f
    → (n : Ctx) (d : Diag) → diag_dump lay m n d ≡ handle lay f n d
unfolding diag_dump handle is_good failure_of conn_of add_received
diag_dump-handle lay v n d = elim (Bool-cases d.allocated) [
  | inr e ↦ rw e
  | inl e ↦ elim (Bool-cases (are_supported d.attrs)) [
    | inl g ↦ rw (find_proc-owner_of lay v n d, attr_loop_lem lay d.attrs, e, g)
    | inr g ↦ rw (find_proc-owner_of lay v n d, attr_loop_lem lay d.attrs, e, g)
  ]
]

-- With a valid table of sockets, diag_dump adds the connection of a message whose memory is
-- allocated and whose attributes the table knows, counts it and marks its attributes as received,
-- and refuses any other message, after which the filters are freed; the connection has the bit of an
-- attribute exactly if every message brings it, the attribute stands in the message, or it is the
-- owner, asked for and known.
pub diag_dump-brings :
    (lay : Sizes) {m : SkMap} {f : Owners}
    → Models m f
    → (n : Ctx) (d : Diag)
    → (diag_dump lay m n d ≡ handle lay f n d)
      × ((t : ℕ) → has_ext (conn_of lay f n.ext_req d).ext t ≡ brings lay f n.ext_req d t)
diag_dump-brings lay {f} v n d = (diag_dump-handle lay v n d, has_ext-conn_of lay f n.ext_req d)
