-- ===== src/Address.antt =====
-- src/draw.c: `fp_addr`, the prompt for a filter on an address, over the keys that are typed at it,
-- and the text that `decode_filter` shows of such a filter. `inet_pton` and `inet_ntop` are
-- parameters.
pub mod Again
pub mod Overflow
pub mod Line
use sockmon.Base.{
  ℕ, ◌+◌, ◌-◌, Bool, true, false, not, ◌&&◌, ◌||◌, is_none, Option, none, some, List, [], ◌∷◌, ◌++◌,
  ltb, leb, ◌==◌, if◌then◌else◌, take, drop, length, replicate, Run, ok, fault, waits,
  out_of_bounds, ◌>>=◌,
}
use sockmon.Conn.{af_inet, af_inet6}
use sockmon.Field.{CmpOp, op_eq, op_ne, Filter}
use sockmon.MainScreen.{Typed, byte, err, is_newline, skip_line}
use sockmon.Prefix.{prefix_mask, prefix_length}
use sockmon.Prompt.{
  is_blank, skip_blanks, Head, with_op, without_op, at_newline, buf_size, Prompted, decimal,
}
use sockmon.Text.{isxdigit, strtol}

-- `inet_pton(family, buf, addr)`: the bytes that a call that returns 1 writes, 4 for AF_INET and 16 for
-- AF_INET6.
abbrev pub InetPton : Type 0
InetPton = (family : ℕ) → (buf : List ℕ) → Option (List ℕ)

-- `inet_ntop(family, addr, dst, sizeof(dst))`: the text in `dst`.
abbrev pub InetNtop : Type 0
InetNtop = (family : ℕ) → (addr : List ℕ) → List ℕ

unfoldable pub after_addr_not : List Typed → Run Head
after_addr_not [] = waits
after_addr_not (err ∷ ks) = ok (without_op (err ∷ ks))
after_addr_not (byte c ∷ ks) = ok (if c == b'=' then with_op op_ne ks else without_op (byte c ∷ ks))

unfoldable pub read_addr_op : Typed → List Typed → Run Head
unfolding after_addr_not
read_addr_op err ks = ok (without_op ks)
read_addr_op (byte c) ks =
    if c == b'='
    then ok (with_op op_eq ks)
    else (if c == b'!'
        then after_addr_not ks
        else ok (if is_newline c then at_newline ks else without_op ks))

abbrev pub is_addr_char : ℕ → Bool
is_addr_char c = isxdigit c || (c == b':' || (c == b'.' || c == b'/'))

-- The text that is typed, with whether a character of it was, or an error.
pub data Entry : Type 0 where
  entered : List ℕ → Bool → List Typed → Entry
  refused : List Typed → Entry

-- The loop, with `room` bytes left in `buf`: only the store of a character asks for room.
unfoldable pub read_addr : ℕ → List ℕ → Bool → List Typed → Run Entry
read_addr room s seen_input [] = waits
read_addr room s seen_input (err ∷ ks) = ok (refused ks)
read_addr room s seen_input (byte c ∷ ks) =
    let blank = read_addr room s seen_input ks in
    let next = read_addr (room - 1) (s ++ c ∷ []) true ks in
    if is_blank c
    then blank
    else (if is_newline c
        then (if room == 0 then fault out_of_bounds else ok (entered s seen_input ks))
        else (if is_addr_char c
            then (if room == 0 then ok (refused ks) else next)
            else ok (refused ks)))

-- `strrchr(buf, '/')`: the text before the last slash and the text after it.
unfoldable pub last_slash : List ℕ → Option (List ℕ × List ℕ)
last_slash [] = none
last_slash (c ∷ s) = elim (last_slash s) [
  | some (a, b) ↦ some (c ∷ a, b)
  | none ↦ if c == b'/' then some ([], s) else none
]

abbrev is_nil : List ℕ → Bool
is_nil [] = true
is_nil (c ∷ s) = false

-- The prefix length, if it is a number from 0 to 128.
unfoldable pub pfix_of : List ℕ → Option ℕ
unfolding strtol
pfix_of s =
    let l = strtol s in
    if not (is_nil l.endp) || ((l.negative && ltb 0 l.magnitude) || ltb 128 l.magnitude)
    then none
    else some l.magnitude

-- The text of the address, and the mask.
unfoldable pub split_mask : List ℕ → Option (List ℕ × List ℕ)
unfolding last_slash pfix_of prefix_mask
split_mask buf = elim (last_slash buf) [
  | none ↦ some (buf, replicate 16 255)
  | some (before, after) ↦ elim (pfix_of after) [
    | none ↦ none
    | some pfix ↦ some (before, prefix_mask pfix)
  ]
]

abbrev pub address_filter : CmpOp → ℕ → List ℕ → List ℕ → Filter
address_filter op family addr mask = record {
  op = op;
  v = 0;
  selected = 0;
  addr = addr;
  mask = mask;
  family = family;
  s = [];
}

-- The new filter, if the text stands for one and there is memory for it.
abbrev pub replaced : Bool → Option Filter → Option Filter → List Typed → Prompted
replaced alloc old none ks = record { failed = true; filter = old; keys = ks }
replaced alloc old (some flt) ks = record {
  failed = not alloc;
  filter = if alloc then some flt else old;
  keys = ks;
}

-- `stack` is what stands in the 16 bytes of `addr` before the calls.
module _ (inet_pton : InetPton) (stack : List ℕ) where
  -- `addr` after a call that wrote some bytes.
  abbrev pub written : List ℕ → List ℕ
  written addr = addr ++ drop (length addr) stack

  -- The family and the 16 bytes of `addr`.
  unfoldable pub parse_addr : List ℕ → Option (ℕ × List ℕ)
  parse_addr buf = elim (inet_pton af_inet buf) [
    | some addr ↦ some (af_inet, written addr)
    | none ↦ elim (inet_pton af_inet6 buf) [
      | some addr ↦ some (af_inet6, written addr)
      | none ↦ none
    ]
  ]

  -- The filter that a text stands for.
  unfoldable pub network_of : CmpOp → List ℕ → Option Filter
  unfolding split_mask parse_addr
  network_of op buf = elim (split_mask buf) [
    | none ↦ none
    | some (before, mask) ↦ elim (parse_addr before) [
      | none ↦ none
      | some (family, addr) ↦ some (address_filter op family addr mask)
    ]
  ]

  unfoldable pub store_addr : Bool → Option Filter → CmpOp → Entry → Run Prompted
  unfolding network_of skip_line
  store_addr alloc old op (entered s seen_input ks) = ok (
      if seen_input
      then replaced alloc old (network_of op s) ks
      else record { failed = false; filter = old; keys = ks })
  store_addr alloc old op (refused ks) =
      skip_line ks >>= λ rest. ok (record { failed = true; filter = old; keys = rest })

  unfoldable pub after_addr_op : Bool → Option Filter → Head → Run Prompted
  unfolding read_addr store_addr
  after_addr_op alloc old (at_newline ks) =
      ok (record { failed = is_none old; filter = old; keys = ks })
  after_addr_op alloc old (without_op ks) =
      skip_line ks >>= λ rest. ok (record { failed = true; filter = old; keys = rest })
  after_addr_op alloc old (with_op op ks) =
      read_addr buf_size [] false ks >>= store_addr alloc old op

  unfoldable pub fp_addr : Bool → Option Filter → List Typed → Run Prompted
  unfolding skip_blanks read_addr_op after_addr_op
  fp_addr alloc old keys = do
    (ch, ks) ← skip_blanks keys
    head ← read_addr_op ch ks
    after_addr_op alloc old head

abbrev pub address_op : CmpOp → List ℕ
address_op op_eq = b'=' ∷ []
address_op op_ne = b'!' ∷ b'=' ∷ []
address_op _ = b'?' ∷ []

-- The text of `decode_filter` for a filter on an address.
unfoldable pub decode_address : InetNtop → Filter → List ℕ
unfolding prefix_length decimal
decode_address inet_ntop flt =
    let pfix = prefix_length (if flt.family == af_inet then 4 else 16) flt.mask 0 in
    take (buf_size - 1)
      (address_op flt.op ++ (inet_ntop flt.family flt.addr ++ b'/' ∷ decimal 20 pfix []))
