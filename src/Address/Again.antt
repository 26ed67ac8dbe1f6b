-- ===== src/Address/Again.antt =====
-- src/draw.c: what `decode_filter` shows of a filter on an address, typed at the prompt of `fp_addr`.
use mathlib.Core.List.{append_assoc, append-nil, map-append}
use sockmon.Address.{
  InetPton, InetNtop, entered, read_addr, is_addr_char, last_slash, pfix_of, split_mask, parse_addr,
  written, address_filter, network_of, store_addr, fp_addr, address_op, decode_address,
}
use sockmon.Base.{
  ℕ, ◌-◌, ◌≤◌, ◌<◌, ◌≡◌, ◌∙◌, refl, ap, arith, Bool, true, false, ◌&&◌, is_none, Option, none, some,
  List, [], ◌∷◌, ◌++◌, length, length-append, leb, ◌==◌, ==_iff, if◌then◌else◌, take, drop, ok,
  ◌>>=◌, holds_below, holds_below-lt,
}
use sockmon.Conn.{af_inet, af_inet6}
use sockmon.Field.{CmpOp, op_eq, op_ne, Filter}
use sockmon.MainScreen.{Typed, byte, is_newline}
use sockmon.Prefix.{prefix_mask, prefix_length}
use sockmon.Prefix.Length.{prefix_length-prefix_mask}
use sockmon.Prompt.{is_blank, buf_size, decimal}
use sockmon.Prompt.Digits.{typed, take-all, length-decimal}
use sockmon.Prompt.Again.{taken}
use sockmon.Text.{isxdigit, isdigit}

unfoldable pub are_addr_chars : List ℕ → Bool
are_addr_chars [] = true
are_addr_chars (c ∷ s) = is_addr_char c && are_addr_chars s

pub char_step :
    (c : ℕ) (s : List ℕ) (room : ℕ) (seen : Bool) (ks : List Typed)
    → is_addr_char c ≡ true
    → 0 < room
    → read_addr room s seen (byte c ∷ ks) ≡ read_addr (room - 1) (s ++ c ∷ []) true ks
unfolding read_addr isxdigit isdigit
char_step c s room seen ks h l =
    let full : (room == 0) ≡ false = ground arith in
    let blank : is_blank c ≡ false = ground (arith, h) in
    let newline : is_newline c ≡ false = ground (arith, h) in rw (blank, newline, h, full)

read_addr-chars :
    (s acc : List ℕ) (room : ℕ) (ks : List Typed)
    → are_addr_chars s ≡ true
    → length s < room
    → read_addr room acc true (typed s ++ byte 10 ∷ ks) ≡ ok (entered (acc ++ s) true ks)
unfolding are_addr_chars
read_addr-chars [] acc room ks h l =
    let full : (room == 0) ≡ false = ground arith in unfold read_addr in rw (full, append-nil acc)
read_addr-chars (c ∷ s) acc room ks h l =
    char_step c acc room true (typed s ++ byte 10 ∷ ks) (ground (arith, h)) (omega arith)
    ∙ read_addr-chars s (acc ++ c ∷ []) (room - 1) ks (ground (arith, h)) (omega arith)
    ∙ ap (λ x. ok (entered x true ks)) (append_assoc acc (c ∷ []) s)

-- A text with a character of it.
read_addr-text :
    (s : List ℕ) (ks : List Typed)
    → are_addr_chars s ≡ true
    → 1 ≤ length s
    → length s ≤ 79
    → read_addr 80 [] false (typed s ++ byte 10 ∷ ks) ≡ ok (entered s true ks)
unfolding are_addr_chars
read_addr-text [] ks h one l = absurd (omega arith)
read_addr-text (c ∷ s) ks h one l =
    char_step c [] 80 false (typed s ++ byte 10 ∷ ks) (ground (arith, h)) (omega arith)
    ∙ read_addr-chars s (c ∷ []) 79 ks (ground (arith, h)) (omega arith)

last_slash-append : (a b : List ℕ) → last_slash b ≡ none → last_slash (a ++ b'/' ∷ b) ≡ some (a, b)
unfolding last_slash
last_slash-append [] b h = rw h
last_slash-append (c ∷ a) b h = rw (last_slash-append a b h)

are_addr_chars-append :
    (a b : List ℕ)
    → are_addr_chars a ≡ true
    → are_addr_chars b ≡ true
    → are_addr_chars (a ++ b'/' ∷ b) ≡ true
unfolding are_addr_chars isxdigit
are_addr_chars-append [] b h k = ground (arith, k)
are_addr_chars-append (c ∷ a) b h k = ground (arith, are_addr_chars-append a b, h, k)

-- The digits of a prefix length are read back, and have no slash.
abbrev is_same : ℕ → Option ℕ → Bool
is_same p none = false
is_same p (some q) = q == p

abbrev reads_back : ℕ → Bool
reads_back p =
    is_same p (pfix_of (decimal 20 p []))
    && (is_none (last_slash (decimal 20 p [])) && are_addr_chars (decimal 20 p []))

digits : holds_below 129 reads_back ≡ true
unfolding holds_below pfix_of last_slash decimal are_addr_chars isxdigit
digits = refl

is_same-eq : (p : ℕ) (o : Option ℕ) → is_same p o ≡ true → o ≡ some p
is_same-eq p none h = cc
is_same-eq p (some q) h = ap some ((==_iff q p).0 h)

is_none-eq {ℓ} : {A : Type ℓ} (o : Option A) → is_none o ≡ true → o ≡ none
is_none-eq none h = refl
is_none-eq (some a) h = cc

module _ (p : ℕ) (h : p ≤ 128) where
  back_again : reads_back p ≡ true
  back_again = holds_below-lt 129 reads_back p digits (omega arith)

  pfix_of-decimal : pfix_of (decimal 20 p []) ≡ some p
  pfix_of-decimal = is_same-eq p (pfix_of (decimal 20 p [])) (ground (arith, back_again))

  last_slash-decimal : last_slash (decimal 20 p []) ≡ none
  last_slash-decimal = is_none-eq (last_slash (decimal 20 p [])) (ground (arith, back_again))

  decimal-chars : are_addr_chars (decimal 20 p []) ≡ true
  decimal-chars = ground (arith, back_again)

abbrev pub family_of : Bool → ℕ
family_of v6 = if v6 then af_inet6 else af_inet

-- What inet(3) says of the text of an address, of which `addr` are the 4 or 16 bytes and `behind` what
-- stands behind them in memory: its characters and its length, and that it is read back as that
-- address and as no other.
pub record IsPresentation (inet_pton : InetPton) (inet_ntop : InetNtop) (v6 : Bool)
    (addr behind : List ℕ) : Type 0 where
  pub size : length addr ≡ (if v6 then 16 else 4)
  pub chars : are_addr_chars (inet_ntop (family_of v6) (addr ++ behind)) ≡ true
  pub short : length (inet_ntop (family_of v6) (addr ++ behind)) ≤ 45
  pub back : inet_pton (family_of v6) (inet_ntop (family_of v6) (addr ++ behind)) ≡ some addr
  pub only : v6 ≡ true → inet_pton af_inet (inet_ntop (family_of v6) (addr ++ behind)) ≡ none

abbrev pub is_addr_op : CmpOp → Bool
is_addr_op op_eq = true
is_addr_op op_ne = true
is_addr_op _ = false

abbrev longest : Bool → ℕ
longest v6 = if v6 then 128 else 32

length_of :
    (v6 : Bool) (pfix : ℕ)
    → pfix ≤ longest v6
    → prefix_length (if family_of v6 == af_inet then 4 else 16) (prefix_mask pfix) 0 ≡ pfix
length_of true pfix h = (prefix_length-prefix_mask pfix h).0
length_of false pfix h =
    let low : leb pfix 32 ≡ true = ground arith in
    (prefix_length-prefix_mask pfix (omega arith)).1 ∙ rw low

-- The operator is read back.
op-Reads :
    (inet_pton : InetPton) (stack : List ℕ) (old : Option Filter) (op : CmpOp) (ks : List Typed)
    → is_addr_op op ≡ true
    → fp_addr inet_pton stack true old (typed (address_op op) ++ ks)
      ≡ (read_addr buf_size [] false ks >>= store_addr inet_pton stack true old op)
unfolding fp_addr
op-Reads inet_pton stack old op_eq ks h = refl
op-Reads inet_pton stack old op_ne ks h = refl
op-Reads inet_pton stack old _ ks h = cc

length-address_op : (op : CmpOp) → length (address_op op) ≤ 2
length-address_op op = ground arith

parse_addr-back :
    {inet_pton : InetPton} {inet_ntop : InetNtop} (stack : List ℕ) (v6 : Bool)
    {addr behind : List ℕ}
    → IsPresentation inet_pton inet_ntop v6 addr behind
    → parse_addr inet_pton stack (inet_ntop (family_of v6) (addr ++ behind))
      ≡ some (family_of v6, written inet_pton stack addr)
unfolding parse_addr
parse_addr-back stack true law = rw (parse_addr, law.only refl, law.back)
parse_addr-back stack false law = rw (parse_addr, law.back)

network_of-eq :
    (inet_pton : InetPton) (stack : List ℕ) (op : CmpOp) (a : List ℕ) (family : ℕ) (addr : List ℕ)
    (pfix : ℕ)
    → pfix ≤ 128
    → parse_addr inet_pton stack a ≡ some (family, addr)
    → network_of inet_pton stack op (a ++ b'/' ∷ decimal 20 pfix [])
      ≡ some (address_filter op family addr (prefix_mask pfix))
unfolding network_of split_mask
network_of-eq inet_pton stack op a family addr pfix h e = rw (
  network_of,
  split_mask,
  last_slash-append a (decimal 20 pfix []) (last_slash-decimal pfix h),
  pfix_of-decimal pfix h,
  e,
)

longest-le : (v6 : Bool) (pfix : ℕ) → pfix ≤ longest v6 → pfix ≤ 128
longest-le true pfix h = h
longest-le false pfix h = omega arith

-- The operator and the text after it are typed one after the other.
text-taken :
    (inet_pton : InetPton) (stack : List ℕ) (old : Option Filter) (op : CmpOp) (s : List ℕ)
    (flt : Filter) (ks : List Typed)
    → is_addr_op op ≡ true
    → are_addr_chars s ≡ true
    → 1 ≤ length s
    → length s ≤ 77
    → network_of inet_pton stack op s ≡ some flt
    → fp_addr inet_pton stack true old
        (typed (take (buf_size - 1) (address_op op ++ s)) ++ byte 10 ∷ ks)
      ≡ taken flt ks
unfolding store_addr
text-taken inet_pton stack old op s flt ks o chars one short e =
    ap (λ x. fp_addr inet_pton stack true old (typed x ++ byte 10 ∷ ks))
      (take-all 79 (address_op op ++ s)
        (omega (arith, short, length-address_op op, length-append (address_op op) s)))
    ∙ ap (λ x. fp_addr inet_pton stack true old (x ++ byte 10 ∷ ks))
        (map-append byte (address_op op) s)
    ∙ ap (fp_addr inet_pton stack true old)
        (append_assoc (typed (address_op op)) (typed s) (byte 10 ∷ ks))
    ∙ op-Reads inet_pton stack old op (typed s ++ byte 10 ∷ ks) o
    ∙ rw (read_addr-text s ks chars one (omega (arith, short)), e)

decode_address-eq :
    (inet_ntop : InetNtop) (v6 : Bool) (addr : List ℕ) (pfix : ℕ) (op : CmpOp)
    → pfix ≤ longest v6
    → decode_address inet_ntop (address_filter op (family_of v6) addr (prefix_mask pfix))
      ≡ take
          (buf_size - 1)
          (address_op op ++ (inet_ntop (family_of v6) addr ++ b'/' ∷ decimal 20 pfix []))
decode_address-eq inet_ntop v6 addr pfix op h =
    unfold decode_address in
    ap
      (λ x.
        take (buf_size - 1)
          (address_op op ++ (inet_ntop (family_of v6) addr ++ b'/' ∷ decimal 20 x [])))
      (length_of v6 pfix h)

-- For = or != with an address of either family and a prefix length of at most 32 or 128, where
-- inet_pton reads the text of inet_ntop back as inet(3) says, the text that decode_filter shows
-- of the filter, typed at the prompt with a newline and with memory at hand, gives the filter
-- again, but for the bytes behind the 4 of an IPv4 address, which are those that stood in the
-- local buffer, and leaves the keys after the newline, whatever filter stood there.
pub fp_addr-decode_address :
    {inet_pton : InetPton} {inet_ntop : InetNtop} (stack : List ℕ) (v6 : Bool)
    {addr behind : List ℕ}
    → IsPresentation inet_pton inet_ntop v6 addr behind
    → (pfix : ℕ) (op : CmpOp) (old : Option Filter) (ks : List Typed) → pfix ≤ longest v6
    → is_addr_op op ≡ true
    → (let flt = address_filter op (family_of v6) (addr ++ behind) (prefix_mask pfix) in
        fp_addr inet_pton stack true old (typed (decode_address inet_ntop flt) ++ byte 10 ∷ ks)
        ≡ taken (record flt { addr = addr ++ drop (length addr) stack }) ks)
fp_addr-decode_address {inet_pton} {inet_ntop} stack v6 {addr} {behind} law pfix op old ks h o =
    let dst = inet_ntop (family_of v6) (addr ++ behind) in
    let high = longest-le v6 pfix h in
    ap (λ x. fp_addr inet_pton stack true old (typed x ++ byte 10 ∷ ks))
      (decode_address-eq inet_ntop v6 (addr ++ behind) pfix op h)
    ∙ text-taken inet_pton stack old op (dst ++ b'/' ∷ decimal 20 pfix [])
        (address_filter op (family_of v6) (written inet_pton stack addr) (prefix_mask pfix)) ks o
        (are_addr_chars-append dst (decimal 20 pfix []) law.chars (decimal-chars pfix high))
        (omega (arith, length-append dst (b'/' ∷ decimal 20 pfix [])))
        (omega (
          arith,
          law.short,
          length-append dst (b'/' ∷ decimal 20 pfix []),
          length-decimal 20 pfix [],
        ))
        (network_of-eq inet_pton stack op dst (family_of v6) (written inet_pton stack addr) pfix
          high (parse_addr-back stack v6 law))
