-- ===== src/Address/Line.antt =====
-- src/draw.c: `fp_addr` over a line that is typed at its prompt.
use sockmon.Address.{
  InetPton, after_addr_not, read_addr_op, is_addr_char, Entry, entered, refused, read_addr,
  replaced, network_of, store_addr, after_addr_op, fp_addr,
}
use sockmon.Base.{
  ℕ, ◌-◌, ◌≤◌, ◌<◌, ◌≡◌, refl, arith, Bool, true, false, Bool-cases, inl, inr, Option, none, some,
  List, [], ◌∷◌, ◌++◌, length, ◌==◌, ok,
}
use sockmon.Field.{op_eq, op_ne, CmpOp, Filter}
use sockmon.MainScreen.{Typed, byte, err, is_newline}
use sockmon.MainScreen.Delay.{IsLine}
use sockmon.Prompt.Line.{Asked, skipped-Asked}
use sockmon.Prompt.Line.Heads.{Tail, FirstEnds, HeadEnds, HasHead, skip_blanks-FirstEnds}
use sockmon.Prompt.{is_blank, Head, with_op, without_op, at_newline}

module _ (c : ℕ) (ks : List Typed) (nl : is_newline c ≡ true) where
  after_addr_not-HasHead :
      (n : ℕ) (line : List Typed)
      → IsLine line
      → length line ≤ n
      → HasHead c ks nl n (after_addr_not (line ++ byte c ∷ ks))
  unfolding after_addr_not HeadEnds IsLine
  after_addr_not-HasHead n [] h l =
      let other : (c == b'=') ≡ false = ground (arith, nl) in
      (without_op (byte c ∷ ks), rw other, ([], tt, omega arith, refl))
  after_addr_not-HasHead n (err ∷ line) h l =
      (without_op (err ∷ line ++ byte c ∷ ks), refl, (err ∷ line, h, l, refl))
  after_addr_not-HasHead n (byte d ∷ line) h l = elim (Bool-cases (d == b'=')) [
    | inl same ↦ (with_op op_ne (line ++ byte c ∷ ks), rw same, (line, h.1, omega (arith, l), refl))
    | inr other ↦ (without_op (byte d ∷ line ++ byte c ∷ ks), rw other, (byte d ∷ line, h, l, refl))
  ]

  read_addr_op-HasHead :
      (n : ℕ) (ch : Typed) (x : List Typed)
      → FirstEnds c ks nl n ch x
      → HasHead c ks nl n (read_addr_op ch x)
  unfolding FirstEnds HeadEnds read_addr_op
  read_addr_op-HasHead n err x (line, h, l, e) = (without_op x, refl, (line, h, l, e))
  read_addr_op-HasHead n (byte d) x f = elim (Bool-cases (is_newline d)) [
    | inl yes_nl ↦
        let e₁ : (d == b'=') ≡ false = ground (arith, yes_nl) in
        let e₂ : (d == b'!') ≡ false = ground (arith, yes_nl) in
        (at_newline x, rw (e₁, e₂, yes_nl), rw yes_nl at f)
    | inr plain ↦
        let (line, h, l, e) : Tail c ks n x = rw plain at f in
        elim (Bool-cases (d == b'=')) [
          | inl e₁ ↦ (with_op op_eq x, rw e₁, (line, h, l, e))
          | inr e₁ ↦ elim (Bool-cases (d == b'!')) [
            | inl e₂ ↦ rw (e, e₁, e₂) (after_addr_not-HasHead n line h l)
            | inr e₂ ↦ (without_op x, rw (e₁, e₂, plain), (line, h, l, e))
          ]
        ]
  ]

  EntryEnds : Entry → Type 0
  EntryEnds (entered s seen x) = x ≡ ks
  EntryEnds (refused x) = (line : List Typed) × IsLine line × (x ≡ line ++ byte c ∷ ks)

  read_addr-Ends :
      (room : ℕ) (s : List ℕ) (seen : Bool) (line : List Typed)
      → IsLine line
      → length line < room
      → (r : Entry) × (read_addr room s seen (line ++ byte c ∷ ks) ≡ ok r) × EntryEnds r
  unfolding read_addr EntryEnds IsLine
  read_addr-Ends room s seen [] h l =
      let blank : is_blank c ≡ false = ground (arith, nl) in
      let full : (room == 0) ≡ false = ground arith in
      (entered s seen ks, rw (blank, nl, full), refl)
  read_addr-Ends room s seen (err ∷ line) h l =
      (refused (line ++ byte c ∷ ks), refl, (line, h, refl))
  read_addr-Ends room s seen (byte d ∷ line) h l = elim (Bool-cases (is_blank d)) [
    | inl blank ↦ rw blank (read_addr-Ends room s seen line h.1 (omega (arith, l)))
    | inr solid ↦ elim (Bool-cases (is_addr_char d)) [
      | inl good ↦
          let full : (room == 0) ≡ false = ground (arith, l) in
          rw (solid, h.0, good, full)
            (read_addr-Ends (room - 1) (s ++ d ∷ []) true line h.1 (omega (arith, l)))
      | inr bad ↦ (refused (line ++ byte c ∷ ks), rw (solid, h.0, bad), (line, h.1, refl))
    ]
  ]

  module _ (inet_pton : InetPton) (stack : List ℕ) (alloc : Bool) (old : Option Filter) where
    replaced-Asked : (new : Option Filter) → Asked c ks nl old (ok (replaced alloc old new ks))
    replaced-Asked none = record { result = _; returns = refl; rest = refl; kept = λ f. refl }
    replaced-Asked (some flt) = record {
      result = replaced alloc old (some flt) ks;
      returns = refl;
      rest = refl;
      kept = λ f. elim (Bool-cases alloc) [
        | inl has ↦ absurd (ground (arith, f, has))
        | inr lacks ↦ rw lacks refl
      ];
    }

    store_addr-Asked :
        (op : CmpOp) (r : Entry)
        → EntryEnds r
        → Asked c ks nl old (store_addr inet_pton stack alloc old op r)
    unfolding store_addr EntryEnds
    store_addr-Asked op (entered s true x) e =
        rw e (replaced-Asked (network_of inet_pton stack op s))
    store_addr-Asked op (entered s false x) e = record {
      result = _;
      returns = refl;
      rest = e;
      kept = λ f. refl;
    }
    store_addr-Asked op (refused x) (line, h, e) = rw e (skipped-Asked c ks nl old line h)

    after_addr_op-Asked :
        (head : Head)
        → HeadEnds c ks nl 79 head
        → Asked c ks nl old (after_addr_op inet_pton stack alloc old head)
    unfolding after_addr_op HeadEnds
    after_addr_op-Asked (with_op op x) (line, h, l, e) =
        let (r, run, ends) = read_addr-Ends 80 [] false line h (omega (arith, l)) in
        rw (e, run) (store_addr-Asked op r ends)
    after_addr_op-Asked (without_op x) (line, h, l, e) = rw e (skipped-Asked c ks nl old line h)
    after_addr_op-Asked (at_newline x) e = record {
      result = _;
      returns = refl;
      rest = e;
      kept = λ f. refl;
    }

    -- Over a line of at most 80 keys and its newline fp_addr returns without a fault, takes
    -- exactly that line, and keeps the old filter if it fails.
    pub fp_addr-Asked :
        (line : List Typed)
        → IsLine line
        → length line ≤ 80
        → Asked c ks nl old (fp_addr inet_pton stack alloc old (line ++ byte c ∷ ks))
    unfolding fp_addr
    fp_addr-Asked line h l =
        let (ch, x, run, first) = skip_blanks-FirstEnds c ks nl 79 line h l in
        let (head, ops, ends) = read_addr_op-HasHead 79 ch x first in
        rw (run, ops) (after_addr_op-Asked head ends)
