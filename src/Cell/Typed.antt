-- ===== src/Cell/Typed.antt =====
-- src/draw.c: the number that a column shows, typed at the prompt for a filter.
use sockmon.Accept.{filter_apply, type_op}
use sockmon.Accept.Numbers.{is_number, number_of, common-Reads}
use sockmon.Base.{
  ℕ, zero, suc, ◌-◌, ◌^◌, ◌<◌, ◌≡◌, ◌∙◌, ◌↔◌, refl, sym, ap, arith, Bool, true, false, Option, some,
  List, [], ◌∷◌, ◌++◌, length, replicate, ◌==◌, ==_iff, ok,
}
use sockmon.Cell.{InetNtop, common_text, port_text, cell_text, row_text}
use sockmon.Conn.{Bytes, load_u8, load_u16, load_u32, load_u64, ntohs}
use sockmon.Field.{
  FieldType, type_u8, type_u16, type_u16_port, type_u32, type_u64, op_eq, Filter, Field,
  FilterParse, DrawRow, dr_common, dr_port, fa_common,
}
use sockmon.Field.Table.Layout.{Abi}
use sockmon.MainScreen.{Typed, byte}
use sockmon.Print.{pad_left}
use sockmon.Prompt.{
  fp_common, skip_blanks, read_op, after_op, read_operand, read_number, number, store_operand,
  new_filter, decimal,
}
use sockmon.Prompt.Digits.{typed, decimal-read_number}
use sockmon.Sort.Laws.{type_value}

-- The function that draws a column of numbers.
unfoldable pub drawn_by : FieldType → DrawRow
drawn_by type_u16_port = dr_port
drawn_by _ = dr_common

typed-append : (s t : List ℕ) (ks : List Typed) → typed (s ++ t) ++ ks ≡ typed s ++ (typed t ++ ks)
typed-append [] t ks = refl
typed-append (c ∷ s) t ks = ap (λ l. byte c ∷ l) (typed-append s t ks)

read-blanks :
    (n : ℕ) (ks : List Typed)
    → read_number 0 false (typed (replicate n b' ') ++ ks) ≡ read_number 0 false ks
unfolding read_number
read-blanks zero ks = refl
read-blanks (suc n) ks = read-blanks n ks

read-end : (v : ℕ) (ks : List Typed) → read_number v true (byte 10 ∷ ks) ≡ ok (number v true ks)
unfolding read_number
read-end v ks = refl

-- Blanks and digits are read as the number.
read-shown :
    (width v : ℕ) (ks : List Typed)
    → v < 2 ^ 64
    → read_number 0 false (typed (pad_left width (decimal 20 v [])) ++ byte 10 ∷ ks)
      ≡ ok (number v true ks)
unfolding pad_left
read-shown width v ks h =
    ap (read_number 0 false) (
      typed-append (replicate (width - length (decimal 20 v [])) b' ') (decimal 20 v [])
        (byte 10 ∷ ks))
    ∙ read-blanks (width - length (decimal 20 v [])) (typed (decimal 20 v []) ++ byte 10 ∷ ks)
    ∙ decimal-read_number 19 v [] false (byte 10 ∷ ks) (omega arith) h
    ∙ read-end v ks

-- Two numbers of 64 bits with the same text are the same.
shown-injective :
    (width v w : ℕ)
    → v < 2 ^ 64
    → w < 2 ^ 64
    → pad_left width (decimal 20 v []) ≡ pad_left width (decimal 20 w [])
    → v ≡ w
shown-injective width v w hv hw e = same_number (
    sym (read-shown width v [] hv)
    ∙ ap (λ s. read_number 0 false (typed s ++ byte 10 ∷ [])) e
    ∙ read-shown width w [] hw)
  where
    same_number : ok (number v true []) ≡ ok (number w true []) → v ≡ w
    same_number e = cc

u8_lt : (m : Bytes) (p : ℕ) → load_u8 m p < 2 ^ 64
unfolding load_u8
u8_lt m p = omega arith

u16_lt : (m : Bytes) (p : ℕ) → load_u16 m p < 2 ^ 64
unfolding load_u16 load_u8
u16_lt m p = omega arith

u16_port_lt : (m : Bytes) (p : ℕ) → ntohs (load_u16 m p) < 2 ^ 64
unfolding ntohs load_u16 load_u8
u16_port_lt m p = omega arith

u32_lt : (m : Bytes) (p : ℕ) → load_u32 m p < 2 ^ 64
unfolding load_u32 load_u16 load_u8
u32_lt m p = omega arith

u64_lt : (m : Bytes) (p : ℕ) → load_u64 m p < 2 ^ 64
unfolding load_u64 load_u32 load_u16 load_u8
u64_lt m p = omega arith

module _ (abi : Abi) (inet_ntop : InetNtop) where
  -- The text of a column of numbers is the numeral of the number that its filter reads.
  shown-Reads :
      (f : Field) (m : Bytes) (p : ℕ) (t : FieldType)
      → f.type ≡ t
      → is_number t ≡ true
      → (k : ℕ) × (number_of t f.type_nr m p ≡ k ∷ [])
        × (k < 2 ^ 64)
        × (row_text abi inet_ntop (drawn_by t) f m p ≡ pad_left f.width (decimal 20 k []))
  unfolding is_number number_of type_value drawn_by row_text cell_text common_text port_text
  shown-Reads f m p type_u8 e n =
      (load_u8 m p, refl, u8_lt m p, ap (λ x. pad_left f.width (common_text x f.type_nr m p)) e)
  shown-Reads f m p type_u16 e n =
      (load_u16 m p, refl, u16_lt m p, ap (λ x. pad_left f.width (common_text x f.type_nr m p)) e)
  shown-Reads f m p type_u16_port e n = (ntohs (load_u16 m p), refl, u16_port_lt m p, refl)
  shown-Reads f m p type_u32 e n =
      (load_u32 m p, refl, u32_lt m p, ap (λ x. pad_left f.width (common_text x f.type_nr m p)) e)
  shown-Reads f m p type_u64 e n =
      (load_u64 m p, refl, u64_lt m p, ap (λ x. pad_left f.width (common_text x f.type_nr m p)) e)
  shown-Reads f m p _ e n = cc

  -- What the prompt makes of `=` and a text.
  typed-Prompted :
      (t : FieldType) (old : Option Filter) (width v : ℕ) (ks : List Typed)
      → is_number t ≡ true
      → v < 2 ^ 64
      → fp_common true t old (byte b'=' ∷ typed (pad_left width (decimal 20 v [])) ++ byte 10 ∷ ks)
        ≡ ok (record { failed = false; filter = some (new_filter op_eq v []); keys = ks })
  unfolding fp_common skip_blanks read_op after_op read_operand store_operand is_number
  typed-Prompted type_u8 old width v ks n h = rw (read-shown width v ks h)
  typed-Prompted type_u16 old width v ks n h = rw (read-shown width v ks h)
  typed-Prompted type_u16_port old width v ks n h = rw (read-shown width v ks h)
  typed-Prompted type_u32 old width v ks n h = rw (read-shown width v ks h)
  typed-Prompted type_u64 old width v ks n h = rw (read-shown width v ks h)
  typed-Prompted _ old width v ks n h = cc

  -- The filter that the prompt makes, on the number of another connection.
  apply-number :
      (f : Field) (m : Bytes) (p v k : ℕ)
      → is_number f.type ≡ true
      → number_of f.type f.type_nr m p ≡ k ∷ []
      → filter_apply abi fa_common (record f { filter = some (new_filter op_eq v []) }) m p
        ≡ ok (k == v)
  unfolding filter_apply type_op
  apply-number f m p v k n e =
      let (j, is, reads) = common-Reads f.type f.type_nr (some (new_filter op_eq v [])) m p n in
      let same : j ≡ k = one (sym is ∙ e) in reads ∙ ap (λ x. ok (x == v)) same
    where
      one : {a b : ℕ} → a ∷ [] ≡ b ∷ [] → a ≡ b
      one e = cc

  -- What typing `=` and the text that the column shows of one connection does.
  pub record Picks (f : Field) (m m' : Bytes) (p : ℕ) (old : Option Filter) (ks : List Typed)
      : Type 0 where
    pub filter : Filter
    pub taken : Bool
    pub is_drawn : f.draw_row ≡ some (drawn_by f.type)
    pub is_parsed : f.filter_parse ≡ some FilterParse.fp_common
    pub prompted :
        fp_common true f.type old
          (byte b'=' ∷ typed (row_text abi inet_ntop (drawn_by f.type) f m p) ++ byte 10 ∷ ks)
        ≡ ok (record { failed = false; filter = some filter; keys = ks })
    pub applied : filter_apply abi fa_common (record f { filter = some filter }) m' p ≡ ok taken
    pub same_text : (taken ≡ true) ↔ (
        row_text abi inet_ntop (drawn_by f.type) f m' p
        ≡ row_text abi inet_ntop (drawn_by f.type) f m p)

  pub picks :
      (f : Field) (m m' : Bytes) (p : ℕ) (old : Option Filter) (ks : List Typed)
      → f.draw_row ≡ some (drawn_by f.type)
      → f.filter_parse ≡ some FilterParse.fp_common
      → is_number f.type ≡ true
      → Picks f m m' p old ks
  picks f m m' p old ks draws parses n =
      let (v, is_v, small, shown) = shown-Reads f m p f.type refl n in
      let (k, is_k, small', shown') = shown-Reads f m' p f.type refl n in
      record {
        filter = new_filter op_eq v [];
        taken = k == v;
        is_drawn = draws;
        is_parsed = parses;
        prompted = rw shown (typed-Prompted f.type old f.width v ks n small);
        applied = apply-number f m' p v k n is_k;
        same_text = (
          λ e. shown' ∙ ap (λ x. pad_left f.width (decimal 20 x [])) ((==_iff k v).0 e) ∙ sym shown,
          λ e. (==_iff k v).1 (shown-injective f.width k v small' small (sym shown' ∙ e ∙ shown)),
        );
      }
