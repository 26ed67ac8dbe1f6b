-- ===== src/Sort/Laws.antt =====
-- src/draw.c: the values that the comparison functions read, as lists of numbers, beside the
-- functions.
use sockmon.Base.{
  ◌<◌, ◌≢◌, ℕ_discrete, ℕ, zero, suc, ◌+◌, ◌≡◌, refl, arith, not, ◌&&◌, Bool-cases, inl, inr, ltb,
  ◌==◌, if◌then◌else◌, List, [], ◌∷◌, ℤ, pos,
}
use sockmon.Conn.{af_inet, Bytes, load_u8, load_u16, load_u32, load_u64, bits, ntohs, ntohl}
use sockmon.Field.{
  FieldType, type_u8, type_u16, type_u32, type_u64, type_string, type_bool_u8, type_bool_u16,
  type_bool_u32, type_bit_u8, Field, SortFunc, sort_src, sort_port, sort_dst, sort_common,
  sort_snd_wscale, sort_rcv_wscale, sort_delivery_rate_app_limited, sort_fastopen_client_fail,
  sort_ecn_mode, sort_accecn_opt_seen, sort_accecn_fail_mode, sort_bbr_bw,
  sort_bind_address_no_port, sort_recverr_rfc4884, sort_defer_connect,
}
use sockmon.Field.Table.Layout.{Abi}
use sockmon.Sort.{
  cmp3, char_rank, string_len, sort_string, sort_by_type, or_next, sort_address, bbr_bw, sort_func,
}
use sockmon.Sort.Order.{lex}

-- The ranks of a string's bytes, its NUL included.
unfoldable pub string_value : ℕ → Bytes → ℕ → List ℕ
string_value zero m p = []
string_value (suc k) m p =
    let rest = string_value k m (p + 1) in
    char_rank (load_u8 m p) ∷ (if load_u8 m p == 0 then [] else rest)

unfoldable pub type_value : FieldType → ℕ → Bytes → ℕ → List ℕ
unfolding string_value
type_value type_u8 nr m p = load_u8 m p ∷ []
type_value type_bool_u8 nr m p = load_u8 m p ∷ []
type_value type_u16 nr m p = load_u16 m p ∷ []
type_value type_bool_u16 nr m p = load_u16 m p ∷ []
type_value type_u32 nr m p = load_u32 m p ∷ []
type_value type_bool_u32 nr m p = load_u32 m p ∷ []
type_value type_u64 nr m p = load_u64 m p ∷ []
type_value type_string nr m p = string_value string_len m p
type_value type_bit_u8 nr m p = (if ltb nr 8 then bits nr 1 (load_u8 m p) else 0) ∷ []
type_value _ nr m p = []

-- An address by its words, the first for IPv4 and four for IPv6.
unfoldable pub address_value : ℕ → Bytes → ℕ → List ℕ
address_value family m a =
    let word = λ (i : ℕ). ntohl (load_u32 m (a + i)) in
    if family == af_inet then word 0 ∷ [] else word 0 ∷ word 4 ∷ word 8 ∷ word 12 ∷ []

module _ (abi : Abi) where
  open abi use {idiag_family, idiag_src, idiag_dst}

  -- What a comparison function compares.
  unfoldable pub sort_value : SortFunc → Field → Bytes → ℕ → List ℕ
  unfolding type_value address_value
  sort_value sort_common f m p = type_value f.type f.type_nr m p
  sort_value sort_src f m p = address_value (load_u8 m (p + idiag_family)) m (p + idiag_src)
  sort_value sort_dst f m p = address_value (load_u8 m (p + idiag_family)) m (p + idiag_dst)
  sort_value sort_port f m p = ntohs (load_u16 m p) ∷ []
  sort_value sort_snd_wscale f m p = bits 0 4 (load_u8 m p) ∷ []
  sort_value sort_rcv_wscale f m p = bits 4 4 (load_u8 m p) ∷ []
  sort_value sort_delivery_rate_app_limited f m p = bits 0 1 (load_u8 m p) ∷ []
  sort_value sort_fastopen_client_fail f m p = bits 1 2 (load_u8 m p) ∷ []
  sort_value sort_ecn_mode f m p = bits 0 2 (load_u32 m p) ∷ []
  sort_value sort_accecn_opt_seen f m p = bits 2 2 (load_u32 m p) ∷ []
  sort_value sort_accecn_fail_mode f m p = bits 4 4 (load_u32 m p) ∷ []
  sort_value sort_bbr_bw f m p = bbr_bw m p ∷ []
  sort_value sort_bind_address_no_port f m p = bits 0 1 (load_u32 m p) ∷ []
  sort_value sort_recverr_rfc4884 f m p = bits 1 1 (load_u32 m p) ∷ []
  sort_value sort_defer_connect f m p = bits 2 1 (load_u32 m p) ∷ []

or_next-zero : (z : ℤ) → z ≡ or_next z (pos 0)
unfolding or_next
or_next-zero z = ground arith

-- One number each.
cmp3-lex : (a b : ℕ) → cmp3 a b ≡ lex (a ∷ []) (b ∷ [])
unfolding lex
cmp3-lex a b = or_next-zero (cmp3 a b)

cmp3_self : (a : ℕ) → cmp3 a a ≡ pos 0
unfolding cmp3
cmp3_self a = ground arith

or_next-cmp3_ne : (a b : ℕ) (z : ℤ) → a ≢ b → or_next (cmp3 a b) z ≡ cmp3 a b
unfolding cmp3 or_next
or_next-cmp3_ne a b z ne = ground arith

char_rank-ne : (a b : ℕ) → a < 256 → b < 256 → a ≢ b → char_rank a ≢ char_rank b
unfolding char_rank
char_rank-ne a b p q ne = ground arith

-- One round of the loop over two strings.
string_step :
    (a b : ℕ) (xs ys : List ℕ)
    → a < 256
    → b < 256
    → (if not (a == 0) && not (b == 0) && a == b
        then lex xs ys
        else cmp3 (char_rank a) (char_rank b))
      ≡ or_next
          (cmp3 (char_rank a) (char_rank b))
          (lex (if a == 0 then [] else xs) (if b == 0 then [] else ys))
string_step a b xs ys p q = elim (ℕ_discrete a b) [
  | yes e ↦ rw (e, cmp3_self (char_rank b)) (unfold or_next lex in (ground arith))
  | no ne ↦ rw (or_next-cmp3_ne _ _ _ (char_rank-ne a b p q ne)) (ground arith)
]

load_u8-lt : (m : Bytes) (p : ℕ) → load_u8 m p < 256
unfolding load_u8
load_u8-lt m p = omega arith

sort_string-lex :
    (k : ℕ) (m₁ m₂ : Bytes) (p : ℕ)
    → sort_string k m₁ m₂ p ≡ lex (string_value k m₁ p) (string_value k m₂ p)
unfolding sort_string string_value lex or_next
sort_string-lex zero m₁ m₂ p = refl
sort_string-lex (suc k) m₁ m₂ p =
    rw (sort_string-lex k m₁ m₂ (p + 1)) (string_step _ _ _ _ (load_u8-lt m₁ p) (load_u8-lt m₂ p))

sort_by_type-lex :
    (t : FieldType) (nr : ℕ) (m₁ m₂ : Bytes) (p : ℕ)
    → sort_by_type t nr m₁ m₂ p ≡ lex (type_value t nr m₁ p) (type_value t nr m₂ p)
unfolding sort_by_type type_value
sort_by_type-lex type_u8 nr m₁ m₂ p = cmp3-lex _ _
sort_by_type-lex type_bool_u8 nr m₁ m₂ p = cmp3-lex _ _
sort_by_type-lex type_u16 nr m₁ m₂ p = cmp3-lex _ _
sort_by_type-lex type_bool_u16 nr m₁ m₂ p = cmp3-lex _ _
sort_by_type-lex type_u32 nr m₁ m₂ p = cmp3-lex _ _
sort_by_type-lex type_bool_u32 nr m₁ m₂ p = cmp3-lex _ _
sort_by_type-lex type_u64 nr m₁ m₂ p = cmp3-lex _ _
sort_by_type-lex type_string nr m₁ m₂ p = sort_string-lex string_len m₁ m₂ p
sort_by_type-lex type_bit_u8 nr m₁ m₂ p = elim (Bool-cases (ltb nr 8)) [
  | inl e ↦ rw e (cmp3-lex _ _)
  | inr e ↦ rw e (cmp3-lex _ _)
]
sort_by_type-lex _ nr m₁ m₂ p = unfold lex in refl

sort_address-lex :
    (family : ℕ) (m₁ m₂ : Bytes) (a : ℕ)
    → sort_address family m₁ m₂ a ≡ lex (address_value family m₁ a) (address_value family m₂ a)
unfolding sort_address address_value lex
sort_address-lex family m₁ m₂ a = elim (Bool-cases (family == af_inet)) [
  | inl e ↦ rw e (or_next-zero _)
  | inr e ↦
      rw (e, ← or_next-zero (cmp3 (ntohl (load_u32 m₁ (a + 12))) (ntohl (load_u32 m₂ (a + 12)))))
]

-- The connections that a function can compare: for an address, those of one family.
abbrev pub IsOfFamily : Abi → SortFunc → ℕ → ℕ → Bytes → Type 0
IsOfFamily abi sort_src family p m = load_u8 m (p + abi.idiag_family) ≡ family
IsOfFamily abi sort_dst family p m = load_u8 m (p + abi.idiag_family) ≡ family
IsOfFamily abi _ family p m = Unit

-- Every comparison function is the lexicographic comparison of a list of numbers that the
-- connection has under the field; for an address, on connections of one family.
pub sort_func-lex :
    (abi : Abi) (s : SortFunc) (f : Field) (family p : ℕ) (m₁ m₂ : Bytes)
    → IsOfFamily abi s family p m₁
    → IsOfFamily abi s family p m₂
    → sort_func abi s f m₁ m₂ p ≡ lex (sort_value abi s f m₁ p) (sort_value abi s f m₂ p)
unfolding sort_func sort_value
sort_func-lex abi sort_common f family p m₁ m₂ h k = sort_by_type-lex f.type f.type_nr m₁ m₂ p
sort_func-lex abi sort_src f family p m₁ m₂ h k =
    rw (h, k) (sort_address-lex family m₁ m₂ (p + abi.idiag_src))
sort_func-lex abi sort_dst f family p m₁ m₂ h k =
    rw (h, k) (sort_address-lex family m₁ m₂ (p + abi.idiag_dst))
sort_func-lex abi _ f family p m₁ m₂ h k = cmp3-lex _ _
