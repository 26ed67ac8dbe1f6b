-- ===== src/Accept/Numbers.antt =====
-- src/draw.c: the number that a filter reads, and the comparison function beside it.
use sockmon.Base.{
  ℕ, ◌%◌, ◌^◌, ◌<◌, ◌≡◌, refl, ap, arith, Bool, true, false, Option, List, [], ◌∷◌, ltb,
  if◌then◌else◌, Run,
}
use sockmon.Accept.{
  inside, local, read_bytes, compare_with, choose, equals_selected, apply_common, apply_choice,
}
use sockmon.Conn.{Bytes, load_u8, load_u16, load_u32, load_u64, bits, ntohs}
use sockmon.Field.{
  FieldType, type_u8, type_u16, type_u16_port, type_u32, type_u64, type_bool_u8, type_bool_u16,
  type_bool_u32, type_bit_u8, Filter, Field, FilterApply, fa_src, fa_common, fa_dst, fa_str_common,
  fa_string, fa_options, fa_snd_wscale, fa_rcv_wscale, fa_delivery_rate_app_limited,
  fa_fastopen_client_fail, fa_ecn_mode, fa_accecn_opt_seen, fa_accecn_fail_mode, fa_vegas_enabled,
  fa_dctcp_enabled, fa_bbr_bw, fa_bind_address_no_port, fa_recverr_rfc4884, fa_defer_connect,
  SortFunc, sort_src, sort_port, sort_dst, sort_common, sort_snd_wscale, sort_rcv_wscale,
  sort_delivery_rate_app_limited, sort_fastopen_client_fail, sort_ecn_mode, sort_accecn_opt_seen,
  sort_accecn_fail_mode, sort_bbr_bw, sort_bind_address_no_port, sort_recverr_rfc4884,
  sort_defer_connect,
}
use sockmon.Field.Table.Layout.{Abi}
use sockmon.Sort.{bbr_bw}
use sockmon.Sort.Laws.{type_value, sort_value}

-- The comparison function that goes with a filter.
unfoldable pub partner : FilterApply → FieldType → SortFunc
partner fa_common type_u16_port = sort_port
partner fa_common _ = sort_common
partner fa_str_common t = sort_common
partner fa_string t = sort_common
partner fa_options t = sort_common
partner fa_snd_wscale t = sort_snd_wscale
partner fa_rcv_wscale t = sort_rcv_wscale
partner fa_delivery_rate_app_limited t = sort_delivery_rate_app_limited
partner fa_fastopen_client_fail t = sort_fastopen_client_fail
partner fa_ecn_mode t = sort_ecn_mode
partner fa_accecn_opt_seen t = sort_accecn_opt_seen
partner fa_accecn_fail_mode t = sort_accecn_fail_mode
partner fa_vegas_enabled t = sort_common
partner fa_dctcp_enabled t = sort_common
partner fa_bbr_bw t = sort_bbr_bw
partner fa_bind_address_no_port t = sort_bind_address_no_port
partner fa_recverr_rfc4884 t = sort_recverr_rfc4884
partner fa_defer_connect t = sort_defer_connect
partner fa_src t = sort_src
partner fa_dst t = sort_dst

unfoldable pub is_number : FieldType → Bool
is_number type_u8 = true
is_number type_u16 = true
is_number type_u16_port = true
is_number type_u32 = true
is_number type_u64 = true
is_number _ = false

unfoldable pub is_choice : FieldType → Bool
is_choice type_u8 = true
is_choice type_bool_u8 = true
is_choice type_u16 = true
is_choice type_bool_u16 = true
is_choice type_u32 = true
is_choice type_bool_u32 = true
is_choice type_bit_u8 = true
is_choice _ = false

abbrev pub is_u8 : FieldType → Bool
is_u8 type_u8 = true
is_u8 _ = false

abbrev pub is_u64 : FieldType → Bool
is_u64 type_u64 = true
is_u64 _ = false

-- The filters on one number, each with the types under which it reads that number whole.
unfoldable pub reads_number : FilterApply → FieldType → Bool
unfolding is_number is_choice
reads_number fa_common t = is_number t
reads_number fa_str_common t = is_choice t
reads_number fa_options t = is_u8 t
reads_number fa_accecn_fail_mode t = true
reads_number fa_bbr_bw t = is_u64 t
reads_number fa_string t = false
reads_number fa_src t = false
reads_number fa_dst t = false
reads_number fa_vegas_enabled t = false
reads_number fa_dctcp_enabled t = false
reads_number _ t = is_u8 t

-- What the filter says of the number.
unfoldable pub by_number : FilterApply → Option Filter → ℕ → Run Bool
unfolding choose
by_number fa_common flt k = compare_with flt k
by_number fa_snd_wscale flt k = compare_with flt k
by_number fa_rcv_wscale flt k = compare_with flt k
by_number fa_bbr_bw flt k = compare_with flt k
by_number fa_options flt k = equals_selected flt k
by_number fa_accecn_fail_mode flt k = equals_selected flt k
by_number _ flt k = choose flt k

-- The number by which a column under `fa_common` is sorted.
unfoldable pub number_of : FieldType → ℕ → Bytes → ℕ → List ℕ
number_of type_u16_port nr m p = ntohs (load_u16 m p) ∷ []
number_of t nr m p = type_value t nr m p

pub common_partner :
    (abi : Abi) (f : Field) (m : Bytes) (p : ℕ) (t : FieldType)
    → f.type ≡ t
    → sort_value abi (partner fa_common t) f m p ≡ number_of t f.type_nr m p
unfolding sort_value partner number_of
common_partner abi f m p type_u16_port e = refl
common_partner abi f m p _ e = ap (λ t. type_value t f.type_nr m p) e

abbrev pub Reads : List ℕ → Run Bool → (ℕ → Run Bool) → Type 0
Reads value run says = (k : ℕ) × (value ≡ k ∷ []) × (run ≡ says k)

pub common-Reads :
    (t : FieldType) (nr : ℕ) (flt : Option Filter) (m : Bytes) (p : ℕ)
    → is_number t ≡ true
    → Reads (number_of t nr m p) (apply_common t flt (inside m p)) (compare_with flt)
unfolding is_number number_of apply_common type_value read_bytes
common-Reads type_u8 nr flt m p h = (load_u8 m p, refl, refl)
common-Reads type_u16 nr flt m p h = (load_u16 m p, refl, refl)
common-Reads type_u16_port nr flt m p h = (ntohs (load_u16 m p), refl, refl)
common-Reads type_u32 nr flt m p h = (load_u32 m p, refl, refl)
common-Reads type_u64 nr flt m p h = (load_u64 m p, refl, refl)
common-Reads _ nr flt m p h = cc

pub choice-Reads :
    (t : FieldType) (nr : ℕ) (flt : Option Filter) (m : Bytes) (p : ℕ)
    → is_choice t ≡ true
    → Reads (type_value t nr m p) (apply_choice t nr flt (inside m p)) (choose flt)
unfolding is_choice apply_choice type_value read_bytes
choice-Reads type_u8 nr flt m p h = (load_u8 m p, refl, refl)
choice-Reads type_bool_u8 nr flt m p h = (load_u8 m p, refl, refl)
choice-Reads type_u16 nr flt m p h = (load_u16 m p, refl, refl)
choice-Reads type_bool_u16 nr flt m p h = (load_u16 m p, refl, refl)
choice-Reads type_u32 nr flt m p h = (load_u32 m p, refl, refl)
choice-Reads type_bool_u32 nr flt m p h = (load_u32 m p, refl, refl)
choice-Reads type_bit_u8 nr flt m p h =
    ((if ltb nr 8 then bits nr 1 (load_u8 m p) else 0), refl, refl)
choice-Reads _ nr flt m p h = cc

-- A byte in a local variable.
pub byte_choice :
    (t : FieldType) (nr : ℕ) (flt : Option Filter) (v : ℕ)
    → is_u8 t ≡ true
    → v < 256
    → apply_choice t nr flt (local 1 v) ≡ choose flt v
unfolding apply_choice read_bytes
byte_choice type_u8 nr flt v h b = ap (choose flt) (omega (arith, b))
byte_choice _ nr flt v h b = cc

pub byte_common :
    (t : FieldType) (flt : Option Filter) (v : ℕ)
    → is_u8 t ≡ true
    → v < 256
    → apply_common t flt (local 1 v) ≡ compare_with flt v
unfolding apply_common read_bytes
byte_common type_u8 flt v h b = ap (compare_with flt) (omega (arith, b))
byte_common _ flt v h b = cc

pub word_common :
    (t : FieldType) (flt : Option Filter) (v : ℕ)
    → is_u64 t ≡ true
    → v < 2 ^ 64
    → apply_common t flt (local 8 v) ≡ compare_with flt v
unfolding apply_common read_bytes
word_common type_u64 flt v h b = ap (compare_with flt) (omega (arith, b))
word_common _ flt v h b = cc

pub bbr_bw-lt : (m : Bytes) (p : ℕ) → bbr_bw m p < 2 ^ 64
unfolding bbr_bw load_u32 load_u16 load_u8
bbr_bw-lt m p = omega arith

pub low_bits : (m : Bytes) (p : ℕ) → load_u32 m p % 256 ≡ load_u8 m p
unfolding load_u32 load_u16 load_u8
low_bits m p = omega arith

pub options_value :
    (t : FieldType) (nr : ℕ) (m : Bytes) (p : ℕ)
    → is_u8 t ≡ true
    → type_value t nr m p ≡ load_u8 m p ∷ []
unfolding type_value
options_value type_u8 nr m p h = refl
options_value _ nr m p h = cc
