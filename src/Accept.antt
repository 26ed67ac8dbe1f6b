-- ===== src/Accept.antt =====
-- src/draw.c: the functions that `tcp_fields` names in `filter_apply`. They read a member of the
-- connection, or a local variable whose size bounds what may be read through its address.
pub mod Numbers
pub mod Values
pub mod Overread
use Prim.Native.Nat.{bit_and}
use sockmon.Base.{
  ℕ, zero, suc, ◌+◌, ◌*◌, ◌%◌, ◌^◌, Bool, true, false, not, Option, none, some, List, [], ◌∷◌, ltb,
  leb, ◌==◌, if◌then◌else◌, Run, ok, fault, null_pointer, bad_shift, out_of_bounds, ◌>>=◌,
}
use sockmon.Conn.{af_inet, Bytes, Conn, load_u8, load_u16, load_u32, load_u64, bits, ntohs}
use sockmon.Field.{
  FieldType, type_u8, type_u16, type_u16_port, type_u32, type_u64, type_bool_u8, type_bool_u16,
  type_bool_u32, type_bit_u8, CmpOp, op_eq, op_ne, op_gt, op_ge, op_lt, op_le, op_ct, op_nc, Filter,
  Field, FilterApply, fa_src, fa_common, fa_dst, fa_str_common, fa_string, fa_options,
  fa_snd_wscale, fa_rcv_wscale, fa_delivery_rate_app_limited, fa_fastopen_client_fail, fa_ecn_mode,
  fa_accecn_opt_seen, fa_accecn_fail_mode, fa_vegas_enabled, fa_dctcp_enabled, fa_bbr_bw,
  fa_bind_address_no_port, fa_recverr_rfc4884, fa_defer_connect,
}
use sockmon.Field.Table.Layout.{Abi}
use sockmon.Sort.{string_len, bbr_bw}
use sockmon.Text.{same_text, contains_text}

-- What a pointer leads to: bytes of the connection, or a local variable of `size` bytes.
pub data Place : Type 0 where
  inside : Bytes → ℕ → Place
  local : (size value : ℕ) → Place

-- A read of `k` bytes.
unfoldable pub read_bytes : ℕ → (Bytes → ℕ → ℕ) → Place → Run ℕ
read_bytes k load (inside m p) = ok (load m p)
read_bytes k load (local size v) = if leb k size then ok (v % 256 ^ k) else fault out_of_bounds

abbrev pub read_u8 : Place → Run ℕ
read_u8 = read_bytes 1 load_u8

abbrev pub read_u16 : Place → Run ℕ
read_u16 = read_bytes 2 load_u16

abbrev pub read_u32 : Place → Run ℕ
read_u32 = read_bytes 4 load_u32

abbrev pub read_u64 : Place → Run ℕ
read_u64 = read_bytes 8 load_u64

-- The macro TYPE_OP.
unfoldable pub type_op : CmpOp → ℕ → ℕ → Bool
type_op op_eq d v = d == v
type_op op_ne d v = not (d == v)
type_op op_gt d v = ltb v d
type_op op_ge d v = leb v d
type_op op_lt d v = ltb d v
type_op op_le d v = leb d v
type_op _ d v = false

abbrev pub compare_with : Option Filter → ℕ → Run Bool
compare_with none d = fault null_pointer
compare_with (some flt) d = ok (type_op flt.op d flt.v)

-- `fa_common`, on the type and the filter of the field.
unfoldable pub apply_common : FieldType → Option Filter → Place → Run Bool
unfolding read_bytes type_op
apply_common type_u8 flt p = read_u8 p >>= compare_with flt
apply_common type_u16 flt p = read_u16 p >>= compare_with flt
apply_common type_u16_port flt p = read_u16 p >>= λ d. compare_with flt (ntohs d)
apply_common type_u32 flt p = read_u32 p >>= compare_with flt
apply_common type_u64 flt p = read_u64 p >>= compare_with flt
apply_common _ flt p = ok false

-- `f->filter->selected & (1U << v)`
unfoldable pub choose : Option Filter → ℕ → Run Bool
choose none v = fault null_pointer
choose (some flt) v =
    if ltb v 32 then ok (not (bit_and flt.selected (2 ^ v) == 0)) else fault bad_shift

-- `fa_str_common`. A bit number above 7 leaves the value 0.
unfoldable pub apply_choice : FieldType → ℕ → Option Filter → Place → Run Bool
unfolding read_bytes choose
apply_choice type_u8 nr flt p = read_u8 p >>= choose flt
apply_choice type_bool_u8 nr flt p = read_u8 p >>= choose flt
apply_choice type_u16 nr flt p = read_u16 p >>= choose flt
apply_choice type_bool_u16 nr flt p = read_u16 p >>= choose flt
apply_choice type_u32 nr flt p = read_u32 p >>= choose flt
apply_choice type_bool_u32 nr flt p = read_u32 p >>= choose flt
apply_choice type_bit_u8 nr flt p =
    read_u8 p >>= λ d. choose flt (if ltb nr 8 then bits nr 1 d else 0)
apply_choice _ nr flt p = ok false

-- `f->filter->selected == v`
abbrev pub equals_selected : Option Filter → ℕ → Run Bool
equals_selected none v = fault null_pointer
equals_selected (some flt) v = ok (flt.selected == v)

-- The string in memory, up to its NUL.
unfoldable pub c_string : ℕ → Bytes → ℕ → List ℕ
unfolding load_u8
c_string zero m p = []
c_string (suc k) m p =
    let rest = c_string k m (p + 1) in if load_u8 m p == 0 then [] else load_u8 m p ∷ rest

unfoldable pub match_text : CmpOp → List ℕ → List ℕ → Bool
unfolding same_text contains_text
match_text op_eq s t = same_text s t
match_text op_ct s t = contains_text s t
match_text op_nc s t = not (contains_text s t)
match_text _ s t = false

unfoldable pub apply_string : Option Filter → Bytes → ℕ → Run Bool
unfolding c_string match_text
apply_string none m p = fault null_pointer
apply_string (some flt) m p = ok (match_text flt.op (c_string string_len m p) flt.s)

-- The loop of `fa_addr`, on the bytes left; `ret` is whether it ran to the end.
unfoldable pub masked_loop : ℕ → Bytes → ℕ → List ℕ → List ℕ → Run Bool
unfolding load_u8
masked_loop zero m p addr mask = ok true
masked_loop (suc k) m p (b ∷ addr) (w ∷ mask) =
    let rest = masked_loop k m (p + 1) addr mask in
    if bit_and (load_u8 m p) w == bit_and b w then rest else ok false
masked_loop (suc k) m p _ _ = fault out_of_bounds

abbrev pub is_ne : CmpOp → Bool
is_ne op_ne = true
is_ne _ = false

unfoldable pub apply_addr : Option Filter → ℕ → Bytes → ℕ → Run Bool
unfolding masked_loop
apply_addr none family m p = fault null_pointer
apply_addr (some flt) family m p = do
  same ←
      (if not (family == flt.family)
        then ok false
        else masked_loop (if family == af_inet then 4 else 16) m p flt.addr flt.mask)
  ok (if is_ne flt.op then not same else same)

module _ (abi : Abi) where
  open abi use {idiag_family, idiag_src, idiag_dst}

  -- The call through `filter_apply`, on `p` in the connection's bytes.
  unfoldable pub filter_apply : FilterApply → Field → Bytes → ℕ → Run Bool
  unfolding apply_common apply_choice apply_string apply_addr bbr_bw load_u8 load_u16 load_u32
  filter_apply fa_common f m p = apply_common f.type f.filter (inside m p)
  filter_apply fa_str_common f m p = apply_choice f.type f.type_nr f.filter (inside m p)
  filter_apply fa_string f m p = apply_string f.filter m p
  filter_apply fa_options f m p = equals_selected f.filter (load_u8 m p)
  filter_apply fa_snd_wscale f m p = apply_common f.type f.filter (local 1 (bits 0 4 (load_u8 m p)))
  filter_apply fa_rcv_wscale f m p = apply_common f.type f.filter (local 1 (bits 4 4 (load_u8 m p)))
  filter_apply fa_delivery_rate_app_limited f m p =
      apply_choice f.type f.type_nr f.filter (local 1 (bits 0 1 (load_u8 m p)))
  filter_apply fa_fastopen_client_fail f m p =
      apply_choice f.type f.type_nr f.filter (local 1 (bits 1 2 (load_u8 m p)))
  filter_apply fa_ecn_mode f m p =
      apply_choice f.type f.type_nr f.filter (local 1 (bits 0 2 (load_u32 m p)))
  filter_apply fa_accecn_opt_seen f m p =
      apply_choice f.type f.type_nr f.filter (local 1 (bits 2 2 (load_u32 m p)))
  filter_apply fa_accecn_fail_mode f m p = equals_selected f.filter (bits 4 4 (load_u32 m p))
  filter_apply fa_vegas_enabled f m p =
      apply_choice f.type f.type_nr f.filter (local 1 (load_u32 m p % 256))
  filter_apply fa_dctcp_enabled f m p =
      apply_choice f.type f.type_nr f.filter (local 1 (load_u16 m p % 256))
  filter_apply fa_bbr_bw f m p = apply_common f.type f.filter (local 8 (bbr_bw m p))
  filter_apply fa_bind_address_no_port f m p =
      apply_choice f.type f.type_nr f.filter (local 1 (bits 0 1 (load_u8 m p)))
  filter_apply fa_recverr_rfc4884 f m p =
      apply_choice f.type f.type_nr f.filter (local 1 (bits 1 1 (load_u8 m p)))
  filter_apply fa_defer_connect f m p =
      apply_choice f.type f.type_nr f.filter (local 1 (bits 2 1 (load_u8 m p)))
  filter_apply fa_src f m p = apply_addr f.filter (load_u8 m (p + idiag_family)) m (p + idiag_src)
  filter_apply fa_dst f m p = apply_addr f.filter (load_u8 m (p + idiag_family)) m (p + idiag_dst)
