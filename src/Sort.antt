-- ===== src/Sort.antt =====
-- src/draw.c: the comparison functions that `tcp_fields` names. A result of type `int` is an
-- integer. The two connections are compared at one offset, `f->offset`.
pub mod Order
pub mod Laws
use sockmon.Base.{
  ℕ, zero, suc, ◌+◌, ◌-◌, ◌*◌, ◌^◌, Bool, true, false, not, ◌||◌, ◌&&◌, ltb, ◌==◌, if◌then◌else◌, ℤ,
  pos, negsuc,
}
use sockmon.Conn.{af_inet, Bytes, load_u8, load_u16, load_u32, load_u64, bits, ntohs, ntohl}
use sockmon.Field.{
  FieldType, type_u8, type_u16, type_u32, type_u64, type_string, type_bool_u8, type_bool_u16,
  type_bool_u32, type_bit_u8, Field, SortFunc, sort_src, sort_port, sort_dst, sort_common,
  sort_snd_wscale, sort_rcv_wscale, sort_delivery_rate_app_limited, sort_fastopen_client_fail,
  sort_ecn_mode, sort_accecn_opt_seen, sort_accecn_fail_mode, sort_bbr_bw,
  sort_bind_address_no_port, sort_recverr_rfc4884, sort_defer_connect,
}
use sockmon.Field.Table.Layout.{Abi}

-- `(a < b) ? -1 : (a > b)`
unfoldable pub cmp3 : ℕ → ℕ → ℤ
cmp3 a b = if ltb a b then negsuc 0 else (if ltb b a then pos 1 else pos 0)

-- The type `char` is signed: the order of two such bytes is that of their values moved up by 128.
unfoldable pub char_rank : ℕ → ℕ
char_rank c = if ltb c 128 then c + 128 else c - 128

-- The bytes read of a string field, its terminating NUL included: both string members are arrays of
-- 16 bytes that hold a NUL.
abbrev pub string_len : ℕ
string_len = 16

-- The loop over two strings, on the number of bytes that may still be read.
unfoldable pub sort_string : ℕ → Bytes → Bytes → ℕ → ℤ
unfolding cmp3 char_rank load_u8
sort_string zero m₁ m₂ p = pos 0
sort_string (suc k) m₁ m₂ p =
    let rest = sort_string k m₁ m₂ (p + 1) in
    let c₁ = load_u8 m₁ p in
    let c₂ = load_u8 m₂ p in
    if not (c₁ == 0) && not (c₂ == 0) && c₁ == c₂ then rest else cmp3 (char_rank c₁) (char_rank c₂)

-- `sort_common`; a bit number above 7 leaves both values 0.
unfoldable pub sort_by_type : FieldType → ℕ → Bytes → Bytes → ℕ → ℤ
unfolding cmp3 sort_string load_u8 load_u16 load_u32 load_u64
sort_by_type type_u8 nr m₁ m₂ p = cmp3 (load_u8 m₁ p) (load_u8 m₂ p)
sort_by_type type_bool_u8 nr m₁ m₂ p = cmp3 (load_u8 m₁ p) (load_u8 m₂ p)
sort_by_type type_u16 nr m₁ m₂ p = cmp3 (load_u16 m₁ p) (load_u16 m₂ p)
sort_by_type type_bool_u16 nr m₁ m₂ p = cmp3 (load_u16 m₁ p) (load_u16 m₂ p)
sort_by_type type_u32 nr m₁ m₂ p = cmp3 (load_u32 m₁ p) (load_u32 m₂ p)
sort_by_type type_bool_u32 nr m₁ m₂ p = cmp3 (load_u32 m₁ p) (load_u32 m₂ p)
sort_by_type type_u64 nr m₁ m₂ p = cmp3 (load_u64 m₁ p) (load_u64 m₂ p)
sort_by_type type_string nr m₁ m₂ p = sort_string string_len m₁ m₂ p
sort_by_type type_bit_u8 nr m₁ m₂ p =
    if ltb nr 8 then cmp3 (bits nr 1 (load_u8 m₁ p)) (bits nr 1 (load_u8 m₂ p)) else cmp3 0 0
sort_by_type _ nr m₁ m₂ p = pos 0

-- `ret` where it is not 0, else what comes next.
unfoldable pub or_next : ℤ → ℤ → ℤ
or_next (pos zero) next = next
or_next ret next = ret

-- The first word decides, and for an address of IPv6 the three words after it.
unfoldable pub sort_address : ℕ → Bytes → Bytes → ℕ → ℤ
unfolding cmp3 or_next load_u32 ntohl
sort_address family m₁ m₂ a =
    let word = λ (i : ℕ). cmp3 (ntohl (load_u32 m₁ (a + i))) (ntohl (load_u32 m₂ (a + i))) in
    if family == af_inet
    then word 0
    else or_next (word 0) (or_next (word 4) (or_next (word 8) (word 12)))

-- The two words of BBR's bandwidth.
unfoldable pub bbr_bw : Bytes → ℕ → ℕ
unfolding load_u32
bbr_bw m p = load_u32 m (p + 4) * 2 ^ 32 + load_u32 m p

module _ (abi : Abi) where
  open abi use {idiag_family, idiag_src, idiag_dst}

  -- The call through `sort_func`.
  unfoldable pub sort_func : SortFunc → Field → Bytes → Bytes → ℕ → ℤ
  unfolding sort_by_type sort_address bbr_bw cmp3 ntohs load_u8 load_u16 load_u32
  sort_func sort_common f m₁ m₂ p = sort_by_type f.type f.type_nr m₁ m₂ p
  sort_func sort_src f m₁ m₂ p = sort_address (load_u8 m₁ (p + idiag_family)) m₁ m₂ (p + idiag_src)
  sort_func sort_dst f m₁ m₂ p = sort_address (load_u8 m₁ (p + idiag_family)) m₁ m₂ (p + idiag_dst)
  sort_func sort_port f m₁ m₂ p = cmp3 (ntohs (load_u16 m₁ p)) (ntohs (load_u16 m₂ p))
  sort_func sort_snd_wscale f m₁ m₂ p = cmp3 (bits 0 4 (load_u8 m₁ p)) (bits 0 4 (load_u8 m₂ p))
  sort_func sort_rcv_wscale f m₁ m₂ p = cmp3 (bits 4 4 (load_u8 m₁ p)) (bits 4 4 (load_u8 m₂ p))
  sort_func sort_delivery_rate_app_limited f m₁ m₂ p =
      cmp3 (bits 0 1 (load_u8 m₁ p)) (bits 0 1 (load_u8 m₂ p))
  sort_func sort_fastopen_client_fail f m₁ m₂ p =
      cmp3 (bits 1 2 (load_u8 m₁ p)) (bits 1 2 (load_u8 m₂ p))
  sort_func sort_ecn_mode f m₁ m₂ p = cmp3 (bits 0 2 (load_u32 m₁ p)) (bits 0 2 (load_u32 m₂ p))
  sort_func sort_accecn_opt_seen f m₁ m₂ p =
      cmp3 (bits 2 2 (load_u32 m₁ p)) (bits 2 2 (load_u32 m₂ p))
  sort_func sort_accecn_fail_mode f m₁ m₂ p =
      cmp3 (bits 4 4 (load_u32 m₁ p)) (bits 4 4 (load_u32 m₂ p))
  sort_func sort_bbr_bw f m₁ m₂ p = cmp3 (bbr_bw m₁ p) (bbr_bw m₂ p)
  sort_func sort_bind_address_no_port f m₁ m₂ p =
      cmp3 (bits 0 1 (load_u32 m₁ p)) (bits 0 1 (load_u32 m₂ p))
  sort_func sort_recverr_rfc4884 f m₁ m₂ p =
      cmp3 (bits 1 1 (load_u32 m₁ p)) (bits 1 1 (load_u32 m₂ p))
  sort_func sort_defer_connect f m₁ m₂ p =
      cmp3 (bits 2 1 (load_u32 m₁ p)) (bits 2 1 (load_u32 m₂ p))
