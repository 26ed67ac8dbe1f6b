-- ===== src/Field.antt =====
-- src/draw.h and src/draw.c: `struct field`, `struct filter` and the constants that a field names.
-- A function pointer is a value that names the function, `none` for NULL. The low byte of
-- `type` and its other bits are two members, and the members of the union in `struct filter` stand
-- side by side: each field's functions read and write one of them.
pub mod Table
use Prim.Native.Nat.{bit_and, bit_or}
use Prim.Native.String.{String}
use sockmon.Base.{ℕ, ◌+◌, ◌-◌, ◌*◌, ◌%◌, ◌^◌, Bool, false, not, Option, none, some, List, ◌==◌}
use sockmon.Base.Bits.{test_bit}

-- The attributes of linux/inet_diag.h.
abbrev pub inet_diag_none : ℕ
inet_diag_none = 0

abbrev pub inet_diag_meminfo : ℕ
inet_diag_meminfo = 1

abbrev pub inet_diag_info : ℕ
inet_diag_info = 2

abbrev pub inet_diag_vegasinfo : ℕ
inet_diag_vegasinfo = 3

abbrev pub inet_diag_cong : ℕ
inet_diag_cong = 4

abbrev pub inet_diag_tos : ℕ
inet_diag_tos = 5

abbrev pub inet_diag_tclass : ℕ
inet_diag_tclass = 6

abbrev pub inet_diag_skmeminfo : ℕ
inet_diag_skmeminfo = 7

abbrev pub inet_diag_shutdown : ℕ
inet_diag_shutdown = 8

abbrev pub inet_diag_dctcpinfo : ℕ
inet_diag_dctcpinfo = 9

abbrev pub inet_diag_skv6only : ℕ
inet_diag_skv6only = 11

abbrev pub inet_diag_bbrinfo : ℕ
inet_diag_bbrinfo = 16

abbrev pub inet_diag_class_id : ℕ
inet_diag_class_id = 17

abbrev pub inet_diag_cgroup_id : ℕ
inet_diag_cgroup_id = 21

abbrev pub inet_diag_sockopt : ℕ
inet_diag_sockopt = 22

-- __INET_DIAG_MAX, and the two numbers that draw.h adds behind it.
abbrev pub inet_diag_max : ℕ
inet_diag_max = 23

abbrev pub inet_diag_address : ℕ
inet_diag_address = inet_diag_max + 0

abbrev pub inet_diag_proc : ℕ
inet_diag_proc = inet_diag_max + 1

-- `*ext |= 1 << (flag - 1)`
unfoldable pub ext_set : ℕ → ℕ → ℕ
ext_set ext flag = bit_or ext (2 ^ (flag - 1))

-- `ext & (1 << (flag - 1))`, as a truth value.
unfoldable pub ext_is_set : ℕ → ℕ → Bool
ext_is_set ext flag = not (bit_and ext (2 ^ (flag - 1)) == 0)

-- `ext & (1U << flag)`, as a truth value.
unfoldable pub has_ext : ℕ → ℕ → Bool
has_ext ext flag = not (bit_and ext (2 ^ flag) == 0)

pub data FieldType : Type 0 where
  type_s8 type_u8 type_s16 type_u16 type_u16_port type_s32 type_u32 type_s64 type_u64 : FieldType
  type_address type_string type_bool_u8 type_bool_u16 type_bool_u32 type_bit_u8 : FieldType
  type_other : FieldType

pub data DrawRow : Type 0 where
  dr_src dr_port dr_dst dr_state dr_common dr_timer dr_shutdown dr_ca_state : DrawRow
  dr_options dr_snd_wscale dr_rcv_wscale dr_delivery_rate_app_limited : DrawRow
  dr_fastopen_client_fail dr_ecn_mode dr_accecn_opt_seen dr_accecn_fail_mode : DrawRow
  dr_bbr_bw dr_bind_address_no_port dr_recverr_rfc4884 dr_defer_connect : DrawRow

pub data SortFunc : Type 0 where
  sort_src sort_port sort_dst sort_common sort_snd_wscale sort_rcv_wscale : SortFunc
  sort_delivery_rate_app_limited sort_fastopen_client_fail sort_ecn_mode : SortFunc
  sort_accecn_opt_seen sort_accecn_fail_mode sort_bbr_bw sort_bind_address_no_port : SortFunc
  sort_recverr_rfc4884 sort_defer_connect : SortFunc

pub data FilterParse : Type 0 where
  fp_addr fp_common fp_state fp_timer fp_shutdown fp_bool fp_ca_state fp_options : FilterParse
  fp_fastopen_client_fail fp_ecn_mode fp_accecn_opt_seen fp_accecn_fail_mode : FilterParse

pub data FilterApply : Type 0 where
  fa_src fa_common fa_dst fa_str_common fa_string fa_options fa_snd_wscale : FilterApply
  fa_rcv_wscale fa_delivery_rate_app_limited fa_fastopen_client_fail fa_ecn_mode : FilterApply
  fa_accecn_opt_seen fa_accecn_fail_mode fa_vegas_enabled fa_dctcp_enabled : FilterApply
  fa_bbr_bw fa_bind_address_no_port fa_recverr_rfc4884 fa_defer_connect : FilterApply

pub data CmpOp : Type 0 where
  op_eq op_ne op_gt op_ge op_lt op_le op_ct op_nc op_other : CmpOp

pub record Filter : Type 0 where
  pub op : CmpOp
  pub v : ℕ
  pub selected : ℕ
  pub addr : List ℕ
  pub mask : List ℕ
  pub family : ℕ
  pub s : List ℕ

pub record Field : Type 0 where
  pub header : String
  pub desc : String
  pub enabled : Bool
  pub pinned : Bool
  pub filter_on : Bool
  pub ext_req : ℕ
  pub ext_rcv : ℕ
  pub width : ℕ
  pub type : FieldType
  pub type_nr : ℕ
  pub offset : ℕ
  pub draw_row : Option DrawRow
  pub sort_func : Option SortFunc
  pub filter_parse : Option FilterParse
  pub filter_apply : Option FilterApply
  pub filter : Option Filter
