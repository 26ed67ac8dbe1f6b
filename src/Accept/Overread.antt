-- ===== src/Accept/Overread.antt =====
-- src/draw.c: `fa_vegas_enabled` and `fa_dctcp_enabled`, under the entries of `tcp_fields` that name
-- them.
use sockmon.Base.{ℕ, ◌≡◌, refl, false, Option, some, get_elem?, fault, out_of_bounds}
use sockmon.Accept.{filter_apply, read_bytes, apply_choice}
use sockmon.Conn.{Bytes}
use sockmon.Field.{
  Field, Filter, FilterApply, fa_vegas_enabled, fa_dctcp_enabled, inet_diag_vegasinfo,
  inet_diag_dctcpinfo, type_bool_u16, type_bool_u32, dr_common, sort_common, fp_bool,
}
use sockmon.Field.Table.{tcp_fields}
use sockmon.Field.Table.Layout.{Abi, define_field, cc_info_tcpv_enabled, cc_info_dctcp_enabled}

-- The table names the function in an entry, and there it reads beyond its local variable.
pub record Overreads (abi : Abi) (a : FilterApply) (flt : Option Filter) (m : Bytes) : Type 0 where
  pub index : ℕ
  pub entry : Field
  pub is_entry : get_elem? (tcp_fields abi) index ≡ some entry
  pub is_named : entry.filter_apply ≡ some a
  pub reads :
      filter_apply abi a (record entry { filter = flt }) m entry.offset ≡ fault out_of_bounds

abbrev vegas : Abi → Field
vegas abi =
    define_field "enabled" "" false inet_diag_vegasinfo inet_diag_vegasinfo 7 type_bool_u32 0
      (abi.offsetof cc_info_tcpv_enabled) (some dr_common) (some sort_common) (some fp_bool)
      (some fa_vegas_enabled)

abbrev dctcp : Abi → Field
dctcp abi =
    define_field "enabled" "" false inet_diag_vegasinfo inet_diag_dctcpinfo 7 type_bool_u16 0
      (abi.offsetof cc_info_dctcp_enabled) (some dr_common) (some sort_common) (some fp_bool)
      (some fa_dctcp_enabled)

-- tcp_fields names fa_vegas_enabled and fa_dctcp_enabled in entries of a wider type, under which
-- they read beyond the one byte of their local variable, whatever the filter and the connection.
pub bool_filters-Overreads :
    (abi : Abi) (flt : Option Filter) (m : Bytes)
    → Overreads abi fa_vegas_enabled flt m × Overreads abi fa_dctcp_enabled flt m
unfolding tcp_fields filter_apply apply_choice read_bytes
bool_filters-Overreads abi flt m = (
  record { index = 102; entry = vegas abi; is_entry = refl; is_named = refl; reads = refl },
  record { index = 107; entry = dctcp abi; is_entry = refl; is_named = refl; reads = refl },
)
