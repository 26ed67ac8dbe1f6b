-- ===== src/Field/Table/StateFields.antt =====
-- src/draw.c: the entries of `tcp_fields` from classid to rto.
use sockmon.Base.{◌+◌, false, none, some, List, [], ◌∷◌}
use sockmon.Field.{
  Field, dr_ca_state, dr_common, dr_delivery_rate_app_limited, dr_fastopen_client_fail, dr_options,
  dr_rcv_wscale, dr_snd_wscale, dr_state, fa_common, fa_delivery_rate_app_limited,
  fa_fastopen_client_fail, fa_options, fa_rcv_wscale, fa_snd_wscale, fa_str_common, fp_bool,
  fp_ca_state, fp_common, fp_fastopen_client_fail, fp_options, fp_state, inet_diag_cgroup_id,
  inet_diag_class_id, inet_diag_info, inet_diag_meminfo, sort_common,
  sort_delivery_rate_app_limited, sort_fastopen_client_fail, sort_rcv_wscale, sort_snd_wscale,
  type_other, type_u32, type_u64, type_u8,
}
use sockmon.Field.Table.Layout.{
  Abi, define_field, classid, cgroup_id, minfo_idiag_rmem, minfo_idiag_wmem, minfo_idiag_fmem,
  minfo_idiag_tmem, info_tcpi_state, info_tcpi_ca_state, info_tcpi_retransmits, info_tcpi_probes,
  info_tcpi_backoff, info_tcpi_options, info_tcpi_rto,
}

unfoldable pub state_fields : Abi → List Field
state_fields abi =
    (define_field "classid" "" false inet_diag_class_id inet_diag_class_id 7 type_u32 0
      (abi.offsetof classid) (some dr_common) (some sort_common) (some fp_common) (some fa_common))
    ∷ (define_field "cgroup_id" "" false inet_diag_cgroup_id inet_diag_cgroup_id 9 type_u64 0
        (abi.offsetof cgroup_id) (some dr_common) (some sort_common) (some fp_common)
        (some fa_common))
    ∷ (define_field "meminfo:" "" false inet_diag_meminfo inet_diag_meminfo 0 type_other 0 0 none
        none none none)
    ∷ (define_field "rmem" "" false inet_diag_meminfo inet_diag_meminfo 6 type_u32 0
        (abi.offsetof minfo_idiag_rmem) (some dr_common) (some sort_common) (some fp_common)
        (some fa_common))
    ∷ (define_field "wmem" "" false inet_diag_meminfo inet_diag_meminfo 6 type_u32 0
        (abi.offsetof minfo_idiag_wmem) (some dr_common) (some sort_common) (some fp_common)
        (some fa_common))
    ∷ (define_field "fmem" "" false inet_diag_meminfo inet_diag_meminfo 6 type_u32 0
        (abi.offsetof minfo_idiag_fmem) (some dr_common) (some sort_common) (some fp_common)
        (some fa_common))
    ∷ (define_field "tmem" "" false inet_diag_meminfo inet_diag_meminfo 6 type_u32 0
        (abi.offsetof minfo_idiag_tmem) (some dr_common) (some sort_common) (some fp_common)
        (some fa_common))
    ∷ (define_field "tcp_info:" "" false inet_diag_info inet_diag_info 0 type_other 0 0 none none
        none none)
    ∷ (define_field "state" "" false inet_diag_info inet_diag_info 11 type_u8 0
        (abi.offsetof info_tcpi_state) (some dr_state) (some sort_common) (some fp_state)
        (some fa_str_common))
    ∷ (define_field "ca_state" "" false inet_diag_info inet_diag_info 8 type_u8 0
        (abi.offsetof info_tcpi_ca_state) (some dr_ca_state) (some sort_common) (some fp_ca_state)
        (some fa_str_common))
    ∷ (define_field "retransmits" "" false inet_diag_info inet_diag_info 11 type_u8 0
        (abi.offsetof info_tcpi_retransmits) (some dr_common) (some sort_common) (some fp_common)
        (some fa_common))
    ∷ (define_field "probes" "" false inet_diag_info inet_diag_info 6 type_u8 0
        (abi.offsetof info_tcpi_probes) (some dr_common) (some sort_common) (some fp_common)
        (some fa_common))
    ∷ (define_field "backoff" "" false inet_diag_info inet_diag_info 7 type_u8 0
        (abi.offsetof info_tcpi_backoff) (some dr_common) (some sort_common) (some fp_common)
        (some fa_common))
    ∷ (define_field "options" "" false inet_diag_info inet_diag_info 34 type_u8 0
        (abi.offsetof info_tcpi_options) (some dr_options) (some sort_common) (some fp_options)
        (some fa_options))
    ∷ (define_field "snd_wscale" "" false inet_diag_info inet_diag_info 10 type_u8 0
        (abi.offsetof info_tcpi_options + 1) (some dr_snd_wscale) (some sort_snd_wscale)
        (some fp_common) (some fa_snd_wscale))
    ∷ (define_field "rcv_wscale" "" false inet_diag_info inet_diag_info 10 type_u8 0
        (abi.offsetof info_tcpi_options + 1) (some dr_rcv_wscale) (some sort_rcv_wscale)
        (some fp_common) (some fa_rcv_wscale))
    ∷ (define_field "delivery_rate_app_limited" "" false inet_diag_info inet_diag_info 25 type_u8 0
        (abi.offsetof info_tcpi_options + 2) (some dr_delivery_rate_app_limited)
        (some sort_delivery_rate_app_limited) (some fp_bool) (some fa_delivery_rate_app_limited))
    ∷ (define_field "fastopen_client_fail" "" false inet_diag_info inet_diag_info 20 type_u8 0
        (abi.offsetof info_tcpi_options + 2) (some dr_fastopen_client_fail)
        (some sort_fastopen_client_fail) (some fp_fastopen_client_fail)
        (some fa_fastopen_client_fail))
    ∷ (define_field "rto" "" false inet_diag_info inet_diag_info 8 type_u32 0
        (abi.offsetof info_tcpi_rto) (some dr_common) (some sort_common) (some fp_common)
        (some fa_common))
    ∷ []
