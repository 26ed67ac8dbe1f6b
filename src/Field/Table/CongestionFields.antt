-- ===== src/Field/Table/CongestionFields.antt =====
-- src/draw.c: the entries of `tcp_fields` from ecn_mode to bw.
use sockmon.Base.{◌+◌, false, none, some, List, [], ◌∷◌}
use sockmon.Field.{
  Field, dr_accecn_fail_mode, dr_accecn_opt_seen, dr_bbr_bw, dr_common, dr_ecn_mode,
  fa_accecn_fail_mode, fa_accecn_opt_seen, fa_bbr_bw, fa_common, fa_dctcp_enabled, fa_ecn_mode,
  fa_string, fa_vegas_enabled, fp_accecn_fail_mode, fp_accecn_opt_seen, fp_bool, fp_common,
  fp_ecn_mode, inet_diag_bbrinfo, inet_diag_cong, inet_diag_dctcpinfo, inet_diag_info,
  inet_diag_vegasinfo, sort_accecn_fail_mode, sort_accecn_opt_seen, sort_bbr_bw, sort_common,
  sort_ecn_mode, type_bool_u16, type_bool_u32, type_other, type_string, type_u16, type_u32,
  type_u64, type_u8,
}
use sockmon.Field.Table.Layout.{
  Abi, define_field, info_tcpi_received_ce_bytes, ca_name, cc_info_tcpv_enabled,
  cc_info_tcpv_rttcnt, cc_info_tcpv_rtt, cc_info_tcpv_minrtt, cc_info_dctcp_enabled,
  cc_info_dctcp_ce_state, cc_info_dctcp_alpha, cc_info_dctcp_ab_ecn, cc_info_dctcp_ab_tot,
  cc_info_bbr_bw_lo,
}

unfoldable pub congestion_fields : Abi → List Field
congestion_fields abi =
    (define_field "ecn_mode" "" false inet_diag_info inet_diag_info 8 type_u8 0
      (abi.offsetof info_tcpi_received_ce_bytes + 4) (some dr_ecn_mode) (some sort_ecn_mode)
      (some fp_ecn_mode) (some fa_ecn_mode))
    ∷ (define_field "accecn_opt_seen" "" false inet_diag_info inet_diag_info 15 type_u8 0
        (abi.offsetof info_tcpi_received_ce_bytes + 4) (some dr_accecn_opt_seen)
        (some sort_accecn_opt_seen) (some fp_accecn_opt_seen) (some fa_accecn_opt_seen))
    ∷ (define_field "accecn_fail_mode" "" false inet_diag_info inet_diag_info 16 type_other 0
        (abi.offsetof info_tcpi_received_ce_bytes + 4) (some dr_accecn_fail_mode)
        (some sort_accecn_fail_mode) (some fp_accecn_fail_mode) (some fa_accecn_fail_mode))
    ∷ (define_field "Congestion control:" "" false inet_diag_cong inet_diag_cong 0 type_other 0 0
        none none none none)
    ∷ (define_field "Module" "" false inet_diag_cong inet_diag_cong 16 type_string 0
        (abi.offsetof ca_name) (some dr_common) (some sort_common) (some fp_common)
        (some fa_string))
    ∷ (define_field "Vegas info:" "" false inet_diag_vegasinfo inet_diag_vegasinfo 0 type_other 0 0
        none none none none)
    ∷ (define_field "enabled" "" false inet_diag_vegasinfo inet_diag_vegasinfo 7 type_bool_u32 0
        (abi.offsetof cc_info_tcpv_enabled) (some dr_common) (some sort_common) (some fp_bool)
        (some fa_vegas_enabled))
    ∷ (define_field "rttcnt" "" false inet_diag_vegasinfo inet_diag_vegasinfo 6 type_u32 0
        (abi.offsetof cc_info_tcpv_rttcnt) (some dr_common) (some sort_common) (some fp_common)
        (some fa_common))
    ∷ (define_field "rtt" "" false inet_diag_vegasinfo inet_diag_vegasinfo 8 type_u32 0
        (abi.offsetof cc_info_tcpv_rtt) (some dr_common) (some sort_common) (some fp_common)
        (some fa_common))
    ∷ (define_field "minrtt" "" false inet_diag_vegasinfo inet_diag_vegasinfo 10 type_u32 0
        (abi.offsetof cc_info_tcpv_minrtt) (some dr_common) (some sort_common) (some fp_common)
        (some fa_common))
    ∷ (define_field "DCTCP info:" "" false inet_diag_dctcpinfo inet_diag_dctcpinfo 0 type_other 0 0
        none none none none)
    ∷ (define_field "enabled" "" false inet_diag_vegasinfo inet_diag_dctcpinfo 7 type_bool_u16 0
        (abi.offsetof cc_info_dctcp_enabled) (some dr_common) (some sort_common) (some fp_bool)
        (some fa_dctcp_enabled))
    ∷ (define_field "ce_state" "" false inet_diag_vegasinfo inet_diag_dctcpinfo 8 type_u16 0
        (abi.offsetof cc_info_dctcp_ce_state) (some dr_common) (some sort_common) (some fp_common)
        (some fa_common))
    ∷ (define_field "alpha" "" false inet_diag_vegasinfo inet_diag_dctcpinfo 5 type_u32 0
        (abi.offsetof cc_info_dctcp_alpha) (some dr_common) (some sort_common) (some fp_common)
        (some fa_common))
    ∷ (define_field "ab_ecn" "" false inet_diag_vegasinfo inet_diag_dctcpinfo 6 type_u32 0
        (abi.offsetof cc_info_dctcp_ab_ecn) (some dr_common) (some sort_common) (some fp_common)
        (some fa_common))
    ∷ (define_field "ab_tot" "" false inet_diag_vegasinfo inet_diag_dctcpinfo 6 type_u32 0
        (abi.offsetof cc_info_dctcp_ab_tot) (some dr_common) (some sort_common) (some fp_common)
        (some fa_common))
    ∷ (define_field "BBR info:" "" false inet_diag_bbrinfo inet_diag_bbrinfo 0 type_other 0 0 none
        none none none)
    ∷ (define_field "bw" "" false inet_diag_vegasinfo inet_diag_bbrinfo 10 type_u64 0
        (abi.offsetof cc_info_bbr_bw_lo) (some dr_bbr_bw) (some sort_bbr_bw) (some fp_common)
        (some fa_bbr_bw))
    ∷ []
