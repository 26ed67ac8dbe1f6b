-- ===== src/Field/Table/MemoryFields.antt =====
-- src/draw.c: the entries of `tcp_fields` from min_rtt to transparent.
use sockmon.Base.{◌+◌, false, none, some, List, [], ◌∷◌}
use sockmon.Field.{
  Field, dr_common, fa_common, fa_str_common, fp_bool, fp_common, inet_diag_bbrinfo,
  inet_diag_skmeminfo, inet_diag_sockopt, inet_diag_vegasinfo, sort_common, type_bit_u8, type_other,
  type_u32,
}
use sockmon.Field.Table.Layout.{
  Abi, define_field, cc_info_bbr_min_rtt, cc_info_bbr_pacing_gain, cc_info_bbr_cwnd_gain, mem,
  inet_sockopt,
}

unfoldable pub memory_fields : Abi → List Field
memory_fields abi =
    (define_field "min_rtt" "" false inet_diag_vegasinfo inet_diag_bbrinfo 7 type_u32 0
      (abi.offsetof cc_info_bbr_min_rtt) (some dr_common) (some sort_common) (some fp_common)
      (some fa_common))
    ∷ (define_field "pacing_gain" "" false inet_diag_vegasinfo inet_diag_bbrinfo 11 type_u32 0
        (abi.offsetof cc_info_bbr_pacing_gain) (some dr_common) (some sort_common) (some fp_common)
        (some fa_common))
    ∷ (define_field "cwnd_gain" "" false inet_diag_vegasinfo inet_diag_bbrinfo 9 type_u32 0
        (abi.offsetof cc_info_bbr_cwnd_gain) (some dr_common) (some sort_common) (some fp_common)
        (some fa_common))
    ∷ (define_field "skmeminfo:" "" false inet_diag_skmeminfo inet_diag_skmeminfo 0 type_other 0 0
        none none none none)
    ∷ (define_field "rmem_alloc" "" false inet_diag_skmeminfo inet_diag_skmeminfo 10 type_u32 0
        (abi.offsetof mem) (some dr_common) (some sort_common) (some fp_common) (some fa_common))
    ∷ (define_field "rcvbuf" "" false inet_diag_skmeminfo inet_diag_skmeminfo 8 type_u32 0
        (abi.offsetof mem + 4) (some dr_common) (some sort_common) (some fp_common)
        (some fa_common))
    ∷ (define_field "wmem_alloc" "" false inet_diag_skmeminfo inet_diag_skmeminfo 10 type_u32 0
        (abi.offsetof mem + 8) (some dr_common) (some sort_common) (some fp_common)
        (some fa_common))
    ∷ (define_field "sndbuf" "" false inet_diag_skmeminfo inet_diag_skmeminfo 8 type_u32 0
        (abi.offsetof mem + 12) (some dr_common) (some sort_common) (some fp_common)
        (some fa_common))
    ∷ (define_field "fwd_alloc" "" false inet_diag_skmeminfo inet_diag_skmeminfo 9 type_u32 0
        (abi.offsetof mem + 16) (some dr_common) (some sort_common) (some fp_common)
        (some fa_common))
    ∷ (define_field "wmem_queued" "" false inet_diag_skmeminfo inet_diag_skmeminfo 11 type_u32 0
        (abi.offsetof mem + 20) (some dr_common) (some sort_common) (some fp_common)
        (some fa_common))
    ∷ (define_field "optmem" "" false inet_diag_skmeminfo inet_diag_skmeminfo 6 type_u32 0
        (abi.offsetof mem + 24) (some dr_common) (some sort_common) (some fp_common)
        (some fa_common))
    ∷ (define_field "backlog" "" false inet_diag_skmeminfo inet_diag_skmeminfo 7 type_u32 0
        (abi.offsetof mem + 28) (some dr_common) (some sort_common) (some fp_common)
        (some fa_common))
    ∷ (define_field "drops" "" false inet_diag_skmeminfo inet_diag_skmeminfo 5 type_u32 0
        (abi.offsetof mem + 32) (some dr_common) (some sort_common) (some fp_common)
        (some fa_common))
    ∷ (define_field "sockopt:" "" false inet_diag_sockopt inet_diag_sockopt 0 type_other 0 0 none
        none none none)
    ∷ (define_field "recverr" "" false inet_diag_sockopt inet_diag_sockopt 7 type_bit_u8 0
        (abi.offsetof inet_sockopt) (some dr_common) (some sort_common) (some fp_bool)
        (some fa_str_common))
    ∷ (define_field "is_icsk" "" false inet_diag_sockopt inet_diag_sockopt 7 type_bit_u8 1
        (abi.offsetof inet_sockopt) (some dr_common) (some sort_common) (some fp_bool)
        (some fa_str_common))
    ∷ (define_field "freebind" "" false inet_diag_sockopt inet_diag_sockopt 8 type_bit_u8 2
        (abi.offsetof inet_sockopt) (some dr_common) (some sort_common) (some fp_bool)
        (some fa_str_common))
    ∷ (define_field "hdrincl" "" false inet_diag_sockopt inet_diag_sockopt 7 type_bit_u8 3
        (abi.offsetof inet_sockopt) (some dr_common) (some sort_common) (some fp_bool)
        (some fa_str_common))
    ∷ (define_field "mc_loop" "" false inet_diag_sockopt inet_diag_sockopt 7 type_bit_u8 4
        (abi.offsetof inet_sockopt) (some dr_common) (some sort_common) (some fp_bool)
        (some fa_str_common))
    ∷ (define_field "transparent" "" false inet_diag_sockopt inet_diag_sockopt 11 type_bit_u8 5
        (abi.offsetof inet_sockopt) (some dr_common) (some sort_common) (some fp_bool)
        (some fa_str_common))
    ∷ []
