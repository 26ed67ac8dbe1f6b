-- ===== src/Field/Table/TimingFields.antt =====
-- src/draw.c: the entries of `tcp_fields` from ato to advmss.
use sockmon.Base.{false, some, List, [], ◌∷◌}
use sockmon.Field.{Field, dr_common, fa_common, fp_common, inet_diag_info, sort_common, type_u32}
use sockmon.Field.Table.Layout.{
  Abi, define_field, info_tcpi_ato, info_tcpi_snd_mss, info_tcpi_rcv_mss, info_tcpi_unacked,
  info_tcpi_sacked, info_tcpi_lost, info_tcpi_retrans, info_tcpi_fackets, info_tcpi_last_data_sent,
  info_tcpi_last_ack_sent, info_tcpi_last_data_recv, info_tcpi_last_ack_recv, info_tcpi_pmtu,
  info_tcpi_rcv_ssthresh, info_tcpi_rtt, info_tcpi_rttvar, info_tcpi_snd_ssthresh,
  info_tcpi_snd_cwnd, info_tcpi_advmss,
}

unfoldable pub timing_fields : Abi → List Field
timing_fields abi =
    (define_field "ato" "" false inet_diag_info inet_diag_info 8 type_u32 0
      (abi.offsetof info_tcpi_ato) (some dr_common) (some sort_common) (some fp_common)
      (some fa_common))
    ∷ (define_field "snd_mss" "" false inet_diag_info inet_diag_info 7 type_u32 0
        (abi.offsetof info_tcpi_snd_mss) (some dr_common) (some sort_common) (some fp_common)
        (some fa_common))
    ∷ (define_field "rcv_mss" "" false inet_diag_info inet_diag_info 7 type_u32 0
        (abi.offsetof info_tcpi_rcv_mss) (some dr_common) (some sort_common) (some fp_common)
        (some fa_common))
    ∷ (define_field "unacked" "" false inet_diag_info inet_diag_info 7 type_u32 0
        (abi.offsetof info_tcpi_unacked) (some dr_common) (some sort_common) (some fp_common)
        (some fa_common))
    ∷ (define_field "sacked" "" false inet_diag_info inet_diag_info 6 type_u32 0
        (abi.offsetof info_tcpi_sacked) (some dr_common) (some sort_common) (some fp_common)
        (some fa_common))
    ∷ (define_field "lost" "" false inet_diag_info inet_diag_info 4 type_u32 0
        (abi.offsetof info_tcpi_lost) (some dr_common) (some sort_common) (some fp_common)
        (some fa_common))
    ∷ (define_field "retrans" "" false inet_diag_info inet_diag_info 7 type_u32 0
        (abi.offsetof info_tcpi_retrans) (some dr_common) (some sort_common) (some fp_common)
        (some fa_common))
    ∷ (define_field "fackets" "" false inet_diag_info inet_diag_info 7 type_u32 0
        (abi.offsetof info_tcpi_fackets) (some dr_common) (some sort_common) (some fp_common)
        (some fa_common))
    ∷ (define_field "last_data_sent" "" false inet_diag_info inet_diag_info 14 type_u32 0
        (abi.offsetof info_tcpi_last_data_sent) (some dr_common) (some sort_common) (some fp_common)
        (some fa_common))
    ∷ (define_field "last_ack_sent" "" false inet_diag_info inet_diag_info 13 type_u32 0
        (abi.offsetof info_tcpi_last_ack_sent) (some dr_common) (some sort_common) (some fp_common)
        (some fa_common))
    ∷ (define_field "last_data_recv" "" false inet_diag_info inet_diag_info 14 type_u32 0
        (abi.offsetof info_tcpi_last_data_recv) (some dr_common) (some sort_common) (some fp_common)
        (some fa_common))
    ∷ (define_field "last_ack_recv" "" false inet_diag_info inet_diag_info 13 type_u32 0
        (abi.offsetof info_tcpi_last_ack_recv) (some dr_common) (some sort_common) (some fp_common)
        (some fa_common))
    ∷ (define_field "pmtu" "" false inet_diag_info inet_diag_info 6 type_u32 0
        (abi.offsetof info_tcpi_pmtu) (some dr_common) (some sort_common) (some fp_common)
        (some fa_common))
    ∷ (define_field "rcv_ssthresh" "" false inet_diag_info inet_diag_info 12 type_u32 0
        (abi.offsetof info_tcpi_rcv_ssthresh) (some dr_common) (some sort_common) (some fp_common)
        (some fa_common))
    ∷ (define_field "rtt" "" false inet_diag_info inet_diag_info 8 type_u32 0
        (abi.offsetof info_tcpi_rtt) (some dr_common) (some sort_common) (some fp_common)
        (some fa_common))
    ∷ (define_field "rttvar" "" false inet_diag_info inet_diag_info 8 type_u32 0
        (abi.offsetof info_tcpi_rttvar) (some dr_common) (some sort_common) (some fp_common)
        (some fa_common))
    ∷ (define_field "snd_ssthresh" "" false inet_diag_info inet_diag_info 12 type_u32 0
        (abi.offsetof info_tcpi_snd_ssthresh) (some dr_common) (some sort_common) (some fp_common)
        (some fa_common))
    ∷ (define_field "snd_cwnd" "" false inet_diag_info inet_diag_info 8 type_u32 0
        (abi.offsetof info_tcpi_snd_cwnd) (some dr_common) (some sort_common) (some fp_common)
        (some fa_common))
    ∷ (define_field "advmss" "" false inet_diag_info inet_diag_info 6 type_u32 0
        (abi.offsetof info_tcpi_advmss) (some dr_common) (some sort_common) (some fp_common)
        (some fa_common))
    ∷ []
