-- ===== src/Field/Table/RateFields.antt =====
-- src/draw.c: the entries of `tcp_fields` from reordering to delivered.
use sockmon.Base.{false, some, List, [], ◌∷◌}
use sockmon.Field.{
  Field, dr_common, fa_common, fp_common, inet_diag_info, sort_common, type_u32, type_u64,
}
use sockmon.Field.Table.Layout.{
  Abi, define_field, info_tcpi_reordering, info_tcpi_rcv_rtt, info_tcpi_rcv_space,
  info_tcpi_total_retrans, info_tcpi_pacing_rate, info_tcpi_max_pacing_rate, info_tcpi_bytes_acked,
  info_tcpi_bytes_received, info_tcpi_segs_out, info_tcpi_segs_in, info_tcpi_notsent_bytes,
  info_tcpi_min_rtt, info_tcpi_data_segs_in, info_tcpi_data_segs_out, info_tcpi_delivery_rate,
  info_tcpi_busy_time, info_tcpi_rwnd_limited, info_tcpi_sndbuf_limited, info_tcpi_delivered,
}

unfoldable pub rate_fields : Abi → List Field
rate_fields abi =
    (define_field "reordering" "" false inet_diag_info inet_diag_info 10 type_u32 0
      (abi.offsetof info_tcpi_reordering) (some dr_common) (some sort_common) (some fp_common)
      (some fa_common))
    ∷ (define_field "rcv_rtt" "" false inet_diag_info inet_diag_info 10 type_u32 0
        (abi.offsetof info_tcpi_rcv_rtt) (some dr_common) (some sort_common) (some fp_common)
        (some fa_common))
    ∷ (define_field "rcv_space" "" false inet_diag_info inet_diag_info 9 type_u32 0
        (abi.offsetof info_tcpi_rcv_space) (some dr_common) (some sort_common) (some fp_common)
        (some fa_common))
    ∷ (define_field "total_retrans" "" false inet_diag_info inet_diag_info 13 type_u32 0
        (abi.offsetof info_tcpi_total_retrans) (some dr_common) (some sort_common) (some fp_common)
        (some fa_common))
    ∷ (define_field "pacing_rate" "" false inet_diag_info inet_diag_info 11 type_u64 0
        (abi.offsetof info_tcpi_pacing_rate) (some dr_common) (some sort_common) (some fp_common)
        (some fa_common))
    ∷ (define_field "max_pacing_rate" "" false inet_diag_info inet_diag_info 20 type_u64 0
        (abi.offsetof info_tcpi_max_pacing_rate) (some dr_common) (some sort_common)
        (some fp_common) (some fa_common))
    ∷ (define_field "bytes_acked" "" false inet_diag_info inet_diag_info 15 type_u64 0
        (abi.offsetof info_tcpi_bytes_acked) (some dr_common) (some sort_common) (some fp_common)
        (some fa_common))
    ∷ (define_field "bytes_received" "" false inet_diag_info inet_diag_info 15 type_u64 0
        (abi.offsetof info_tcpi_bytes_received) (some dr_common) (some sort_common) (some fp_common)
        (some fa_common))
    ∷ (define_field "segs_out" "" false inet_diag_info inet_diag_info 8 type_u32 0
        (abi.offsetof info_tcpi_segs_out) (some dr_common) (some sort_common) (some fp_common)
        (some fa_common))
    ∷ (define_field "segs_in" "" false inet_diag_info inet_diag_info 8 type_u32 0
        (abi.offsetof info_tcpi_segs_in) (some dr_common) (some sort_common) (some fp_common)
        (some fa_common))
    ∷ (define_field "notsent_bytes" "" false inet_diag_info inet_diag_info 13 type_u32 0
        (abi.offsetof info_tcpi_notsent_bytes) (some dr_common) (some sort_common) (some fp_common)
        (some fa_common))
    ∷ (define_field "min_rtt" "" false inet_diag_info inet_diag_info 8 type_u32 0
        (abi.offsetof info_tcpi_min_rtt) (some dr_common) (some sort_common) (some fp_common)
        (some fa_common))
    ∷ (define_field "data_segs_in" "" false inet_diag_info inet_diag_info 12 type_u32 0
        (abi.offsetof info_tcpi_data_segs_in) (some dr_common) (some sort_common) (some fp_common)
        (some fa_common))
    ∷ (define_field "data_segs_out" "" false inet_diag_info inet_diag_info 13 type_u32 0
        (abi.offsetof info_tcpi_data_segs_out) (some dr_common) (some sort_common) (some fp_common)
        (some fa_common))
    ∷ (define_field "delivery_rate" "" false inet_diag_info inet_diag_info 13 type_u64 0
        (abi.offsetof info_tcpi_delivery_rate) (some dr_common) (some sort_common) (some fp_common)
        (some fa_common))
    ∷ (define_field "busy_time" "" false inet_diag_info inet_diag_info 10 type_u64 0
        (abi.offsetof info_tcpi_busy_time) (some dr_common) (some sort_common) (some fp_common)
        (some fa_common))
    ∷ (define_field "rwnd_limited" "" false inet_diag_info inet_diag_info 12 type_u64 0
        (abi.offsetof info_tcpi_rwnd_limited) (some dr_common) (some sort_common) (some fp_common)
        (some fa_common))
    ∷ (define_field "sndbuf_limited" "" false inet_diag_info inet_diag_info 14 type_u64 0
        (abi.offsetof info_tcpi_sndbuf_limited) (some dr_common) (some sort_common) (some fp_common)
        (some fa_common))
    ∷ (define_field "delivered" "" false inet_diag_info inet_diag_info 9 type_u32 0
        (abi.offsetof info_tcpi_delivered) (some dr_common) (some sort_common) (some fp_common)
        (some fa_common))
    ∷ []
