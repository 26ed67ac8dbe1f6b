-- ===== src/Field/Table/DeliveryFields.antt =====
-- src/draw.c: the entries of `tcp_fields` from delivered_ce to received_ce_bytes.
use sockmon.Base.{false, some, List, [], ◌∷◌}
use sockmon.Field.{
  Field, dr_common, fa_common, fp_common, inet_diag_info, sort_common, type_u16, type_u32, type_u64,
}
use sockmon.Field.Table.Layout.{
  Abi, define_field, info_tcpi_delivered_ce, info_tcpi_bytes_sent, info_tcpi_bytes_retrans,
  info_tcpi_dsack_dups, info_tcpi_reord_seen, info_tcpi_rcv_ooopack, info_tcpi_snd_wnd,
  info_tcpi_rcv_wnd, info_tcpi_rehash, info_tcpi_total_rto, info_tcpi_total_rto_recoveries,
  info_tcpi_total_rto_time, info_tcpi_received_ce, info_tcpi_delivered_e1_bytes,
  info_tcpi_delivered_e0_bytes, info_tcpi_delivered_ce_bytes, info_tcpi_received_e1_bytes,
  info_tcpi_received_e0_bytes, info_tcpi_received_ce_bytes,
}

unfoldable pub delivery_fields : Abi → List Field
delivery_fields abi =
    (define_field "delivered_ce" "" false inet_diag_info inet_diag_info 12 type_u32 0
      (abi.offsetof info_tcpi_delivered_ce) (some dr_common) (some sort_common) (some fp_common)
      (some fa_common))
    ∷ (define_field "bytes_sent" "" false inet_diag_info inet_diag_info 15 type_u64 0
        (abi.offsetof info_tcpi_bytes_sent) (some dr_common) (some sort_common) (some fp_common)
        (some fa_common))
    ∷ (define_field "bytes_retrans" "" false inet_diag_info inet_diag_info 13 type_u64 0
        (abi.offsetof info_tcpi_bytes_retrans) (some dr_common) (some sort_common) (some fp_common)
        (some fa_common))
    ∷ (define_field "dsack_dups" "" false inet_diag_info inet_diag_info 10 type_u32 0
        (abi.offsetof info_tcpi_dsack_dups) (some dr_common) (some sort_common) (some fp_common)
        (some fa_common))
    ∷ (define_field "reord_seen" "" false inet_diag_info inet_diag_info 10 type_u32 0
        (abi.offsetof info_tcpi_reord_seen) (some dr_common) (some sort_common) (some fp_common)
        (some fa_common))
    ∷ (define_field "rcv_ooopack" "" false inet_diag_info inet_diag_info 11 type_u32 0
        (abi.offsetof info_tcpi_rcv_ooopack) (some dr_common) (some sort_common) (some fp_common)
        (some fa_common))
    ∷ (define_field "snd_wnd" "" false inet_diag_info inet_diag_info 10 type_u32 0
        (abi.offsetof info_tcpi_snd_wnd) (some dr_common) (some sort_common) (some fp_common)
        (some fa_common))
    ∷ (define_field "rcv_wnd" "" false inet_diag_info inet_diag_info 10 type_u32 0
        (abi.offsetof info_tcpi_rcv_wnd) (some dr_common) (some sort_common) (some fp_common)
        (some fa_common))
    ∷ (define_field "rehash" "" false inet_diag_info inet_diag_info 6 type_u32 0
        (abi.offsetof info_tcpi_rehash) (some dr_common) (some sort_common) (some fp_common)
        (some fa_common))
    ∷ (define_field "total_rto" "" false inet_diag_info inet_diag_info 9 type_u16 0
        (abi.offsetof info_tcpi_total_rto) (some dr_common) (some sort_common) (some fp_common)
        (some fa_common))
    ∷ (define_field "total_rto_recoveries" "" false inet_diag_info inet_diag_info 20 type_u16 0
        (abi.offsetof info_tcpi_total_rto_recoveries) (some dr_common) (some sort_common)
        (some fp_common) (some fa_common))
    ∷ (define_field "total_rto_time" "" false inet_diag_info inet_diag_info 14 type_u32 0
        (abi.offsetof info_tcpi_total_rto_time) (some dr_common) (some sort_common) (some fp_common)
        (some fa_common))
    ∷ (define_field "received_ce" "" false inet_diag_info inet_diag_info 11 type_u32 0
        (abi.offsetof info_tcpi_received_ce) (some dr_common) (some sort_common) (some fp_common)
        (some fa_common))
    ∷ (define_field "delivered_e1_bytes" "" false inet_diag_info inet_diag_info 18 type_u32 0
        (abi.offsetof info_tcpi_delivered_e1_bytes) (some dr_common) (some sort_common)
        (some fp_common) (some fa_common))
    ∷ (define_field "delivered_e0_bytes" "" false inet_diag_info inet_diag_info 18 type_u32 0
        (abi.offsetof info_tcpi_delivered_e0_bytes) (some dr_common) (some sort_common)
        (some fp_common) (some fa_common))
    ∷ (define_field "delivered_ce_bytes" "" false inet_diag_info inet_diag_info 18 type_u32 0
        (abi.offsetof info_tcpi_delivered_ce_bytes) (some dr_common) (some sort_common)
        (some fp_common) (some fa_common))
    ∷ (define_field "received_e1_bytes" "" false inet_diag_info inet_diag_info 17 type_u32 0
        (abi.offsetof info_tcpi_received_e1_bytes) (some dr_common) (some sort_common)
        (some fp_common) (some fa_common))
    ∷ (define_field "received_e0_bytes" "" false inet_diag_info inet_diag_info 17 type_u32 0
        (abi.offsetof info_tcpi_received_e0_bytes) (some dr_common) (some sort_common)
        (some fp_common) (some fa_common))
    ∷ (define_field "received_ce_bytes" "" false inet_diag_info inet_diag_info 17 type_u32 0
        (abi.offsetof info_tcpi_received_ce_bytes) (some dr_common) (some sort_common)
        (some fp_common) (some fa_common))
    ∷ []
