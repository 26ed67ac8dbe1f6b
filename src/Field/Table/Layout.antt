-- ===== src/Field/Table/Layout.antt =====
-- The members of `struct conn_info`, of the kernel's structures in it included, that `tcp_fields`
-- reads, and `offsetof` as a parameter.
use Prim.Native.String.{String}
use sockmon.Base.{ℕ, Bool, false, Option, none}
use sockmon.Field.{FieldType, DrawRow, SortFunc, FilterParse, FilterApply, Field}

pub data Member : Type 0 where
  msg msg_id_idiag_sport msg_id_idiag_dport msg_idiag_state msg_idiag_rqueue : Member
  msg_idiag_wqueue msg_idiag_timer msg_idiag_retrans msg_id_idiag_if msg_idiag_expires : Member
  msg_idiag_uid msg_idiag_inode pid comm tos tclass shutdown ipv6only classid : Member
  cgroup_id minfo_idiag_rmem minfo_idiag_wmem minfo_idiag_fmem minfo_idiag_tmem : Member
  info_tcpi_state info_tcpi_ca_state info_tcpi_retransmits info_tcpi_probes : Member
  info_tcpi_backoff info_tcpi_options info_tcpi_rto info_tcpi_ato info_tcpi_snd_mss : Member
  info_tcpi_rcv_mss info_tcpi_unacked info_tcpi_sacked info_tcpi_lost : Member
  info_tcpi_retrans info_tcpi_fackets info_tcpi_last_data_sent info_tcpi_last_ack_sent : Member
  info_tcpi_last_data_recv info_tcpi_last_ack_recv info_tcpi_pmtu : Member
  info_tcpi_rcv_ssthresh info_tcpi_rtt info_tcpi_rttvar info_tcpi_snd_ssthresh : Member
  info_tcpi_snd_cwnd info_tcpi_advmss info_tcpi_reordering info_tcpi_rcv_rtt : Member
  info_tcpi_rcv_space info_tcpi_total_retrans info_tcpi_pacing_rate : Member
  info_tcpi_max_pacing_rate info_tcpi_bytes_acked info_tcpi_bytes_received : Member
  info_tcpi_segs_out info_tcpi_segs_in info_tcpi_notsent_bytes info_tcpi_min_rtt : Member
  info_tcpi_data_segs_in info_tcpi_data_segs_out info_tcpi_delivery_rate : Member
  info_tcpi_busy_time info_tcpi_rwnd_limited info_tcpi_sndbuf_limited : Member
  info_tcpi_delivered info_tcpi_delivered_ce info_tcpi_bytes_sent : Member
  info_tcpi_bytes_retrans info_tcpi_dsack_dups info_tcpi_reord_seen : Member
  info_tcpi_rcv_ooopack info_tcpi_snd_wnd info_tcpi_rcv_wnd info_tcpi_rehash : Member
  info_tcpi_total_rto info_tcpi_total_rto_recoveries info_tcpi_total_rto_time : Member
  info_tcpi_received_ce info_tcpi_delivered_e1_bytes info_tcpi_delivered_e0_bytes : Member
  info_tcpi_delivered_ce_bytes info_tcpi_received_e1_bytes info_tcpi_received_e0_bytes : Member
  info_tcpi_received_ce_bytes ca_name cc_info_tcpv_enabled cc_info_tcpv_rttcnt : Member
  cc_info_tcpv_rtt cc_info_tcpv_minrtt cc_info_dctcp_enabled cc_info_dctcp_ce_state : Member
  cc_info_dctcp_alpha cc_info_dctcp_ab_ecn cc_info_dctcp_ab_tot cc_info_bbr_bw_lo : Member
  cc_info_bbr_min_rtt cc_info_bbr_pacing_gain cc_info_bbr_cwnd_gain mem inet_sockopt : Member

-- `offsetof` of a member in `struct conn_info`; the last three are offsets in
-- `struct inet_diag_msg`.
pub record Abi : Type 0 where
  pub offsetof : Member → ℕ
  pub idiag_family : ℕ
  pub idiag_src : ℕ
  pub idiag_dst : ℕ

-- The macros DEFINE_FIELD2 and DEFINE_FIELD.
abbrev pub define_field :
    (header desc : String) (enabled : Bool) (ext_req ext_rcv width : ℕ) (type : FieldType)
    (type_nr offset : ℕ) (draw_row : Option DrawRow) (sort_func : Option SortFunc)
    (filter_parse : Option FilterParse) (filter_apply : Option FilterApply)
    → Field
define_field header desc enabled ext_req ext_rcv width type type_nr offset draw sort parse apply =
    record {
      header = header;
      desc = desc;
      enabled = enabled;
      pinned = false;
      filter_on = false;
      ext_req = ext_req;
      ext_rcv = ext_rcv;
      width = width;
      type = type;
      type_nr = type_nr;
      offset = offset;
      draw_row = draw;
      sort_func = sort;
      filter_parse = parse;
      filter_apply = apply;
      filter = none;
    }
