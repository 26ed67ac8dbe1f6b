-- ===== src/Field/Table/SockoptFields.antt =====
-- src/draw.c: the entries of `tcp_fields` from mc_all to defer_connect.
use sockmon.Base.{◌+◌, false, some, List, [], ◌∷◌}
use sockmon.Field.{
  Field, dr_bind_address_no_port, dr_common, dr_defer_connect, dr_recverr_rfc4884,
  fa_bind_address_no_port, fa_defer_connect, fa_recverr_rfc4884, fa_str_common, fp_bool,
  inet_diag_sockopt, sort_bind_address_no_port, sort_common, sort_defer_connect,
  sort_recverr_rfc4884, type_bit_u8, type_u8,
}
use sockmon.Field.Table.Layout.{Abi, define_field, inet_sockopt}

unfoldable pub sockopt_fields : Abi → List Field
sockopt_fields abi =
    (define_field "mc_all" "" false inet_diag_sockopt inet_diag_sockopt 6 type_bit_u8 6
      (abi.offsetof inet_sockopt) (some dr_common) (some sort_common) (some fp_bool)
      (some fa_str_common))
    ∷ (define_field "nodefrag" "" false inet_diag_sockopt inet_diag_sockopt 8 type_bit_u8 7
        (abi.offsetof inet_sockopt) (some dr_common) (some sort_common) (some fp_bool)
        (some fa_str_common))
    ∷ (define_field "bind_address_no_port" "" false inet_diag_sockopt inet_diag_sockopt 20 type_u8 0
        (abi.offsetof inet_sockopt + 1) (some dr_bind_address_no_port)
        (some sort_bind_address_no_port) (some fp_bool) (some fa_bind_address_no_port))
    ∷ (define_field "recverr_rfc4884" "" false inet_diag_sockopt inet_diag_sockopt 15 type_u8 0
        (abi.offsetof inet_sockopt + 1) (some dr_recverr_rfc4884) (some sort_recverr_rfc4884)
        (some fp_bool) (some fa_recverr_rfc4884))
    ∷ (define_field "defer_connect" "" false inet_diag_sockopt inet_diag_sockopt 13 type_u8 0
        (abi.offsetof inet_sockopt + 1) (some dr_defer_connect) (some sort_defer_connect)
        (some fp_bool) (some fa_defer_connect))
    ∷ []
