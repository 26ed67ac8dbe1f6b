-- ===== src/Field/Table/DiagFields.antt =====
-- src/draw.c: the entries of `tcp_fields` from inet_diag to ipv6only.
use sockmon.Base.{◌+◌, ◌*◌, true, false, none, some, List, [], ◌∷◌}
use sockmon.Field.{
  Field, dr_common, dr_dst, dr_port, dr_shutdown, dr_src, dr_state, dr_timer, fa_common, fa_dst,
  fa_src, fa_str_common, fa_string, fp_addr, fp_bool, fp_common, fp_shutdown, fp_state, fp_timer,
  inet_diag_address, inet_diag_none, inet_diag_proc, inet_diag_shutdown, inet_diag_skv6only,
  inet_diag_tclass, inet_diag_tos, sort_common, sort_dst, sort_port, sort_src, type_address,
  type_bool_u8, type_other, type_string, type_u16_port, type_u32, type_u8,
}
use sockmon.Field.Table.Layout.{
  Abi, define_field, msg, msg_id_idiag_sport, msg_id_idiag_dport, msg_idiag_state, msg_idiag_rqueue,
  msg_idiag_wqueue, msg_idiag_timer, msg_idiag_retrans, msg_id_idiag_if, msg_idiag_expires,
  msg_idiag_uid, msg_idiag_inode, pid, comm, tos, tclass, shutdown, ipv6only,
}

unfoldable pub diag_fields : Abi → List Field
diag_fields abi =
    (define_field "inet_diag:" "" false inet_diag_none inet_diag_none 0 type_other 0 0 none none
      none none)
    ∷ (define_field "src" "Local IP address" true inet_diag_none inet_diag_address (15 * 256 + 45)
        type_address 0 (abi.offsetof msg) (some dr_src) (some sort_src) (some fp_addr)
        (some fa_src))
    ∷ (define_field "sport" "Local Port" true inet_diag_none inet_diag_none 5 type_u16_port 0
        (abi.offsetof msg_id_idiag_sport) (some dr_port) (some sort_port) (some fp_common)
        (some fa_common))
    ∷ (define_field "dst" "Remote IP address" true inet_diag_none inet_diag_address (15 * 256 + 45)
        type_address 0 (abi.offsetof msg) (some dr_dst) (some sort_dst) (some fp_addr)
        (some fa_dst))
    ∷ (define_field "dport" "Remote Port" true inet_diag_none inet_diag_none 5 type_u16_port 0
        (abi.offsetof msg_id_idiag_dport) (some dr_port) (some sort_port) (some fp_common)
        (some fa_common))
    ∷ (define_field "state" "Connection state" true inet_diag_none inet_diag_none 11 type_u8 0
        (abi.offsetof msg_idiag_state) (some dr_state) (some sort_common) (some fp_state)
        (some fa_str_common))
    ∷ (define_field "rqueue" "" true inet_diag_none inet_diag_none 6 type_u32 0
        (abi.offsetof msg_idiag_rqueue) (some dr_common) (some sort_common) (some fp_common)
        (some fa_common))
    ∷ (define_field "wqueue" "" true inet_diag_none inet_diag_none 6 type_u32 0
        (abi.offsetof msg_idiag_wqueue) (some dr_common) (some sort_common) (some fp_common)
        (some fa_common))
    ∷ (define_field "timer" "" false inet_diag_none inet_diag_none 9 type_u8 0
        (abi.offsetof msg_idiag_timer) (some dr_timer) (some sort_common) (some fp_timer)
        (some fa_str_common))
    ∷ (define_field "retrans" "" false inet_diag_none inet_diag_none 7 type_u8 0
        (abi.offsetof msg_idiag_retrans) (some dr_common) (some sort_common) (some fp_common)
        (some fa_common))
    ∷ (define_field "if" "" false inet_diag_none inet_diag_none 2 type_u32 0
        (abi.offsetof msg_id_idiag_if) (some dr_common) (some sort_common) (some fp_common)
        (some fa_common))
    ∷ (define_field "expires" "" false inet_diag_none inet_diag_none 7 type_u32 0
        (abi.offsetof msg_idiag_expires) (some dr_common) (some sort_common) (some fp_common)
        (some fa_common))
    ∷ (define_field "uid" "" false inet_diag_none inet_diag_none 6 type_u32 0
        (abi.offsetof msg_idiag_uid) (some dr_common) (some sort_common) (some fp_common)
        (some fa_common))
    ∷ (define_field "inode" "" false inet_diag_none inet_diag_none 7 type_u32 0
        (abi.offsetof msg_idiag_inode) (some dr_common) (some sort_common) (some fp_common)
        (some fa_common))
    ∷ (define_field "pid" "" false inet_diag_proc inet_diag_proc 8 type_u32 0 (abi.offsetof pid)
        (some dr_common) (some sort_common) (some fp_common) (some fa_common))
    ∷ (define_field "comm" "" false inet_diag_proc inet_diag_proc 16 type_string 0
        (abi.offsetof comm) (some dr_common) (some sort_common) (some fp_common) (some fa_string))
    ∷ (define_field "tos" "" false inet_diag_tos inet_diag_tos 3 type_u8 0 (abi.offsetof tos)
        (some dr_common) (some sort_common) (some fp_common) (some fa_common))
    ∷ (define_field "tclass" "" false inet_diag_tclass inet_diag_tclass 6 type_u8 0
        (abi.offsetof tclass) (some dr_common) (some sort_common) (some fp_common) (some fa_common))
    ∷ (define_field "shutdown" "" false inet_diag_shutdown inet_diag_shutdown 8 type_u8 0
        (abi.offsetof shutdown) (some dr_shutdown) (some sort_common) (some fp_shutdown)
        (some fa_str_common))
    ∷ (define_field "ipv6only" "" false inet_diag_skv6only inet_diag_skv6only 8 type_bool_u8 0
        (abi.offsetof ipv6only) (some dr_common) (some sort_common) (some fp_bool)
        (some fa_str_common))
    ∷ []
