-- ===== src/Cell.antt =====
-- src/draw.c: the functions that `tcp_fields` names in `draw_row`, each as the text that it hands to
-- `nm_mvwprintw`, for a value at `p` in the bytes of a connection.
pub mod Names
pub mod Marked
pub mod Typed
pub mod Picked
use Prim.Native.Nat.{bit_and}
use Prim.Native.String.{String}
use sockmon.Accept.{c_string}
use sockmon.Base.{
  ℕ, zero, suc, ◌+◌, ◌/◌, ◌%◌, ◌^◌, Option, none, some, List, [], ◌∷◌, ◌++◌, ltb, ◌==◌,
  if◌then◌else◌, get_or, map,
}
use sockmon.Conn.{Bytes, af_inet, load_u8, load_u16, load_u32, load_u64, bits, ntohs}
use sockmon.Field.{
  FieldType, type_s8, type_u8, type_s16, type_u16, type_s32, type_u32, type_s64, type_u64,
  type_string, type_bool_u8, type_bool_u16, type_bool_u32, type_bit_u8, Field, DrawRow, dr_src,
  dr_port, dr_dst, dr_state, dr_common, dr_timer, dr_shutdown, dr_ca_state, dr_options,
  dr_snd_wscale, dr_rcv_wscale, dr_delivery_rate_app_limited, dr_fastopen_client_fail, dr_ecn_mode,
  dr_accecn_opt_seen, dr_accecn_fail_mode, dr_bbr_bw, dr_bind_address_no_port, dr_recverr_rfc4884,
  dr_defer_connect,
}
use sockmon.Field.Table.Layout.{Abi}
use sockmon.Print.{codes, pad_left, signed, hex_digit}
use sockmon.Prompt.{decimal}
use sockmon.Sort.{string_len, bbr_bw}

-- The arrays of names.
abbrev pub names : List String → List (List ℕ)
names ss = map codes ss

unfoldable pub state_str : List (List ℕ)
state_str = names (
    "?" ∷ "ESTABLISHED" ∷ "SYN_SENT" ∷ "SYN_RECV" ∷ "FIN_WAIT1" ∷ "FIN_WAIT2" ∷ "TIME_WAIT"
    ∷ "CLOSE" ∷ "CLOSE_WAIT" ∷ "LAST_ACK" ∷ "LISTEN" ∷ "CLOSING" ∷ [])

unfoldable pub timer_str : List (List ℕ)
timer_str = names ("Off" ∷ "On" ∷ "Keepalive" ∷ "Timewait" ∷ "Probe0" ∷ "Delack" ∷ [])

unfoldable pub ca_state_str : List (List ℕ)
ca_state_str = names ("Open" ∷ "Disorder" ∷ "CWR" ∷ "Recover" ∷ "Loss" ∷ [])

unfoldable pub fastopen_client_fail_str : List (List ℕ)
fastopen_client_fail_str =
    names ("status_unspec" ∷ "cookie_unavailable" ∷ "data_not_acked" ∷ "syn_retransmitted" ∷ [])

unfoldable pub ecn_mode_str : List (List ℕ)
ecn_mode_str = names ("disabled" ∷ "rfc3168" ∷ "accenc" ∷ "pending" ∷ [])

unfoldable pub accecn_opt_seen_str : List (List ℕ)
accecn_opt_seen_str = names ("not_seen" ∷ "empty_seen" ∷ "counter_seen" ∷ "fail_seen" ∷ [])

-- `(v) ? "true" : "false"`
unfoldable pub bool_name : ℕ → List ℕ
bool_name v = codes (if v == 0 then "false" else "true")

-- The text of `dr_common` before the padding.
unfoldable pub common_text : FieldType → ℕ → Bytes → ℕ → List ℕ
unfolding signed decimal bool_name c_string load_u8 load_u16 load_u32 load_u64
common_text type_s8 nr m p = signed 8 (load_u8 m p)
common_text type_u8 nr m p = decimal 20 (load_u8 m p) []
common_text type_s16 nr m p = signed 16 (load_u16 m p)
common_text type_u16 nr m p = decimal 20 (load_u16 m p) []
common_text type_s32 nr m p = signed 32 (load_u32 m p)
common_text type_u32 nr m p = decimal 20 (load_u32 m p) []
common_text type_s64 nr m p = signed 64 (load_u64 m p)
common_text type_u64 nr m p = decimal 20 (load_u64 m p) []
common_text type_string nr m p = c_string string_len m p
common_text type_bool_u8 nr m p = bool_name (load_u16 m p % 256)
common_text type_bool_u16 nr m p = bool_name (load_u16 m p)
common_text type_bool_u32 nr m p = bool_name (load_u32 m p)
common_text type_bit_u8 nr m p = if ltb nr 8 then bool_name (bits nr 1 (load_u8 m p)) else codes "?"
common_text _ nr m p = []

-- `inet_ntop(family, addr, buf, sizeof(buf))` on the 16 bytes at `addr`: `none` for NULL.
abbrev pub InetNtop : Type 0
InetNtop = (family : ℕ) → (addr : List ℕ) → Option (List ℕ)

unfoldable pub bytes_at : ℕ → Bytes → ℕ → List ℕ
unfolding load_u8
bytes_at zero m p = []
bytes_at (suc k) m p = load_u8 m p ∷ bytes_at k m (p + 1)

-- `dr_addr` before the padding, and its width.
unfoldable pub addr_text : InetNtop → ℕ → Bytes → ℕ → List ℕ
unfolding bytes_at
addr_text inet_ntop family m p = elim (inet_ntop family (bytes_at 16 m p)) [
  | none ↦ codes "?"
  | some text ↦ text
]

unfoldable pub addr_width : ℕ → ℕ → ℕ
addr_width family width = width / 2 ^ (if family == af_inet then 8 else 0) % 256

-- `dr_shutdown`, on the two bits of SHUTDOWN_MASK.
unfoldable pub shutdown_text : Bytes → ℕ → List ℕ
unfolding load_u8
shutdown_text m p =
    let shutdown = bits 0 2 (load_u8 m p) in
    codes (
      if shutdown == 3
      then "RDWR"
      else (if shutdown == 2 then "  WR" else (if shutdown == 1 then "RD  " else "    ")))

-- `(options & bit) ? name : "  "`, with as many blanks as the name has characters.
unfoldable pub option_text : ℕ → ℕ → String → String → List ℕ
option_text options bit name blank = codes (if bit_and options bit == 0 then blank else name)

unfoldable pub options_text : Bytes → ℕ → List ℕ
unfolding option_text load_u8
options_text m p =
    let o = load_u8 m p in
    option_text o 1 "TS" "  "
    ++ b' ' ∷ option_text o 2 "SACK" "    "
    ++ b' ' ∷ option_text o 4 "WS" "  "
    ++ b' ' ∷ option_text o 8 "ECN" "   "
    ++ b' ' ∷ option_text o 16 "ESEEN" "     "
    ++ b' ' ∷ option_text o 32 "SYND" "    "
    ++ b' ' ∷ option_text o 64 "UTS" "   "
    ++ b' ' ∷ option_text o 128 "TFOC" "    "

-- `dr_port` and the functions behind it that read one number.
unfoldable pub port_text : Bytes → ℕ → List ℕ
unfolding decimal ntohs load_u16
port_text m p = decimal 20 (ntohs (load_u16 m p)) []

unfoldable pub state_text : Bytes → ℕ → List ℕ
unfolding state_str load_u8
state_text m p = get_or state_str (load_u8 m p) (codes "?")

unfoldable pub timer_text : Bytes → ℕ → List ℕ
unfolding timer_str load_u8
timer_text m p = get_or timer_str (load_u8 m p) (codes "?")

unfoldable pub ca_state_text : Bytes → ℕ → List ℕ
unfolding ca_state_str load_u8
ca_state_text m p = get_or ca_state_str (load_u8 m p) (codes "?")

unfoldable pub snd_wscale_text : Bytes → ℕ → List ℕ
unfolding decimal load_u8
snd_wscale_text m p = decimal 20 (bits 0 4 (load_u8 m p)) []

unfoldable pub rcv_wscale_text : Bytes → ℕ → List ℕ
unfolding decimal load_u8
rcv_wscale_text m p = decimal 20 (bits 4 4 (load_u8 m p)) []

unfoldable pub delivery_rate_app_limited_text : Bytes → ℕ → List ℕ
unfolding bool_name load_u8
delivery_rate_app_limited_text m p = bool_name (bits 0 1 (load_u8 m p))

unfoldable pub fastopen_client_fail_text : Bytes → ℕ → List ℕ
unfolding fastopen_client_fail_str load_u8
fastopen_client_fail_text m p = get_or fastopen_client_fail_str (bits 1 2 (load_u8 m p)) (codes "?")

unfoldable pub ecn_mode_text : Bytes → ℕ → List ℕ
unfolding ecn_mode_str load_u32
ecn_mode_text m p = get_or ecn_mode_str (bits 0 2 (load_u32 m p)) (codes "?")

unfoldable pub accecn_opt_seen_text : Bytes → ℕ → List ℕ
unfolding accecn_opt_seen_str load_u32
accecn_opt_seen_text m p = get_or accecn_opt_seen_str (bits 2 2 (load_u32 m p)) (codes "?")

unfoldable pub accecn_fail_mode_text : Bytes → ℕ → List ℕ
unfolding hex_digit load_u32
accecn_fail_mode_text m p = hex_digit (bits 4 4 (load_u32 m p))

unfoldable pub bbr_bw_text : Bytes → ℕ → List ℕ
unfolding decimal bbr_bw
bbr_bw_text m p = decimal 20 (bbr_bw m p) []

unfoldable pub bind_address_no_port_text : Bytes → ℕ → List ℕ
unfolding bool_name load_u8
bind_address_no_port_text m p = bool_name (bits 0 1 (load_u8 m p))

unfoldable pub recverr_rfc4884_text : Bytes → ℕ → List ℕ
unfolding bool_name load_u8
recverr_rfc4884_text m p = bool_name (bits 1 1 (load_u8 m p))

unfoldable pub defer_connect_text : Bytes → ℕ → List ℕ
unfolding bool_name load_u8
defer_connect_text m p = bool_name (bits 2 1 (load_u8 m p))

module _ (abi : Abi) (inet_ntop : InetNtop) where
  open abi use {idiag_family, idiag_src, idiag_dst}

  unfoldable pub src_text : Bytes → ℕ → List ℕ
  unfolding addr_text load_u8
  src_text m p = addr_text inet_ntop (load_u8 m (p + idiag_family)) m (p + idiag_src)

  unfoldable pub dst_text : Bytes → ℕ → List ℕ
  unfolding addr_text load_u8
  dst_text m p = addr_text inet_ntop (load_u8 m (p + idiag_family)) m (p + idiag_dst)

  -- The text before the padding.
  unfoldable pub cell_text : DrawRow → Field → Bytes → ℕ → List ℕ
  cell_text dr_common f m p = common_text f.type f.type_nr m p
  cell_text dr_src f m p = src_text m p
  cell_text dr_dst f m p = dst_text m p
  cell_text dr_port f m p = port_text m p
  cell_text dr_state f m p = state_text m p
  cell_text dr_timer f m p = timer_text m p
  cell_text dr_shutdown f m p = shutdown_text m p
  cell_text dr_ca_state f m p = ca_state_text m p
  cell_text dr_options f m p = options_text m p
  cell_text dr_snd_wscale f m p = snd_wscale_text m p
  cell_text dr_rcv_wscale f m p = rcv_wscale_text m p
  cell_text dr_delivery_rate_app_limited f m p = delivery_rate_app_limited_text m p
  cell_text dr_fastopen_client_fail f m p = fastopen_client_fail_text m p
  cell_text dr_ecn_mode f m p = ecn_mode_text m p
  cell_text dr_accecn_opt_seen f m p = accecn_opt_seen_text m p
  cell_text dr_accecn_fail_mode f m p = accecn_fail_mode_text m p
  cell_text dr_bbr_bw f m p = bbr_bw_text m p
  cell_text dr_bind_address_no_port f m p = bind_address_no_port_text m p
  cell_text dr_recverr_rfc4884 f m p = recverr_rfc4884_text m p
  cell_text dr_defer_connect f m p = defer_connect_text m p

  -- The call through `draw_row`: the text with its padding. `dr_options` has no width of its own.
  unfoldable pub row_text : DrawRow → Field → Bytes → ℕ → List ℕ
  unfolding cell_text addr_width pad_left load_u8
  row_text dr_src f m p =
      pad_left (addr_width (load_u8 m (p + idiag_family)) f.width) (cell_text dr_src f m p)
  row_text dr_dst f m p =
      pad_left (addr_width (load_u8 m (p + idiag_family)) f.width) (cell_text dr_dst f m p)
  row_text dr_options f m p = cell_text dr_options f m p
  row_text d f m p = pad_left f.width (cell_text d f m p)
