-- ===== src/Cell/Names.antt =====
-- src/draw.c: the columns that show names, beside the prompts that list them and the filters that
-- they set.
use sockmon.Accept.{inside, choose, filter_apply, apply_choice, read_bytes}
use sockmon.Accept.Numbers.{byte_choice, is_u8}
use sockmon.Base.{
  ℕ, zero, suc, ◌%◌, ◌<◌, ◌≡◌, ◌∙◌, refl, ap, arith, Bool, true, false, Option, List, [], ◌∷◌,
  length, get_or, ltb,
}
use sockmon.Cell.{
  InetNtop, common_text, bool_name, cell_text, state_text, timer_text, ca_state_text, state_str,
  timer_str, ca_state_str, fastopen_client_fail_str, fastopen_client_fail_text, ecn_mode_str,
  ecn_mode_text, accecn_opt_seen_str, accecn_opt_seen_text, delivery_rate_app_limited_text,
  bind_address_no_port_text, recverr_rfc4884_text, defer_connect_text,
}
use sockmon.Choice.Listed.{strings, bool_str}
use sockmon.Conn.{Bytes, load_u8, load_u16, load_u32, bits}
use sockmon.Field.{
  FieldType, type_u8, type_bool_u8, type_bit_u8, Filter, Field, DrawRow, dr_common, dr_state,
  dr_timer, dr_ca_state, dr_delivery_rate_app_limited, dr_fastopen_client_fail, dr_ecn_mode,
  dr_accecn_opt_seen, dr_bind_address_no_port, dr_recverr_rfc4884, dr_defer_connect, FilterParse,
  fp_state, fp_timer, fp_ca_state, fp_bool, fp_fastopen_client_fail, fp_ecn_mode,
  fp_accecn_opt_seen, FilterApply, fa_str_common, fa_delivery_rate_app_limited,
  fa_fastopen_client_fail, fa_ecn_mode, fa_accecn_opt_seen, fa_bind_address_no_port,
  fa_recverr_rfc4884, fa_defer_connect,
}
use sockmon.Field.Table.Layout.{Abi}

-- The columns of names, but for those of more than one byte under `dr_common`.
unfoldable pub draws_names : DrawRow → FieldType → ℕ → Bool
draws_names dr_common type_bool_u8 nr = true
draws_names dr_common type_bit_u8 nr = ltb nr 8
draws_names dr_state t nr = is_u8 t
draws_names dr_timer t nr = is_u8 t
draws_names dr_ca_state t nr = is_u8 t
draws_names dr_delivery_rate_app_limited t nr = is_u8 t
draws_names dr_fastopen_client_fail t nr = is_u8 t
draws_names dr_ecn_mode t nr = is_u8 t
draws_names dr_accecn_opt_seen t nr = is_u8 t
draws_names dr_bind_address_no_port t nr = is_u8 t
draws_names dr_recverr_rfc4884 t nr = is_u8 t
draws_names dr_defer_connect t nr = is_u8 t
draws_names _ t nr = false

-- The value of such a column.
unfoldable pub value : DrawRow → FieldType → ℕ → Bytes → ℕ → ℕ
value dr_common type_bit_u8 nr m p = bits nr 1 (load_u8 m p)
value dr_delivery_rate_app_limited t nr m p = bits 0 1 (load_u8 m p)
value dr_fastopen_client_fail t nr m p = bits 1 2 (load_u8 m p)
value dr_ecn_mode t nr m p = bits 0 2 (load_u32 m p)
value dr_accecn_opt_seen t nr m p = bits 2 2 (load_u32 m p)
value dr_bind_address_no_port t nr m p = bits 0 1 (load_u8 m p)
value dr_recverr_rfc4884 t nr m p = bits 1 1 (load_u8 m p)
value dr_defer_connect t nr m p = bits 2 1 (load_u8 m p)
value _ t nr m p = load_u8 m p

-- The prompt and the filter of such a column.
unfoldable pub prompt_of : DrawRow → FilterParse
prompt_of dr_state = fp_state
prompt_of dr_timer = fp_timer
prompt_of dr_ca_state = fp_ca_state
prompt_of dr_fastopen_client_fail = fp_fastopen_client_fail
prompt_of dr_ecn_mode = fp_ecn_mode
prompt_of dr_accecn_opt_seen = fp_accecn_opt_seen
prompt_of _ = fp_bool

unfoldable pub apply_of : DrawRow → FilterApply
apply_of dr_delivery_rate_app_limited = fa_delivery_rate_app_limited
apply_of dr_fastopen_client_fail = fa_fastopen_client_fail
apply_of dr_ecn_mode = fa_ecn_mode
apply_of dr_accecn_opt_seen = fa_accecn_opt_seen
apply_of dr_bind_address_no_port = fa_bind_address_no_port
apply_of dr_recverr_rfc4884 = fa_recverr_rfc4884
apply_of dr_defer_connect = fa_defer_connect
apply_of _ = fa_str_common

same_entry {ℓ} :
    {A : Type ℓ} (xs : List A) (i : ℕ) (a b : A) → i < length xs → get_or xs i a ≡ get_or xs i b
same_entry [] i a b h = absurd (omega arith)
same_entry (x ∷ xs) zero a b h = refl
same_entry (x ∷ xs) (suc i) a b h = same_entry xs i a b (omega arith)

name_of_bool : (v : ℕ) → v < 2 → bool_name v ≡ get_or bool_str v []
unfolding bool_name bool_str
name_of_bool zero h = refl
name_of_bool (suc zero) h = refl
name_of_bool (suc (suc v)) h = absurd (omega arith)

low_byte : (m : Bytes) (p : ℕ) → load_u16 m p % 256 ≡ load_u8 m p
unfolding load_u16 load_u8
low_byte m p = omega arith

module _ (abi : Abi) (inet_ntop : InetNtop) (f : Field) (m : Bytes) (p : ℕ) where
  abbrev pub value_at : DrawRow → FieldType → ℕ
  value_at d t = value d t f.type_nr m p

  common-name :
      (t : FieldType)
      → draws_names dr_common t f.type_nr ≡ true
      → value_at dr_common t < length (strings fp_bool)
      → common_text t f.type_nr m p ≡ get_or (strings fp_bool) (value_at dr_common t) []
  unfolding draws_names value common_text strings
  common-name type_bool_u8 n h = ap bool_name (low_byte m p) ∙ name_of_bool (load_u8 m p) h
  common-name type_bit_u8 n h = rw n (name_of_bool _ h)
  common-name _ n h = cc

  -- The text is the name in the prompt's array.
  pub cell-name :
      (d : DrawRow)
      → draws_names d f.type f.type_nr ≡ true
      → value_at d f.type < length (strings (prompt_of d))
      → cell_text abi inet_ntop d f m p ≡ get_or (strings (prompt_of d)) (value_at d f.type) []
  unfolding cell_text prompt_of value strings state_text timer_text ca_state_text
      fastopen_client_fail_text ecn_mode_text accecn_opt_seen_text delivery_rate_app_limited_text
      bind_address_no_port_text recverr_rfc4884_text defer_connect_text draws_names
  cell-name dr_common n h = common-name f.type n h
  cell-name dr_state n h = same_entry state_str _ _ _ h
  cell-name dr_timer n h = same_entry timer_str _ _ _ h
  cell-name dr_ca_state n h = same_entry ca_state_str _ _ _ h
  cell-name dr_fastopen_client_fail n h = same_entry fastopen_client_fail_str _ _ _ h
  cell-name dr_ecn_mode n h = same_entry ecn_mode_str _ _ _ h
  cell-name dr_accecn_opt_seen n h = same_entry accecn_opt_seen_str _ _ _ h
  cell-name dr_delivery_rate_app_limited n h = name_of_bool _ h
  cell-name dr_bind_address_no_port n h = name_of_bool _ h
  cell-name dr_recverr_rfc4884 n h = name_of_bool _ h
  cell-name dr_defer_connect n h = name_of_bool _ h
  cell-name _ n h = cc

  common-choose :
      (t : FieldType) (flt : Option Filter)
      → draws_names dr_common t f.type_nr ≡ true
      → apply_choice t f.type_nr flt (inside m p) ≡ choose flt (value_at dr_common t)
  unfolding draws_names value apply_choice read_bytes
  common-choose type_bool_u8 flt n = refl
  common-choose type_bit_u8 flt n = rw n
  common-choose _ flt n = cc

  byte-choose :
      (t : FieldType) (flt : Option Filter)
      → is_u8 t ≡ true
      → apply_choice t f.type_nr flt (inside m p) ≡ choose flt (load_u8 m p)
  unfolding apply_choice read_bytes
  byte-choose type_u8 flt n = refl
  byte-choose _ flt n = cc

  -- The filter tests the bit of the value.
  pub apply-choose :
      (d : DrawRow)
      → draws_names d f.type f.type_nr ≡ true
      → filter_apply abi (apply_of d) f m p ≡ choose f.filter (value_at d f.type)
  unfolding draws_names apply_of value filter_apply
  apply-choose dr_common n = common-choose f.type f.filter n
  apply-choose dr_state n = byte-choose f.type f.filter n
  apply-choose dr_timer n = byte-choose f.type f.filter n
  apply-choose dr_ca_state n = byte-choose f.type f.filter n
  apply-choose dr_delivery_rate_app_limited n =
      byte_choice f.type f.type_nr f.filter _ n (omega arith)
  apply-choose dr_fastopen_client_fail n = byte_choice f.type f.type_nr f.filter _ n (omega arith)
  apply-choose dr_ecn_mode n = byte_choice f.type f.type_nr f.filter _ n (omega arith)
  apply-choose dr_accecn_opt_seen n = byte_choice f.type f.type_nr f.filter _ n (omega arith)
  apply-choose dr_bind_address_no_port n = byte_choice f.type f.type_nr f.filter _ n (omega arith)
  apply-choose dr_recverr_rfc4884 n = byte_choice f.type f.type_nr f.filter _ n (omega arith)
  apply-choose dr_defer_connect n = byte_choice f.type f.type_nr f.filter _ n (omega arith)
  apply-choose _ n = cc
