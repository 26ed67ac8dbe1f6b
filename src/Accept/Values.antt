-- ===== src/Accept/Values.antt =====
-- src/draw.c: what a filter compares, beside what the column sorts by.
use mathlib.Core.Option
use mathlib.Core.Bool.{◌||◌}
use sockmon.Base.{ℕ, ◌≡◌, ◌∙◌, refl, ap, arith, Bool, true, false, Option, none, some, [], ◌∷◌, map}
use sockmon.Accept.{choose, filter_apply}
use sockmon.Accept.Numbers.{
  partner, reads_number, by_number, common_partner, common-Reads, choice-Reads, byte_choice,
  byte_common, word_common, bbr_bw-lt, low_bits, options_value,
}
use sockmon.Conn.{Bytes, load_u8, load_u32, bits}
use sockmon.Field.{
  FieldType, Field, FilterApply, fa_src, fa_common, fa_dst, fa_str_common, fa_string, fa_options,
  fa_snd_wscale, fa_rcv_wscale, fa_delivery_rate_app_limited, fa_fastopen_client_fail, fa_ecn_mode,
  fa_accecn_opt_seen, fa_accecn_fail_mode, fa_vegas_enabled, fa_dctcp_enabled, fa_bbr_bw,
  fa_bind_address_no_port, fa_recverr_rfc4884, fa_defer_connect,
}
use sockmon.Field.Table.{tcp_fields}
use sockmon.Field.Table.Headings.{all_fields}
use sockmon.Field.Table.Layout.{Abi}
use sockmon.Sort.{bbr_bw}
use sockmon.Sort.Laws.{sort_value}

module _ (abi : Abi) where
  -- A filter under a type whose number it reads whole decides by the very number by which the
  -- column of its partner function sorts: by its operator and value, by its set of choices, or by
  -- the one choice.
  pub filter_apply-by_number :
      (a : FilterApply) (f : Field) (m : Bytes) (p : ℕ)
      → reads_number a f.type ≡ true
      → (k : ℕ) × (sort_value abi (partner a f.type) f m p ≡ k ∷ [])
        × (filter_apply abi a f m p ≡ by_number a f.filter k)
  unfolding filter_apply reads_number by_number sort_value partner
  filter_apply-by_number fa_common f m p h =
      let (k, e, r) = common-Reads f.type f.type_nr f.filter m p h in
      (k, common_partner abi f m p f.type refl ∙ e, r)
  filter_apply-by_number fa_str_common f m p h = choice-Reads f.type f.type_nr f.filter m p h
  filter_apply-by_number fa_options f m p h =
      (load_u8 m p, options_value f.type f.type_nr m p h, refl)
  filter_apply-by_number fa_accecn_fail_mode f m p h = (bits 4 4 (load_u32 m p), refl, refl)
  filter_apply-by_number fa_snd_wscale f m p h =
      (bits 0 4 (load_u8 m p), refl, byte_common f.type f.filter _ h (omega arith))
  filter_apply-by_number fa_rcv_wscale f m p h =
      (bits 4 4 (load_u8 m p), refl, byte_common f.type f.filter _ h (omega arith))
  filter_apply-by_number fa_bbr_bw f m p h =
      (bbr_bw m p, refl, word_common f.type f.filter _ h (bbr_bw-lt m p))
  filter_apply-by_number fa_delivery_rate_app_limited f m p h =
      (bits 0 1 (load_u8 m p), refl, byte_choice f.type f.type_nr f.filter _ h (omega arith))
  filter_apply-by_number fa_fastopen_client_fail f m p h =
      (bits 1 2 (load_u8 m p), refl, byte_choice f.type f.type_nr f.filter _ h (omega arith))
  filter_apply-by_number fa_ecn_mode f m p h =
      (bits 0 2 (load_u32 m p), refl, byte_choice f.type f.type_nr f.filter _ h (omega arith))
  filter_apply-by_number fa_accecn_opt_seen f m p h =
      (bits 2 2 (load_u32 m p), refl, byte_choice f.type f.type_nr f.filter _ h (omega arith))
  filter_apply-by_number fa_bind_address_no_port f m p h = (
    bits 0 1 (load_u32 m p),
    refl,
    byte_choice f.type f.type_nr f.filter _ h (omega arith)
        ∙ ap (choose f.filter) (omega (arith, low_bits m p)),
  )
  filter_apply-by_number fa_recverr_rfc4884 f m p h = (
    bits 1 1 (load_u32 m p),
    refl,
    byte_choice f.type f.type_nr f.filter _ h (omega arith)
        ∙ ap (choose f.filter) (omega (arith, low_bits m p)),
  )
  filter_apply-by_number fa_defer_connect f m p h = (
    bits 2 1 (load_u32 m p),
    refl,
    byte_choice f.type f.type_nr f.filter _ h (omega arith)
        ∙ ap (choose f.filter) (omega (arith, low_bits m p)),
  )
  filter_apply-by_number _ f m p h = cc

-- The filters of addresses and of text, and the two that read beyond their variable.
abbrev is_other : FilterApply → Bool
is_other fa_src = true
is_other fa_dst = true
is_other fa_string = true
is_other fa_vegas_enabled = true
is_other fa_dctcp_enabled = true
is_other _ = false

unfoldable pub is_read : Option FilterApply → FieldType → Bool
unfolding reads_number
is_read none t = true
is_read (some a) t = reads_number a t || is_other a

-- Each entry of tcp_fields has the comparison function that goes with its filter function, and a
-- type whose number the filter reads whole, but for the filters of addresses and text and the two
-- of vegas and dctcp.
pub tcp_fields-partner :
    (abi : Abi)
    → (map (λ f. f.sort_func) (tcp_fields abi)
        ≡ map (λ f. Option.map (λ a. partner a f.type) f.filter_apply) (tcp_fields abi))
      × (all_fields (λ f. is_read f.filter_apply f.type) (tcp_fields abi) ≡ true)
unfolding tcp_fields all_fields partner is_read
tcp_fields-partner abi = (refl, refl)
