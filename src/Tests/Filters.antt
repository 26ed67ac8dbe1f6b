-- ===== src/Tests/Filters.antt =====
-- Filters on concrete connections.
use sockmon.Accept.{apply_addr, filter_apply}
use sockmon.Accept.Overread.{Overreads, bool_filters-Overreads}
use sockmon.Accept.Numbers.{partner, by_number, reads_number}
use sockmon.Accept.Values.{filter_apply-by_number}
use sockmon.Base.{ℕ, ◌≡◌, refl, arith, true, some, [], ◌∷◌, leb, if◌then◌else◌, ok, replicate}
use sockmon.Conn.{af_inet, load_u8}
use sockmon.Field.{Filter, Field, op_ne, op_gt, fa_common, fa_vegas_enabled, fa_dctcp_enabled}
use sockmon.Prefix.{prefix_mask, prefix_length}
use sockmon.Prefix.Length.{prefix_length-prefix_mask}
use sockmon.Prefix.Match.{are_bytes, in_network, apply_addr-in_network}
use sockmon.Sort.Laws.{sort_value}
use sockmon.Tests.Samples.{abi, column}

-- `!=192.168.1.0/24`
abbrev network : Filter
network = record {
  op = op_ne;
  v = 0;
  selected = 0;
  addr = 192 ∷ 168 ∷ 1 ∷ 0 ∷ replicate 12 0;
  mask = prefix_mask 24;
  family = af_inet;
  s = [];
}

network_bytes : are_bytes network.addr ≡ true
unfolding are_bytes
network_bytes = refl

apply_addr-in_network_example :
    apply_addr (some network) af_inet (λ p. 192) 0 ≡ ok (in_network network 24 af_inet (λ p. 192) 0)
apply_addr-in_network_example =
    apply_addr-in_network network 24 af_inet (λ p. 192) 0 (omega arith) refl network_bytes refl

prefix_length-prefix_mask_example :
    (prefix_length 16 (prefix_mask 57) 0 ≡ 57)
    × (prefix_length 4 (prefix_mask 57) 0 ≡ (if leb 57 32 then 57 else 32))
prefix_length-prefix_mask_example = prefix_length-prefix_mask 57 (omega arith)

-- `>3`
abbrev above : Field
above = record (column 0) { filter = some (record network { op = op_gt; v = 3 }) }

above_number : reads_number fa_common above.type ≡ true
unfolding reads_number
above_number = refl

filter_apply-by_number_example :
    (k : ℕ) × (sort_value abi (partner fa_common above.type) above (λ p. 5) 0 ≡ k ∷ [])
    × (filter_apply abi fa_common above (λ p. 5) 0 ≡ by_number fa_common above.filter k)
filter_apply-by_number_example = filter_apply-by_number abi fa_common above (λ p. 5) 0 above_number

five_passes : filter_apply abi fa_common above (λ p. 5) 0 ≡ ok true
unfolding filter_apply load_u8
five_passes = refl

bool_filters-Overreads_example :
    Overreads abi fa_vegas_enabled (some network) (λ p. 1)
    × Overreads abi fa_dctcp_enabled (some network) (λ p. 1)
bool_filters-Overreads_example = bool_filters-Overreads abi (some network) (λ p. 1)
