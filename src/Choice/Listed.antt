-- ===== src/Choice/Listed.antt =====
-- src/draw.c: the names that the prompts on a set of values list, and `draw_str`, which marks the
-- selected ones.
use Prim.Native.Nat.{bit_and}
use sockmon.Base.{
  ℕ, zero, suc, ◌+◌, ◌^◌, ◌<◌, ◌≡◌, ◌∙◌, refl, ap, arith, Bool, not, some, List, [], ◌∷◌, length,
  get_elem?, get_or, ◌==◌, Run, ok, at, ◌>>=◌,
}
use sockmon.Cell.{
  names, state_str, timer_str, ca_state_str, fastopen_client_fail_str, ecn_mode_str,
  accecn_opt_seen_str,
}
use sockmon.Field.{
  FilterParse, fp_addr, fp_common, fp_state, fp_timer, fp_shutdown, fp_bool, fp_ca_state,
  fp_options, fp_fastopen_client_fail, fp_ecn_mode, fp_accecn_opt_seen, fp_accecn_fail_mode,
}

unfoldable pub bool_str : List (List ℕ)
bool_str = names ("false" ∷ "true" ∷ [])

unfoldable pub shutdown_str : List (List ℕ)
shutdown_str = names ("" ∷ "SHUT_RD" ∷ "SHUT_WR" ∷ "SHUT_RDWR" ∷ [])

unfoldable pub options_str : List (List ℕ)
options_str = names (
    "Timestamps" ∷ "SACK" ∷ "WScale" ∷ "ECN" ∷ "ECN Seen" ∷ "SYN Data" ∷ "usec TS" ∷ "TFO Child"
    ∷ [])

unfoldable pub accecn_fail_mode_str : List (List ℕ)
accecn_fail_mode_str = names ("ace_send" ∷ "ace_recv" ∷ "opt_send" ∷ "opt_recv" ∷ [])

-- The array that each caller of `fp_str_common` passes.
unfoldable pub strings : FilterParse → List (List ℕ)
unfolding bool_str shutdown_str options_str accecn_fail_mode_str state_str timer_str ca_state_str
    fastopen_client_fail_str ecn_mode_str accecn_opt_seen_str
strings fp_state = state_str
strings fp_timer = timer_str
strings fp_shutdown = shutdown_str
strings fp_bool = bool_str
strings fp_ca_state = ca_state_str
strings fp_options = options_str
strings fp_fastopen_client_fail = fastopen_client_fail_str
strings fp_ecn_mode = ecn_mode_str
strings fp_accecn_opt_seen = accecn_opt_seen_str
strings fp_accecn_fail_mode = accecn_fail_mode_str
strings fp_common = []
strings fp_addr = []

-- A line of the prompt: `[*] ` or `[ ] `, and the name.
pub record Listed : Type 0 where
  pub y : ℕ
  pub marked : Bool
  pub text : List ℕ

-- The loop of `draw_str` from `i` on, over the lines left, without the highlight of the cursor's line.
unfoldable pub draw_str : List (List ℕ) → (lines i y selected : ℕ) → Run (List Listed)
draw_str str zero i y selected = ok []
draw_str str (suc lines) i y selected = do
  name ← at str i
  rest ← draw_str str lines (i + 1) (y + 1) selected
  ok (record { y = y; marked = not (bit_and selected (2 ^ i) == 0); text = name } ∷ rest)

abbrev pub line : List (List ℕ) → (selected i y : ℕ) → Listed
line str selected i y = record {
  y = y;
  marked = not (bit_and selected (2 ^ i) == 0);
  text = get_or str i [];
}

listing : List (List ℕ) → (lines i y selected : ℕ) → List Listed
listing str zero i y selected = []
listing str (suc lines) i y selected =
    line str selected i y ∷ listing str lines (i + 1) (y + 1) selected

same_line :
    (str : List (List ℕ)) (selected : ℕ) {i j y z : ℕ}
    → i ≡ j
    → y ≡ z
    → line str selected i y ≡ line str selected j z
same_line str selected e f = cc

at-get_or {ℓ} :
    {A : Type ℓ} (xs : List A) (i : ℕ) (d : A) → i < length xs → at xs i ≡ ok (get_or xs i d)
at-get_or [] i d h = absurd (omega arith)
at-get_or (x ∷ xs) zero d h = refl
at-get_or (x ∷ xs) (suc i) d h = at-get_or xs i d (omega arith)

draw_str-listing :
    (str : List (List ℕ)) (lines i y selected : ℕ)
    → i + lines < suc (length str)
    → draw_str str lines i y selected ≡ ok (listing str lines i y selected)
unfolding draw_str listing
draw_str-listing str zero i y selected fit = refl
draw_str-listing str (suc lines) i y selected fit = rw (
  at-get_or str i [] (omega arith),
  draw_str-listing str lines (i + 1) (y + 1) selected (omega arith),
)

get_elem?-listing :
    (str : List (List ℕ)) (lines i y selected j : ℕ)
    → j < lines
    → get_elem? (listing str lines i y selected) j ≡ some (line str selected (i + j) (y + j))
unfolding listing
get_elem?-listing str zero i y selected j h = absurd (omega arith)
get_elem?-listing str (suc lines) i y selected zero h =
    ap some (same_line str selected (omega arith) (omega arith))
get_elem?-listing str (suc lines) i y selected (suc j) h =
    get_elem?-listing str lines (i + 1) (y + 1) selected j (omega arith)
    ∙ ap some (same_line str selected (omega arith) (omega arith))

-- The line of a value has its name, and is marked if its bit is set.
pub draw_str-get_elem? :
    (str : List (List ℕ)) (lines i y selected j : ℕ)
    → i + lines < suc (length str)
    → j < lines
    → (rows : List Listed) × (draw_str str lines i y selected ≡ ok rows)
      × (get_elem? rows j ≡ some (line str selected (i + j) (y + j)))
draw_str-get_elem? str lines i y selected j fit lt = (
  listing str lines i y selected,
  draw_str-listing str lines i y selected fit,
  get_elem?-listing str lines i y selected j lt,
)
