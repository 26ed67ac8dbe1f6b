-- ===== src/Choice.antt =====
-- src/draw.c: `fp_str_common`, the prompt for a filter on a set of named values, over the keys that
-- are typed at it, and the functions that call it.
pub mod Toggled
pub mod Listed
use Prim.Native.Nat.{bit_and, bit_or}
use sockmon.Base.{
  ℕ, ◌+◌, ◌-◌, ◌*◌, ◌^◌, Bool, true, false, not, ◌||◌, Option, none, some, List, [], ◌∷◌, ltb, leb,
  ◌==◌, if◌then◌else◌, Run, ok, fault, waits, bad_shift, ◌>>=◌,
}
use sockmon.Field.{
  Filter, op_other, FilterParse, fp_addr, fp_common, fp_state, fp_timer, fp_shutdown, fp_bool,
  fp_ca_state, fp_options, fp_fastopen_client_fail, fp_ecn_mode, fp_accecn_opt_seen,
  fp_accecn_fail_mode,
}

-- What `wgetch` gives with the keypad on.
pub data Pressed : Type 0 where
  key_down key_up other_key : Pressed
  char : ℕ → Pressed

-- `if (selected & v) selected &= ~v; else selected |= v;`
unfoldable pub toggle : ℕ → ℕ → ℕ
toggle selected v =
    if bit_and selected v == 0 then bit_or selected v else bit_and selected (2 ^ 32 - 1 - v)

abbrev pub is_quit : ℕ → Bool
is_quit c = c == b'q' || (c == b'Q' || c == 27)

-- The loop, with `rows` the height without the border.
unfoldable pub choice_loop : (rows start y selected : ℕ) → List Pressed → Run (ℕ × List Pressed)
unfolding toggle
choice_loop rows start y selected [] = waits
choice_loop rows start y selected (key_down ∷ ks) =
    choice_loop rows start (if ltb y rows then y + 1 else y) selected ks
choice_loop rows start y selected (key_up ∷ ks) =
    choice_loop rows start (if ltb 1 y then y - 1 else y) selected ks
choice_loop rows start y selected (other_key ∷ ks) = choice_loop rows start y selected ks
choice_loop rows start y selected (char c ∷ ks) =
    let bit = y + start - 1 in
    let marked = choice_loop rows start y (toggle selected (2 ^ bit)) ks in
    let on = choice_loop rows start y selected ks in
    if c == b' '
    then (if ltb bit 32 then marked else fault bad_shift)
    else (if is_quit c then ok (selected, ks) else on)

-- Whether the prompt fails, the field's filter, and the keys left.
pub record Chosen : Type 0 where
  pub failed : Bool
  pub filter : Option Filter
  pub keys : List Pressed

abbrev pub empty_filter : Filter
empty_filter = record {
  op = op_other;
  v = 0;
  selected = 0;
  addr = [];
  mask = [];
  family = 0;
  s = [];
}

-- What follows the loop.
unfoldable pub store_choice : Bool → Option Filter → ℕ → List Pressed → Chosen
store_choice alloc none selected ks =
    if selected == 0 then record { failed = true; filter = none; keys = ks } else record {
      failed = not alloc;
      filter = if alloc then some (record empty_filter { selected = selected }) else none;
      keys = ks;
    }
store_choice alloc (some flt) selected ks =
    if selected == 0
    then record { failed = true; filter = some (record flt { selected = 0 }); keys = ks }
    else record {
      failed = false;
      filter = some (record flt { op = op_other; selected = selected });
      keys = ks;
    }

abbrev pub selected_of : Option Filter → ℕ
selected_of none = 0
selected_of (some flt) = flt.selected

unfoldable pub fp_str_common :
    (alloc : Bool) (rows start : ℕ) → Option Filter → List Pressed → Run Chosen
unfolding choice_loop store_choice
fp_str_common alloc rows start flt keys =
    choice_loop rows start 1 (selected_of flt) keys >>= λ r. ok (store_choice alloc flt r.0 r.1)

-- The rows and the first value that the callers pass; `none` for the two prompts of their own.
unfoldable pub choices : FilterParse → Option (ℕ × ℕ)
choices fp_state = some (12 - 1, 1)
choices fp_timer = some (6, 0)
choices fp_shutdown = some (4 - 1, 1)
choices fp_bool = some (2, 0)
choices fp_ca_state = some (5, 0)
choices fp_options = some (8, 0)
choices fp_fastopen_client_fail = some (4, 0)
choices fp_ecn_mode = some (4, 0)
choices fp_accecn_opt_seen = some (4, 0)
choices fp_accecn_fail_mode = some (4, 0)
choices fp_common = none
choices fp_addr = none
