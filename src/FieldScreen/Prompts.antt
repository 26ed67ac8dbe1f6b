-- ===== src/FieldScreen/Prompts.antt =====
-- src/draw.c: the calls through `filter_parse` that the field screen makes, on the keys typed at the
-- prompts. `pressed` says which keys of curses are KEY_DOWN and KEY_UP.
use sockmon.Address.{InetPton}
use sockmon.Base.{ℕ, ◌-◌, Bool, true, Option, none, some, List, length, map, drop, Run, ok, ◌>>=◌}
use sockmon.Choice.{Pressed, choices, fp_str_common}
use sockmon.Field.{Field, fp_common, fp_addr}
use sockmon.FieldScreen.{Parse}
use sockmon.MainScreen.{Typed}
use sockmon.Prompt.{Prompted}
use sockmon.Address as Address
use sockmon.Prompt as Prompt

abbrev prompted : Field → Run Prompted → Run (Bool × Field × List Typed)
prompted f r = r >>= λ q. ok (q.failed, record f { filter = q.filter }, q.keys)

-- The prompts on a set of values, by their rows and their first value. The keys left are as many as
-- `fp_str_common` leaves.
unfoldable pub choose_values :
    (pressed : Typed → Pressed) (alloc : Bool)
    → Option (ℕ × ℕ)
    → Field
    → List Typed
    → Run (Bool × Field × List Typed)
unfolding fp_str_common
choose_values pressed alloc none f keys = ok (true, f, keys)
choose_values pressed alloc (some (rows, start)) f keys =
    fp_str_common alloc rows start f.filter (map pressed keys) >>= λ c.
    ok (c.failed, record f { filter = c.filter }, drop (length keys - length c.keys) keys)

-- `f->filter_parse(n, f)`
unfoldable pub filter_parse :
    InetPton → (stack : List ℕ) → (pressed : Typed → Pressed) → (alloc : Bool) → Parse
unfolding choose_values choices
filter_parse inet_pton stack pressed alloc fp_common f keys =
    prompted f (Prompt.fp_common alloc f.type f.filter keys)
filter_parse inet_pton stack pressed alloc fp_addr f keys =
    prompted f (Address.fp_addr inet_pton stack alloc f.filter keys)
filter_parse inet_pton stack pressed alloc p f keys = choose_values pressed alloc (choices p) f keys
