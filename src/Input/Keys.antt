-- ===== src/Input/Keys.antt =====
-- src/input.c: the tables of key handlers over valid contexts.
use sockmon.Base.{
  ◌-◌, ◌<◌, ◌^◌, map, drop, Option, none, ℕ, ◌≤◌, ◌≡◌, ◌∙◌, refl, ap, Bool, true, some, length,
  Bool-cases, inl, inr, List, [], ◌∷◌, ◌++◌, Run, ok, ◌>>=◌,
}
use sockmon.Ctx.{Screen, Ctx, screen_main, screen_field, screen_help}
use sockmon.Ctx.Valid.{IsCtx}
use sockmon.MainScreen.{
  Typed, byte, is_newline, main_ip_handler, main_ip6_handler, main_delay_handler, main_help_handler,
  main_quit_handler, main_tcp_handler, main_udp_handler, main_key_down_handler, main_key_up_handler,
  main_key_left_handler, main_key_right_handler, main_key_pgdn_handler, main_key_pgup_handler,
}
use sockmon.MainScreen.Delay.{IsLine, line_value, main_delay_handler-line}
use sockmon.MainScreen.Kept as Main
use sockmon.FieldScreen.{
  Parse, cursor_field, field_space_handler, field_pin_handler, field_filter_handler,
  field_quit_handler, field_sort_handler, field_key_down_handler, field_key_up_handler,
  field_pgdn_handler, field_pgup_handler, field_key_left_handler, field_key_right_handler,
}
use sockmon.FieldScreen.Kept as Table
use sockmon.FieldScreen.Prompts.{filter_parse, choose_values}
use sockmon.Address.{InetPton}
use sockmon.Address as Address
use sockmon.Address.Line.{fp_addr-Asked}
use sockmon.Choice.{Pressed, choices, fp_str_common, store_choice, selected_of}
use sockmon.Choice.Toggled.{leaves, choice_loop-returns}
use sockmon.Field.{Field, FilterParse, fp_common, fp_addr}
use sockmon.Prompt as Prompt
use sockmon.Prompt.Line.{fp_common-Asked}
use sockmon.Input.{
  Key, key_err, key_resize, char, special, same_key, KeyHandler, quiet, checked, main_field_handler,
  help_quit_handler, main_key_handler, field_key_handler, help_key_handler, key_handlers,
  call_handler, window_resize, should_stop,
}

-- The keys that are typed hold a line with its end.
pub record HasLine (keys : List Typed) : Type 0 where
  pub line : List Typed
  pub newline : ℕ
  pub left : List Typed
  pub is : keys ≡ line ++ byte newline ∷ left
  pub is_line : IsLine line
  pub ends : is_newline newline ≡ true

-- The call returns a valid context.
pub record Served (r : Run (Ctx × List Typed)) : Type 0 where
  pub result : Ctx
  pub left : List Typed
  pub returns : r ≡ ok (result, left)
  pub valid : IsCtx result

served :
    {r : Run (Ctx × List Typed)} {n : Ctx} {keys : List Typed}
    → r ≡ ok (n, keys)
    → IsCtx n
    → Served r
served {r} {n} {keys} e v = record { result = n; left = keys; returns = e; valid = v }

infixr 4 ◌&◌
abbrev ◌&◌ : {A B : Type 0} → A → B → A × B
a & b = (a, b)

module _ {n : Ctx} (v : IsCtx n) (keys : List Typed) where
  quiet-Served : (h : Ctx → Ctx) → IsCtx (h n) → Served (quiet h n keys)
  quiet-Served h w = served refl w

  checked-Served : (h : Ctx → Run Ctx) → Table.Kept (h n) → Served (checked h n keys)
  checked-Served h w = served (ap (λ r. r >>= λ n'. ok (n', keys)) w.returns) w.valid

  -- Each handler of a table returns a valid context.
  unfoldable Serves : List KeyHandler → Type 0
  Serves [] = Unit
  Serves (kh ∷ khs) = Served (kh.handler n keys) × Serves khs

  call_handler-Served :
      (khs : List KeyHandler) (k : Key) → Serves khs → Served (call_handler khs k n keys)
  unfolding call_handler Serves
  call_handler-Served [] k s = served refl v
  call_handler-Served (kh ∷ khs) k s = elim (Bool-cases (same_key k kh.key_code)) [
    | inl e ↦ rw e s.0
    | inr e ↦ rw e (call_handler-Served khs k s.1)
  ]

  delay-Served : HasLine keys → Served (main_delay_handler n keys)
  delay-Served l =
      served
        (ap (main_delay_handler n) l.is
          ∙ main_delay_handler-line n l.line l.left l.newline l.is_line l.ends)
        (Main.delayed-IsCtx v (line_value 0 l.line))

  main_field_handler-IsCtx : IsCtx (main_field_handler n)
  unfolding main_field_handler
  main_field_handler-IsCtx = Table.draw_field_header-IsCtx v

  help_quit_handler-IsCtx : IsCtx (help_quit_handler n)
  unfolding help_quit_handler
  help_quit_handler-IsCtx = Table.common_quit_handler-IsCtx v

  main-Serves : HasLine keys → Serves main_key_handler
  unfolding Serves main_key_handler
  main-Serves l =
      quiet-Served main_quit_handler (Main.main_quit_handler-IsCtx v)
      & quiet-Served main_ip_handler (Main.main_ip_handler-IsCtx v)
      & quiet-Served main_ip6_handler (Main.main_ip6_handler-IsCtx v)
      & delay-Served l
      & quiet-Served main_field_handler main_field_handler-IsCtx
      & quiet-Served main_help_handler (Main.main_help_handler-IsCtx v)
      & quiet-Served main_quit_handler (Main.main_quit_handler-IsCtx v)
      & quiet-Served main_tcp_handler (Main.main_tcp_handler-IsCtx v)
      & quiet-Served main_udp_handler (Main.main_udp_handler-IsCtx v)
      & quiet-Served main_key_down_handler (Main.main_key_down_handler-IsCtx v)
      & quiet-Served main_key_up_handler (Main.main_key_up_handler-IsCtx v)
      & quiet-Served main_key_left_handler (Main.main_key_left_handler-IsCtx v)
      & quiet-Served main_key_right_handler (Main.main_key_right_handler-IsCtx v)
      & quiet-Served main_key_pgdn_handler (Main.main_key_pgdn_handler-IsCtx v)
      & quiet-Served main_key_pgup_handler (Main.main_key_pgup_handler-IsCtx v)
      & tt

  filter-Served :
      (parse : Parse) → Table.Prompts v parse keys → Served (field_filter_handler parse n keys)
  filter-Served parse h =
      let k = Table.field_filter_handler-FilterKept v parse keys h in served k.returns k.valid

  field-Serves : (parse : Parse) → Table.Prompts v parse keys → Serves (field_key_handler parse)
  unfolding Serves field_key_handler
  field-Serves parse h =
      quiet-Served field_quit_handler (Table.field_quit_handler-IsCtx v)
      & checked-Served field_space_handler (Table.field_space_handler-Kept v)
      & filter-Served parse h
      & checked-Served field_pin_handler (Table.field_pin_handler-Kept v)
      & quiet-Served field_quit_handler (Table.field_quit_handler-IsCtx v)
      & checked-Served field_sort_handler (Table.field_sort_handler-Kept v)
      & quiet-Served field_key_down_handler (Table.field_key_down_handler-IsCtx v)
      & quiet-Served field_key_up_handler (Table.field_key_up_handler-IsCtx v)
      & checked-Served field_key_left_handler (Table.field_key_left_handler-Kept v)
      & checked-Served field_key_right_handler (Table.field_key_right_handler-Kept v)
      & quiet-Served field_pgdn_handler (Table.field_pgdn_handler-IsCtx v)
      & quiet-Served field_pgup_handler (Table.field_pgup_handler-IsCtx v)
      & tt

  help-Serves : Serves help_key_handler
  unfolding Serves help_key_handler
  help-Serves =
      quiet-Served help_quit_handler help_quit_handler-IsCtx
      & quiet-Served help_quit_handler help_quit_handler-IsCtx
      & tt

  screen-Served :
      (parse : Parse) (s : Screen) (k : Key)
      → HasLine keys
      → Table.Prompts v parse keys
      → Served (call_handler (key_handlers parse s) k n keys)
  unfolding key_handlers
  screen-Served parse screen_main k l h = call_handler-Served main_key_handler k (main-Serves l)
  screen-Served parse screen_field k l h =
      call_handler-Served (field_key_handler parse) k (field-Serves parse h)
  screen-Served parse screen_help k l h = call_handler-Served help_key_handler k help-Serves

-- A resize leaves a window of four lines or more.
unfoldable pub IsKey : Key → Type 0
IsKey (key_resize lines cols) = 4 ≤ lines
IsKey key_err = Unit
IsKey (char c) = Unit
IsKey (special k) = Unit

-- The call, where the prompt that it opens returns.
should_stop-serves :
    (parse : Parse) (k : Key) {n : Ctx} (keys : List Typed) (v : IsCtx n)
    → IsKey k
    → HasLine keys
    → Table.Prompts v parse keys
    → Served (should_stop parse k n keys)
unfolding should_stop IsKey window_resize
should_stop-serves parse key_err keys v h l r = served refl v
should_stop-serves parse (key_resize lines cols) keys v h l r = served refl (record {
  main_y = v.main_y;
  main_x = v.main_x;
  cursor = v.cursor;
  selected = v.selected;
  sorted = v.sorted;
  page = h;
  delay_low = v.delay_low;
  delay_high = v.delay_high;
})
should_stop-serves parse (char c) {n} keys v h l r =
    screen-Served v keys parse n.cur_screen (char c) l r
should_stop-serves parse (special k) {n} keys v h l r =
    screen-Served v keys parse n.cur_screen (special k) l r

module _ (inet_pton : InetPton) (stack : List ℕ) (pressed : Typed → Pressed) (alloc : Bool)
    (keys : List Typed) where
  -- If the prompt of the entry under the cursor is one on a set of values, the set that it starts with
  -- is a word of 32 bits, and a key leaves it.
  abbrev pub Leaves : Ctx → Type 0
  Leaves n =
      (y : ℕ) (f : Field) (p : FilterParse) (rows : ℕ × ℕ)
      → cursor_field n ≡ ok (y, f)
      → f.filter_parse ≡ some p
      → choices p ≡ some rows
      → (selected_of f.filter < 2 ^ 32) × (leaves (map pressed keys) ≡ true)

  abbrev Returns : FilterParse → Field → Type 0
  Returns p f =
      (r : Bool × Field × List Typed) × (filter_parse inet_pton stack pressed alloc p f keys ≡ ok r)

  common-Returns : (f : Field) (l : HasLine keys) → length l.line ≤ 80 → Returns fp_common f
  unfolding filter_parse
  common-Returns f l short =
      let a =
        fp_common-Asked l.newline l.left l.ends alloc f.type f.filter l.line l.is_line short in
      let run = ap (Prompt.fp_common alloc f.type f.filter) l.is ∙ a.returns in
      ((a.result.failed, record f { filter = a.result.filter }, a.result.keys), rw run refl)

  addr-Returns : (f : Field) (l : HasLine keys) → length l.line ≤ 80 → Returns fp_addr f
  unfolding filter_parse
  addr-Returns f l short =
      let a =
        fp_addr-Asked l.newline l.left l.ends inet_pton stack alloc f.filter l.line l.is_line
          short in
      let run = ap (Address.fp_addr inet_pton stack alloc f.filter) l.is ∙ a.returns in
      ((a.result.failed, record f { filter = a.result.filter }, a.result.keys), rw run refl)

  values-returns :
      (f : Field) (p : FilterParse) (o : Option (ℕ × ℕ))
      → choices p ≡ o
      → ((rows : ℕ × ℕ)
          → o ≡ some rows
          → (selected_of f.filter < 2 ^ 32) × (leaves (map pressed keys) ≡ true))
      → (r : Bool × Field × List Typed) × (choose_values pressed alloc o f keys ≡ ok r)
  unfolding choose_values fp_str_common
  values-returns f p none e h = ((true, f, keys), refl)
  values-returns f p (some (rows, start)) e h =
      let (word, leave) = h (rows, start) refl in
      let (r, run) =
        choice_loop-returns p rows start (selected_of f.filter) (map pressed keys) e word leave in
      let c = store_choice alloc f.filter r.0 r.1 in
      (
        (c.failed, record f { filter = c.filter }, drop (length keys - length c.keys) keys),
        rw run refl,
      )

  prompt-Returns :
      (f : Field) (p : FilterParse) (l : HasLine keys)
      → length l.line ≤ 80
      → ((rows : ℕ × ℕ)
          → choices p ≡ some rows
          → (selected_of f.filter < 2 ^ 32) × (leaves (map pressed keys) ≡ true))
      → Returns p f
  unfolding filter_parse
  prompt-Returns f fp_common l short h = common-Returns f l short
  prompt-Returns f fp_addr l short h = addr-Returns f l short
  prompt-Returns f p l short h = values-returns f p (choices p) refl h

  -- On a valid context, any key (a resize to four lines or more), with a line of at most 80 keys
  -- and its newline typed at a prompt, and, where the prompt under the cursor is one on a set of
  -- values, with a set of 32 bits and a key that leaves it, makes should_stop return without a
  -- fault; the context stays valid: cursor, selection and sort key inside the table, positions
  -- not negative, delay from 1 to 255.
  pub should_stop-Served :
      (k : Key) {n : Ctx} (v : IsCtx n)
      → IsKey k
      → (l : HasLine keys) → length l.line ≤ 80
      → Leaves n
      → Served (should_stop (filter_parse inet_pton stack pressed alloc) k n keys)
  should_stop-Served k v h l short others =
      should_stop-serves (filter_parse inet_pton stack pressed alloc) k keys v h l
        (λ y f p e q off. prompt-Returns f p l short (λ rows c. others y f p rows e q c))
