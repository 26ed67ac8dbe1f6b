-- ===== src/Input.antt =====
-- src/input.c: the tables of key handlers and `should_stop`, which reads one key and calls the
-- handler that the current screen has for it.
pub mod Keys
use sockmon.Base.{
  ℕ, Bool, true, false, ◌&&◌, Option, none, some, List, [], ◌∷◌, ◌==◌, if◌then◌else◌, Run, ok,
  ◌>>=◌,
}
use sockmon.Ctx.{Screen, Ctx, screen_main, screen_field, screen_help}
use sockmon.MainScreen.{
  Typed, main_ip_handler, main_ip6_handler, main_delay_handler, main_help_handler,
  main_quit_handler, main_tcp_handler, main_udp_handler, main_key_down_handler, main_key_up_handler,
  main_key_left_handler, main_key_right_handler, main_key_pgdn_handler, main_key_pgup_handler,
}
use sockmon.FieldScreen.{
  Parse, draw_field_header, field_space_handler, field_pin_handler, field_filter_handler,
  field_quit_handler, common_quit_handler, field_sort_handler, field_key_down_handler,
  field_key_up_handler, field_pgdn_handler, field_pgup_handler, field_key_left_handler,
  field_key_right_handler,
}

-- The codes that curses has beside the characters.
pub data Cursor : Type 0 where
  key_down key_up key_left key_right key_npage key_ppage : Cursor

-- What `wgetch` returns. With KEY_RESIZE goes the new size of the window.
pub data Key : Type 0 where
  key_err : Key
  key_resize : (lines cols : ℕ) → Key
  char : ℕ → Key
  special : Cursor → Key

unfoldable pub cursor_code : Cursor → ℕ
cursor_code key_down = 0
cursor_code key_up = 1
cursor_code key_left = 2
cursor_code key_right = 3
cursor_code key_npage = 4
cursor_code key_ppage = 5

-- `ch == kh[i].key_code`, of a key that is in no table only by its own code.
unfoldable pub same_key : Key → Key → Bool
unfolding cursor_code
same_key (char a) (char b) = a == b
same_key (special a) (special b) = cursor_code a == cursor_code b
same_key _ _ = false

-- A handler over the context and the keys that are typed at a prompt of its own.
abbrev pub Handler : Type 0
Handler = Ctx → List Typed → Run (Ctx × List Typed)

pub record KeyHandler : Type 0 where
  pub key_code : Key
  pub handler : Handler

-- A handler that asks for nothing.
abbrev pub quiet : (Ctx → Ctx) → Handler
quiet h n keys = ok (h n, keys)

abbrev pub checked : (Ctx → Run Ctx) → Handler
checked h n keys = h n >>= λ n'. ok (n', keys)

abbrev on : Key → Handler → KeyHandler
on k h = record { key_code = k; handler = h }

unfoldable pub main_field_handler : Ctx → Ctx
unfolding draw_field_header
main_field_handler n = draw_field_header n

unfoldable pub help_quit_handler : Ctx → Ctx
unfolding common_quit_handler
help_quit_handler n = common_quit_handler n

-- `CTRL('C')`
abbrev pub ctrl_c : ℕ
ctrl_c = 3

abbrev pub key_esc : ℕ
key_esc = 27

unfoldable pub main_key_handler : List KeyHandler
main_key_handler =
    on (char ctrl_c) (quiet main_quit_handler)
    ∷ on (char b'4') (quiet main_ip_handler)
    ∷ on (char b'6') (quiet main_ip6_handler)
    ∷ on (char b'd') main_delay_handler
    ∷ on (char b'f') (quiet main_field_handler)
    ∷ on (char b'h') (quiet main_help_handler)
    ∷ on (char b'q') (quiet main_quit_handler)
    ∷ on (char b't') (quiet main_tcp_handler)
    ∷ on (char b'u') (quiet main_udp_handler)
    ∷ on (special key_down) (quiet main_key_down_handler)
    ∷ on (special key_up) (quiet main_key_up_handler)
    ∷ on (special key_left) (quiet main_key_left_handler)
    ∷ on (special key_right) (quiet main_key_right_handler)
    ∷ on (special key_npage) (quiet main_key_pgdn_handler)
    ∷ on (special key_ppage) (quiet main_key_pgup_handler)
    ∷ []

unfoldable pub field_key_handler : Parse → List KeyHandler
field_key_handler parse =
    on (char key_esc) (quiet field_quit_handler)
    ∷ on (char b' ') (checked field_space_handler)
    ∷ on (char b'f') (field_filter_handler parse)
    ∷ on (char b'p') (checked field_pin_handler)
    ∷ on (char b'q') (quiet field_quit_handler)
    ∷ on (char b's') (checked field_sort_handler)
    ∷ on (special key_down) (quiet field_key_down_handler)
    ∷ on (special key_up) (quiet field_key_up_handler)
    ∷ on (special key_left) (checked field_key_left_handler)
    ∷ on (special key_right) (checked field_key_right_handler)
    ∷ on (special key_npage) (quiet field_pgdn_handler)
    ∷ on (special key_ppage) (quiet field_pgup_handler)
    ∷ []

unfoldable pub help_key_handler : List KeyHandler
help_key_handler =
    on (char key_esc) (quiet help_quit_handler) ∷ on (char b'q') (quiet help_quit_handler) ∷ []

unfoldable pub key_handlers : Parse → Screen → List KeyHandler
unfolding main_key_handler field_key_handler help_key_handler
key_handlers parse screen_main = main_key_handler
key_handlers parse screen_field = field_key_handler parse
key_handlers parse screen_help = help_key_handler

-- The loop over the table: the first handler of the key is called.
unfoldable pub call_handler : List KeyHandler → Key → Handler
unfolding same_key
call_handler [] ch n keys = ok (n, keys)
call_handler (kh ∷ khs) ch n keys =
    if same_key ch kh.key_code then kh.handler n keys else call_handler khs ch n keys

-- `window_resize`, of src/draw.c, with the size that curses reports.
unfoldable pub window_resize : ℕ → ℕ → Ctx → Ctx
window_resize lines cols n = record n { lines = lines; cols = cols }

-- The result is the context's `should_stop`.
unfoldable pub should_stop : Parse → Key → Handler
unfolding key_handlers call_handler window_resize
should_stop parse key_err n keys = ok (n, keys)
should_stop parse (key_resize lines cols) n keys = ok (window_resize lines cols n, keys)
should_stop parse (char c) n keys = call_handler (key_handlers parse n.cur_screen) (char c) n keys
should_stop parse (special k) n keys =
    call_handler (key_handlers parse n.cur_screen) (special k) n keys
