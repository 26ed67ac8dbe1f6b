-- ===== src/MainScreen.antt =====
-- src/input.c: the key handlers of the main screen.
pub mod Delay
pub mod Kept
use sockmon.Base.{
  not, ℕ, ◌+◌, ◌-◌, ◌*◌, Bool, true, false, ◌||◌, ◌&&◌, Run, ok, waits, ◌>>=◌, List, [], ◌∷◌, ltb,
  leb, ◌==◌, if◌then◌else◌, ℤ, pos, ◌+ℤ◌, ◌-ℤ◌, leb_ℤ, ltb_ℤ,
}
use sockmon.Conn.{af_inet, af_inet6}
use sockmon.Ctx.{Position, Ctx, screen_main, screen_help, ipproto_tcp, ipproto_udp, half_page}

unfoldable pub main_ip_handler : Ctx → Ctx
main_ip_handler n = if not (n.family == af_inet) then record n { family = af_inet } else n

unfoldable pub main_ip6_handler : Ctx → Ctx
main_ip6_handler n = if not (n.family == af_inet6) then record n { family = af_inet6 } else n

-- `draw_help`, of src/draw.c, changes the screen and draws.
unfoldable pub main_help_handler : Ctx → Ctx
main_help_handler n = record n { cur_screen = screen_help }

unfoldable pub main_quit_handler : Ctx → Ctx
main_quit_handler n = record n { should_stop = true }

unfoldable pub main_tcp_handler : Ctx → Ctx
main_tcp_handler n =
    if not (n.protocol == ipproto_tcp) then record n { protocol = ipproto_tcp } else n

unfoldable pub main_udp_handler : Ctx → Ctx
main_udp_handler n =
    if not (n.protocol == ipproto_udp) then record n { protocol = ipproto_udp } else n

abbrev with_y : Ctx → ℤ → Ctx
with_y n y = record n { pos_main = record { y = y; x = n.pos_main.x } }

abbrev with_x : Ctx → ℤ → Ctx
with_x n x = record n { pos_main = record { y = n.pos_main.y; x = x } }

unfoldable pub main_key_down_handler : Ctx → Ctx
main_key_down_handler n = with_y n (n.pos_main.y +ℤ pos 1)

unfoldable pub main_key_up_handler : Ctx → Ctx
main_key_up_handler n = if leb_ℤ n.pos_main.y (pos 0) then n else with_y n (n.pos_main.y -ℤ pos 1)

unfoldable pub main_key_left_handler : Ctx → Ctx
main_key_left_handler n = if leb_ℤ n.pos_main.x (pos 0) then n else with_x n (n.pos_main.x -ℤ pos 1)

unfoldable pub main_key_right_handler : Ctx → Ctx
main_key_right_handler n = with_x n (n.pos_main.x +ℤ pos 1)

unfoldable pub main_key_pgdn_handler : Ctx → Ctx
unfolding half_page
main_key_pgdn_handler n = with_y n (n.pos_main.y +ℤ half_page n.lines)

unfoldable pub main_key_pgup_handler : Ctx → Ctx
unfolding half_page
main_key_pgup_handler n =
    if leb_ℤ n.pos_main.y (pos 0)
    then n
    else (let y = n.pos_main.y -ℤ half_page n.lines in
        with_y n (if ltb_ℤ y (pos 0) then pos 0 else y))

-- What `wgetch` gives while a number is typed: a byte, or ERR, which stands for any key that is
-- neither a digit nor the end of a line.
pub data Typed : Type 0 where
  byte : ℕ → Typed
  err : Typed

abbrev pub is_newline : ℕ → Bool
is_newline c = c == 13 || c == 10

-- The loop that reads digits: the number, whether it ended at a newline, and the keys left.
unfoldable pub read_delay : ℕ → List Typed → Run (ℕ × Bool × List Typed)
read_delay delay [] = waits
read_delay delay (err ∷ ks) = ok (delay, false, ks)
read_delay delay (byte c ∷ ks) =
    let delay' = delay * 10 + (c - b'0') in
    let rest = read_delay delay' ks in
    if leb b'0' c && leb c b'9'
    then (if ltb 255 delay' then ok (delay', false, ks) else rest)
    else ok (delay, is_newline c, ks)

-- The loop that drops keys up to a newline.
unfoldable pub skip_line : List Typed → Run (List Typed)
skip_line [] = waits
skip_line (err ∷ ks) = skip_line ks
skip_line (byte c ∷ ks) = if is_newline c then ok ks else skip_line ks

-- `if (n->delay != delay) n->delay = delay;`
abbrev pub set_delay : Ctx → ℕ → Ctx
set_delay n delay = if not (n.delay == delay) then record n { delay = delay } else n

-- What follows the first loop: `delay`, `seen_nl` and the keys left are its outcome.
unfoldable pub end_delay : Ctx → ℕ × Bool × List Typed → Run (Ctx × List Typed)
unfolding skip_line
end_delay n (delay, seen_nl, keys) =
    if seen_nl
    then ok ((if ltb delay 1 || ltb 255 delay then n else set_delay n delay), keys)
    else skip_line keys >>= λ rest. ok (n, rest)

-- `main_delay_handler` over the keys that are typed at its prompt: the context, and the keys left.
unfoldable pub main_delay_handler : Ctx → List Typed → Run (Ctx × List Typed)
unfolding read_delay end_delay
main_delay_handler n keys = read_delay 0 keys >>= end_delay n
