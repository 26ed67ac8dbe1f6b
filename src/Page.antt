-- ===== src/Page.antt =====
-- src/draw.c: the lines of text beside the connections: `draw_summary`, `draw_help`, and the page of
-- `draw_field_header` with its lines by `draw_header`.
pub mod Cursor
use Prim.Native.String.{String}
use sockmon.Base.{
  ℕ, zero, suc, ◌+◌, ◌-◌, ◌/◌, Bool, true, false, not, ◌||◌, is_some, Option, none, some, List, [],
  ◌∷◌, ◌++◌, length, map, ltb, ◌==◌, if◌then◌else◌, ℤ, pos, ◌-ℤ◌, ltb_ℤ, pos_part, Run, ok, ◌>>=◌,
}
use sockmon.Conn.{af_inet, af_inet6}
use sockmon.Ctx.{Ctx, half_page, index, ipproto_tcp, ipproto_udp}
use sockmon.Field.{Field}
use sockmon.FieldScreen.{header_row, shown}
use sockmon.Print.{codes, pad_left, pad_right, two_digits, Written, nm_mvwprintw}
use sockmon.Prompt.{decimal}

-- The hour, the minute and the second of `localtime`.
pub record Tm : Type 0 where
  pub tm_hour : ℕ
  pub tm_min : ℕ
  pub tm_sec : ℕ

unfoldable pub family_name : ℕ → List ℕ
family_name family =
    codes (if family == af_inet then "IPv4" else (if family == af_inet6 then "IPv6" else "?"))

unfoldable pub protocol_name : ℕ → List ℕ
protocol_name protocol =
    codes
      (if protocol == ipproto_tcp then "TCP" else (if protocol == ipproto_udp then "UDP" else "?"))

-- `%s - %02d:%02d:%02d | %s/%s: %d`
unfoldable pub summary_text : Ctx → Tm → List ℕ
unfolding family_name protocol_name two_digits decimal
summary_text n tm =
    codes "sockmon - "
    ++ (two_digits tm.tm_hour
        ++ (codes ":"
            ++ (two_digits tm.tm_min
                ++ (codes ":"
                    ++ (two_digits tm.tm_sec
                        ++ (codes " | "
                            ++ (protocol_name n.protocol
                                ++ (codes "/"
                                    ++ (family_name n.family
                                        ++ (codes ": " ++ decimal 20 n.nr_conns []))))))))))

-- `draw_summary`; `none` stands for a `time` that fails.
unfoldable pub draw_summary : Ctx → Option Tm → Option Written
unfolding summary_text nm_mvwprintw
draw_summary n none = none
draw_summary n (some tm) = nm_mvwprintw n.cols 0 0 (summary_text n tm)

-- `draw_help`: the lines one below the other, with two left out.
unfoldable pub help_lines : Ctx → List (ℕ × ℕ × List ℕ)
unfolding decimal
help_lines n =
    (0, 0, codes "Command Help - sockmon 0.4.0")
    ∷ (1, 0, codes "Delay " ++ (decimal 20 n.delay [] ++ codes " (0.1s)"))
    ∷ (3, 2, codes "d: Change delay")
    ∷ (4, 2, codes "f: Edit fields")
    ∷ (5, 2, codes "4: Show IPv4 connections")
    ∷ (6, 2, codes "6: Show IPv6 connections")
    ∷ (7, 2, codes "t: Show TCP connections")
    ∷ (8, 2, codes "u: Show UDP connections")
    ∷ (9, 2, codes "q: Quit")
    ∷ (11, 0, codes "Type 'q' to continue")
    ∷ []

unfoldable pub draw_help : Ctx → List (Option Written)
unfolding help_lines nm_mvwprintw
draw_help n = map (λ l. nm_mvwprintw n.cols l.0 l.1 l.2) (help_lines n)

-- A line of `draw_header`, with its attributes of curses.
pub record Header : Type 0 where
  pub y : ℕ
  pub a_bold : Bool
  pub a_underline : Bool
  pub a_reverse : Bool
  pub written : Option Written

abbrev pub mark : Bool → ℕ → ℕ
mark b c = if b then c else b' '

abbrev pub is_sort_key : Option ℕ → ℕ → Bool
is_sort_key none i = false
is_sort_key (some k) i = k == i

-- `%25s %c %c %c %s`, or `%-25s` for a heading of the table. `i` is the index of the entry.
unfoldable pub header_text : Ctx → ℕ → Field → List ℕ
unfolding pad_left pad_right
header_text n i f =
    (if is_some f.draw_row then pad_left 25 (codes f.header) else pad_right 25 (codes f.header))
    ++ (b' '
        ∷ mark f.pinned b'P'
        ∷ b' '
        ∷ mark (is_sort_key n.sort_key i) (if n.sort_ascending then b'A' else b'D')
        ∷ b' '
        ∷ mark f.filter_on b'F'
        ∷ b' '
        ∷ codes f.desc)

unfoldable pub draw_header : Ctx → (y : ℕ) → Bool → ℕ → Field → Header
unfolding header_text nm_mvwprintw
draw_header n y reverse i f = record {
  y = y;
  a_bold = if is_some f.draw_row then f.enabled else false;
  a_underline = not (is_some f.draw_row);
  a_reverse = reverse;
  written = nm_mvwprintw n.cols y 0 (header_text n i f);
}

-- `if (skip < 0) skip = 0;`, and the test that fills the page at the end of the table.
unfoldable pub not_negative : ℤ → ℤ
not_negative skip = if ltb_ℤ skip (pos 0) then pos 0 else skip

unfoldable pub fill_page : (nr room skip : ℤ) → ℤ
fill_page nr room skip = if ltb_ℤ (nr -ℤ skip) room then nr -ℤ room else skip

-- The lines that are left out above the first one, `skip` of `draw_field_header`.
unfoldable pub first_line : Ctx → ℤ
first_line n =
    fill_page (pos (length n.tcp_fields)) (pos n.lines -ℤ pos 4)
      (not_negative (n.pos_field.y -ℤ half_page n.lines))

-- The line of row `i`, reversed where the cursor is.
unfoldable pub header_line : Ctx → (i y : ℕ) → Run Header
unfolding header_row draw_header
header_line n i y = do
  cursor ← index n.pos_field.y
  f ← header_row n i
  ok (draw_header n y (i == cursor) (shown n.sel_field cursor i) f)

-- The loop over the rows that are left.
unfoldable pub header_loop : Ctx → (left i y : ℕ) → ℤ → Run (List Header)
header_loop n zero i y skip = ok []
header_loop n (suc left) i y skip =
    let above = header_loop n left (i + 1) y (skip -ℤ pos 1) in
    let rest = header_loop n left (i + 1) (y + 1) skip in
    if not (ltb y n.lines)
    then ok []
    else (if ltb_ℤ (pos 0) skip
        then above
        else (header_line n i y >>= λ line. rest >>= λ lines. ok (line ∷ lines)))

-- The lines of the table on the page, which start below the three of the help and an empty one.
unfoldable pub field_header : Ctx → Run (List Header)
unfolding first_line header_loop
field_header n = header_loop n (length n.tcp_fields) 0 4 (first_line n)
