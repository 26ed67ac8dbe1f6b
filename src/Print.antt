-- ===== src/Print.antt =====
-- src/draw.c: `nm_mvwprintw`, and the conversions of printf that its callers use.
use Prim.Native.Char.{code}
use Prim.Native.String.{String}
use sockmon.Base.{
  ℕ, ◌+◌, ◌-◌, ◌/◌, ◌%◌, ◌^◌, Option, none, some, List, [], ◌∷◌, ◌++◌, length, take, replicate, ltb,
  leb, if◌then◌else◌,
}
use sockmon.Prompt.{decimal}

-- The characters of a string literal.
abbrev pub codes : String → List ℕ
codes String.[] = []
codes (String.◌∷◌ c s) = code c ∷ codes s

-- `%*s` and `%-*s`: a text that is longer than the width is not cut.
unfoldable pub pad_left : ℕ → List ℕ → List ℕ
pad_left width s = replicate (width - length s) b' ' ++ s

unfoldable pub pad_right : ℕ → List ℕ → List ℕ
pad_right width s = s ++ replicate (width - length s) b' '

-- `%hhd`, `%hd`, `%d` and `%lld` of a word of that many bits.
unfoldable pub signed : ℕ → ℕ → List ℕ
unfolding decimal
signed bits v =
    if ltb v (2 ^ (bits - 1)) then decimal 20 v [] else b'-' ∷ decimal 20 (2 ^ bits - v) []

-- `%x` of a number below 16.
unfoldable pub hex_digit : ℕ → List ℕ
hex_digit v = (if ltb v 10 then b'0' + v else b'a' + (v - 10)) ∷ []

-- `%02d` of a number below 100.
unfoldable pub two_digits : ℕ → List ℕ
two_digits v = (b'0' + v / 10 % 10) ∷ (b'0' + v % 10) ∷ []

-- A text in a window, at a line and a column.
pub record Written : Type 0 where
  pub y : ℕ
  pub x : ℕ
  pub text : List ℕ

abbrev pub print_size : ℕ
print_size = 4096

-- `nm_mvwprintw` on the text that the format makes: what it writes, if anything. `vsnprintf` cuts the
-- text to the buffer and returns its whole length.
unfoldable pub nm_mvwprintw : (cols y x : ℕ) → List ℕ → Option Written
nm_mvwprintw cols y x text =
    let w = length text in
    let cols_left = cols - x in
    if leb cols x
    then none
    else some (record {
      y = y;
      x = x;
      text = take (if ltb cols_left w then cols_left else w) (take (print_size - 1) text);
    })
