-- ===== src/Text.antt =====
-- The functions of the C library on text that the program calls, over the bytes of a string up to
-- its NUL, in the C locale.
use sockmon.Base.{
  ℕ, ◌+◌, ◌-◌, ◌*◌, ◌%◌, ◌^◌, Bool, true, false, ◌&&◌, ◌||◌, List, [], ◌∷◌, ltb, leb, ◌==◌,
  if◌then◌else◌,
}

unfoldable pub isdigit : ℕ → Bool
isdigit c = leb b'0' c && leb c b'9'

unfoldable pub isxdigit : ℕ → Bool
unfolding isdigit
isxdigit c = isdigit c || leb b'a' c && leb c b'f' || leb b'A' c && leb c b'F'

unfoldable pub isprint : ℕ → Bool
isprint c = leb 32 c && leb c 126

unfoldable pub isspace : ℕ → Bool
isspace c = c == 32 || leb 9 c && leb c 13

-- `strncmp(s, t, n)` with `n` the length of `t`: whether it is 0.
unfoldable pub starts_with : List ℕ → List ℕ → Bool
starts_with s [] = true
starts_with [] (c ∷ t) = false
starts_with (d ∷ s) (c ∷ t) = d == c && starts_with s t

-- What `strtol(s, &endp, 10)` makes of a run of digits: the value, and the text at `endp`.
unfoldable pub digits_value : ℕ → List ℕ → ℕ × List ℕ
unfolding isdigit
digits_value v [] = (v, [])
digits_value v (c ∷ s) = if isdigit c then digits_value (v * 10 + (c - b'0')) s else (v, c ∷ s)

abbrev pub long_max : ℕ
long_max = 2 ^ 63 - 1

-- `strtol` in base 10: white space, a sign, digits. A result is its sign and its magnitude.
-- Without a digit the value is 0 and `endp` is `s`.
unfoldable pub skip_space : List ℕ → List ℕ
unfolding isspace
skip_space [] = []
skip_space (c ∷ s) = if isspace c then skip_space s else c ∷ s

pub record Long : Type 0 where
  pub negative : Bool
  pub magnitude : ℕ
  pub endp : List ℕ

strtol_digits : List ℕ → Bool → List ℕ → Long
unfolding isdigit digits_value
strtol_digits s negative [] = record { negative = false; magnitude = 0; endp = s }
strtol_digits s negative (c ∷ t) =
    if isdigit c
    then (let (v, rest) = digits_value 0 (c ∷ t) in
        let limit = if negative then long_max + 1 else long_max in
        record { negative = negative; magnitude = if ltb limit v then limit else v; endp = rest })
    else record { negative = false; magnitude = 0; endp = s }

strtol_sign : List ℕ → List ℕ → Long
unfolding strtol_digits
strtol_sign s [] = strtol_digits s false []
strtol_sign s (c ∷ t) =
    if c == b'-'
    then strtol_digits s true t
    else (if c == b'+' then strtol_digits s false t else strtol_digits s false (c ∷ t))

unfoldable pub strtol : List ℕ → Long
unfolding strtol_sign skip_space
strtol s = strtol_sign s (skip_space s)

-- The conversion of a `long` to an `unsigned int`.
unfoldable pub long_to_u32 : Long → ℕ
long_to_u32 l = if l.negative then (2 ^ 64 - l.magnitude) % 2 ^ 32 else l.magnitude % 2 ^ 32

-- Whether `strcmp` is 0, and whether `strstr` finds the second text in the first.
unfoldable pub same_text : List ℕ → List ℕ → Bool
same_text [] [] = true
same_text (c ∷ s) (d ∷ t) = c == d && same_text s t
same_text _ _ = false

unfoldable pub contains_text : List ℕ → List ℕ → Bool
unfolding starts_with
contains_text [] t = starts_with [] t
contains_text (c ∷ s) t = starts_with (c ∷ s) t || contains_text s t
