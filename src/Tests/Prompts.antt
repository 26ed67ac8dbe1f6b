-- ===== src/Tests/Prompts.antt =====
-- Filters typed at their prompts.
use sockmon.Accept.{inside, apply_common}
use sockmon.Accept.Numbers.{is_number}
use sockmon.Address.{InetPton, InetNtop, fp_addr, decode_address, address_filter}
use sockmon.Address.Line.{fp_addr-Asked}
use sockmon.Address.Again.{are_addr_chars, IsPresentation, fp_addr-decode_address}
use sockmon.Conn.{af_inet}
use sockmon.Prefix.{prefix_mask}
use sockmon.Base.{
  ℕ, ◌&&◌, ◌==◌, if◌then◌else◌, ◌≡◌, refl, arith, true, false, none, some, List, [], ◌∷◌, ◌++◌, ok,
  fault, null_pointer, replicate, drop,
}
use sockmon.Choice.{Pressed, key_down, key_up, char, choices, fp_str_common}
use sockmon.Choice.Toggled.{IsChosen, leaves, fp_str_common-IsChosen}
use sockmon.Field.{fp_state, op_ne, op_ge, type_u32, type_u8}
use sockmon.MainScreen.{Typed, byte, err}
use sockmon.MainScreen.Delay.{IsLine}
use sockmon.Text.{isxdigit, same_text}
use sockmon.Prompt.{fp_common, decode_filter}
use sockmon.Prompt.Digits.{typed}
use sockmon.Prompt.Again.{is_typable, filter_of, taken, fp_common-decode_filter}
use sockmon.Prompt.Defects.{fp_common-null}
use sockmon.Prompt.Line.{Asked, fp_common-Asked}

-- `>=1500`
typable : is_typable type_u32 op_ge 1500 [] ≡ true
unfolding is_typable
typable = refl

fp_common-decode_filter_example :
    fp_common true type_u32 none
      (typed (decode_filter type_u32 (filter_of type_u32 op_ge 1500 [])) ++ byte 10 ∷ err ∷ [])
    ≡ taken (filter_of type_u32 op_ge 1500 []) (err ∷ [])
fp_common-decode_filter_example =
    fp_common-decode_filter type_u32 none op_ge 1500 [] (err ∷ []) typable

shown :
    decode_filter type_u32 (filter_of type_u32 op_ge 1500 [])
    ≡ b'>' ∷ b'=' ∷ b'1' ∷ b'5' ∷ b'0' ∷ b'0' ∷ []
unfolding decode_filter
shown = refl

-- ` ! =7x`, where the blank after `!` is an error.
abbrev line : List Typed
line = byte 32 ∷ byte b'!' ∷ byte 32 ∷ byte b'=' ∷ byte b'7' ∷ byte b'x' ∷ []

line-IsLine : IsLine line
unfolding IsLine
line-IsLine = (refl, (refl, (refl, (refl, (refl, (refl, tt))))))

fp_common-Asked_example :
    Asked 10 (err ∷ []) refl none (fp_common true type_u32 none (line ++ byte 10 ∷ err ∷ []))
fp_common-Asked_example =
    fp_common-Asked 10 (err ∷ []) refl true type_u32 none line line-IsLine (omega arith)

kind : is_number type_u8 ≡ true
unfolding is_number
kind = refl

fp_common-null_example :
    (fp_common true type_u8 none (byte b'=' ∷ byte 10 ∷ [])
      ≡ ok (record { failed = false; filter = none; keys = [] }))
    × (apply_common type_u8 none (inside (λ p. 0) 0) ≡ fault null_pointer)
fp_common-null_example = fp_common-null true type_u8 (λ p. 0) 0 [] kind

-- ESTABLISHED and SYN_RECV are marked.
abbrev presses : List Pressed
presses = char b' ' ∷ key_down ∷ key_down ∷ char b' ' ∷ key_up ∷ char b'q' ∷ []

state_rows : choices fp_state ≡ some (11, 1)
unfolding choices
state_rows = refl

presses_leave : leaves presses ≡ true
unfolding leaves
presses_leave = refl

fp_str_common-IsChosen_example : IsChosen 11 1 none presses (fp_str_common true 11 1 none presses)
fp_str_common-IsChosen_example =
    fp_str_common-IsChosen fp_state 11 1 none presses state_rows (omega arith) presses_leave

-- `10.0.0.1`
abbrev dotted : List ℕ
dotted = b'1' ∷ b'0' ∷ b'.' ∷ b'0' ∷ b'.' ∷ b'0' ∷ b'.' ∷ b'1' ∷ []

abbrev ten : List ℕ
ten = 10 ∷ 0 ∷ 0 ∷ 1 ∷ []

abbrev behind : List ℕ
behind = replicate 12 0

-- What stands on the stack.
abbrev stack : List ℕ
stack = replicate 16 7

-- An `inet_pton` and an `inet_ntop` that know one address.
abbrev pton : InetPton
pton family buf = if family == af_inet && same_text buf dotted then some ten else none

abbrev ntop : InetNtop
ntop family addr = dotted

ten-IsPresentation : IsPresentation pton ntop false ten behind
unfolding are_addr_chars isxdigit same_text
ten-IsPresentation = record {
  size = refl;
  chars = refl;
  short = omega arith;
  back = refl;
  only = λ e. absurd (ground (arith, e));
}

fp_addr-decode_address_example :
    fp_addr pton stack true none (
      typed (decode_address ntop (address_filter op_ne af_inet (ten ++ behind) (prefix_mask 8)))
      ++ byte 10 ∷ [])
    ≡ taken (address_filter op_ne af_inet (ten ++ drop 4 stack) (prefix_mask 8)) []
fp_addr-decode_address_example =
    fp_addr-decode_address stack false ten-IsPresentation 8 op_ne none [] (omega arith) refl

fp_addr-Asked_example :
    Asked 10 (err ∷ []) refl none (fp_addr pton stack true none (line ++ byte 10 ∷ err ∷ []))
fp_addr-Asked_example =
    fp_addr-Asked 10 (err ∷ []) refl pton stack true none line line-IsLine (omega arith)
