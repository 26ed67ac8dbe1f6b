-- ===== src/Address/Overflow.antt =====
-- src/draw.c: a line that fills `buf` at the prompt of `fp_addr`.
use sockmon.Address.{InetPton, read_addr, fp_addr}
use sockmon.Address.Again.{are_addr_chars, char_step}
use sockmon.Base.{
  ℕ, ◌-◌, ◌≡◌, ◌∙◌, arith, Bool, true, false, Option, List, [], ◌∷◌, ◌++◌, length, ◌==◌, fault,
  out_of_bounds,
}
use sockmon.Field.{Filter}
use sockmon.MainScreen.{Typed, byte}
use sockmon.Prompt.Digits.{typed}

read_addr-full :
    (s acc : List ℕ) (room : ℕ) (seen : Bool) (ks : List Typed)
    → are_addr_chars s ≡ true
    → length s ≡ room
    → read_addr room acc seen (typed s ++ byte 10 ∷ ks) ≡ fault out_of_bounds
unfolding are_addr_chars
read_addr-full [] acc room seen ks h e =
    let full : (room == 0) ≡ true = ground (arith, e) in unfold read_addr in rw full
read_addr-full (c ∷ s) acc room seen ks h e =
    char_step c acc room seen (typed s ++ byte 10 ∷ ks) (ground (arith, h)) (omega (arith, e))
    ∙ read_addr-full s (acc ++ c ∷ []) (room - 1) true ks (ground (arith, h)) (omega (arith, e))

-- An operator = and 80 characters of an address with a newline make fp_addr store behind the end
-- of buf.
pub fp_addr-overflow :
    (inet_pton : InetPton) (stack : List ℕ) (alloc : Bool) (old : Option Filter) (s : List ℕ)
    (ks : List Typed)
    → are_addr_chars s ≡ true
    → length s ≡ 80
    → fp_addr inet_pton stack alloc old (byte b'=' ∷ typed s ++ byte 10 ∷ ks) ≡ fault out_of_bounds
unfolding fp_addr
fp_addr-overflow inet_pton stack alloc old s ks h e = rw (read_addr-full s [] 80 false ks h e)
