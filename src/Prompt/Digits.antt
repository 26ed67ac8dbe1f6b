-- ===== src/Prompt/Digits.antt =====
-- src/draw.c: the digits that `decode_filter` shows, read by `fp_common`.
use native.Mathlib.Nat.{pow-suc}
use sockmon.Base.{
  ℕ, zero, suc, ◌+◌, ◌-◌, ◌*◌, ◌/◌, ◌%◌, ◌^◌, ◌≤◌, ◌<◌, ◌≡◌, ◌∙◌, refl, ap, arith, Bool, true,
  false, ◌&&◌, Bool-cases, inl, inr, List, [], ◌∷◌, ◌++◌, map, length, take, ltb, leb, ◌==◌,
}
use sockmon.MainScreen.{Typed, byte, is_newline}
use sockmon.Prompt.{is_blank, read_number, decimal}
use sockmon.Text.{isdigit}

abbrev pub typed : List ℕ → List Typed
typed = map byte

digit_step :
    (u d : ℕ) (seen : Bool) (ks : List Typed)
    → d < 10
    → u * 10 + d < 2 ^ 64
    → read_number u seen (byte (b'0' + d) ∷ ks) ≡ read_number (u * 10 + d) true ks
unfolding read_number isdigit
digit_step u d seen ks h b =
    let blank : is_blank (b'0' + d) ≡ false = ground arith in
    let newline : is_newline (b'0' + d) ≡ false = ground arith in
    let digit : (leb b'0' (b'0' + d) && leb (b'0' + d) b'9') ≡ true = ground arith in
    let value : (u * 10 + (b'0' + d - b'0')) % 2 ^ 64 ≡ u * 10 + d = omega arith in
    rw (blank, newline, digit, value)

decimal_last : (k v : ℕ) (s : List ℕ) → ltb v 10 ≡ true → decimal (suc k) v s ≡ (b'0' + v % 10) ∷ s
unfolding decimal
decimal_last k v s h = rw h

decimal_more :
    (k v : ℕ) (s : List ℕ)
    → ltb v 10 ≡ false
    → decimal (suc k) v s ≡ decimal k (v / 10) ((b'0' + v % 10) ∷ s)
unfolding decimal
decimal_more k v s h = rw h

same_value : {u v : ℕ} (ks : List Typed) → u ≡ v → read_number u true ks ≡ read_number v true ks
same_value ks e = ap (λ x. read_number x true ks) e

last_digit :
    (k v : ℕ) (s : List ℕ) (seen : Bool) (ks : List Typed)
    → ltb v 10 ≡ true
    → read_number 0 seen (typed (decimal (suc k) v s) ++ ks) ≡ read_number v true (typed s ++ ks)
last_digit k v s seen ks low = rw (decimal_last k v s low) (
    digit_step 0 (v % 10) seen (typed s ++ ks) (omega arith) (omega arith)
    ∙ same_value (typed s ++ ks) (ground (arith, low)))

-- The digits of a number are read as the number.
pub decimal-read_number :
    (k v : ℕ) (s : List ℕ) (seen : Bool) (ks : List Typed)
    → v < 10 ^ suc k
    → v < 2 ^ 64
    → read_number 0 seen (typed (decimal (suc k) v s) ++ ks) ≡ read_number v true (typed s ++ ks)
decimal-read_number zero v s seen ks h b = last_digit zero v s seen ks (ground arith)
decimal-read_number (suc k) v s seen ks h b = elim (Bool-cases (ltb v 10)) [
  | inl low ↦ last_digit (suc k) v s seen ks low
  | inr high ↦ rw (decimal_more (suc k) v s high) (
      decimal-read_number k (v / 10) ((b'0' + v % 10) ∷ s) seen ks
        (omega (arith, pow-suc 10 (suc k))) (omega arith)
      ∙ digit_step (v / 10) (v % 10) true (typed s ++ ks) (omega arith) (omega arith)
      ∙ same_value (typed s ++ ks) (omega arith))
]

-- The first of the digits is no `=`.
abbrev pub HasHead : List ℕ → Type 0
HasHead s = (c : ℕ) × (r : List ℕ) × (s ≡ c ∷ r) × ((c == b'=') ≡ false)

HasHead-decimal : (k v : ℕ) (s : List ℕ) → HasHead s → HasHead (decimal k v s)
HasHead-decimal zero v s h = unfold decimal in h
HasHead-decimal (suc k) v s h = elim (Bool-cases (ltb v 10)) [
  | inl low ↦ (b'0' + v % 10, s, decimal_last k v s low, ground arith)
  | inr high ↦
      rw (decimal_more k v s high)
        (HasHead-decimal k (v / 10) ((b'0' + v % 10) ∷ s) (b'0' + v % 10, s, refl, ground arith))
]

pub decimal-HasHead : (k v : ℕ) → HasHead (decimal (suc k) v [])
decimal-HasHead k v = elim (Bool-cases (ltb v 10)) [
  | inl low ↦ (b'0' + v % 10, [], decimal_last k v [] low, ground arith)
  | inr high ↦
      rw (decimal_more k v [] high)
        (HasHead-decimal k (v / 10) ((b'0' + v % 10) ∷ []) (b'0' + v % 10, [], refl, ground arith))
]

pub take-all : (n : ℕ) (xs : List ℕ) → length xs ≤ n → take n xs ≡ xs
take-all zero [] h = refl
take-all zero (x ∷ xs) h = absurd (omega arith)
take-all (suc n) [] h = refl
take-all (suc n) (x ∷ xs) h = ap (λ ys. x ∷ ys) (take-all n xs (omega arith))

pub length-decimal : (k v : ℕ) (s : List ℕ) → length (decimal k v s) ≤ k + length s
unfolding decimal
length-decimal zero v s = omega arith
length-decimal (suc k) v s = ground (arith, length-decimal k (v / 10) ((b'0' + v % 10) ∷ s))
