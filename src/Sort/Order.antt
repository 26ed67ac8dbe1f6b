-- ===== src/Sort/Order.antt =====
-- The lexicographic order of lists of numbers, for the comparison functions of src/draw.c.
use sockmon.Base.{ℕ, suc, ◌≡◌, refl, arith, Bool, true, false, List, [], ◌∷◌, ℤ, pos, negsuc, zero}
use sockmon.Sort.{cmp3, or_next}

abbrev pub is_neg : ℤ → Bool
is_neg (negsuc n) = true
is_neg (pos n) = false

abbrev pub is_pos : ℤ → Bool
is_pos (pos zero) = false
is_pos (pos (suc n)) = true
is_pos (negsuc n) = false

unfoldable pub lex : List ℕ → List ℕ → ℤ
lex [] [] = pos 0
lex [] (b ∷ bs) = negsuc 0
lex (a ∷ as') [] = pos 1
lex (a ∷ as') (b ∷ bs) = or_next (cmp3 a b) (lex as' bs)

-- The sign turns round with the arguments, and "not above" is transitive.
pub record IsComparison {A : Type 0} (cmp : A → A → ℤ) : Type 0 where
  pub antisym : (a b : A) → is_neg (cmp a b) ≡ is_pos (cmp b a)
  pub trans :
      (a b c : A) → is_pos (cmp a b) ≡ false → is_pos (cmp b c) ≡ false → is_pos (cmp a c) ≡ false

pub lex-antisym : (xs ys : List ℕ) → is_neg (lex xs ys) ≡ is_pos (lex ys xs)
unfolding lex cmp3 or_next
lex-antisym [] [] = refl
lex-antisym [] (y ∷ ys) = refl
lex-antisym (x ∷ xs) [] = refl
lex-antisym (x ∷ xs) (y ∷ ys) = ground (arith, lex-antisym xs ys)

pub lex_trans :
    (xs ys zs : List ℕ)
    → is_pos (lex xs ys) ≡ false
    → is_pos (lex ys zs) ≡ false
    → is_pos (lex xs zs) ≡ false
unfolding lex cmp3 or_next
lex_trans [] ys [] h k = refl
lex_trans [] ys (z ∷ zs) h k = refl
lex_trans (x ∷ xs) [] zs h k = ground arith
lex_trans (x ∷ xs) (y ∷ ys) [] h k = ground arith
lex_trans (x ∷ xs) (y ∷ ys) (z ∷ zs) h k = ground (arith, lex_trans xs ys zs)

pub lex-IsComparison : IsComparison lex
lex-IsComparison = record { antisym = lex-antisym; trans = lex_trans }
