-- ===== src/Proc/Path/Buffer.antt =====
-- src/proc.c: texts stored in a buffer.
use mathlib.Core.List.{append_assoc}
use sockmon.Base.{
  ℕ, ◌+◌, ◌≤◌, ◌<◌, ◌≡◌, ◌∙◌, refl, sym, ap, arith, Bool, true, false, not, ◌&&◌, List, [], ◌∷◌,
  ◌++◌, length, length-append, length-take, take-append-drop, take, drop, at, set, ltb, ◌==◌,
  lt→ltb, ok, fault, out_of_bounds, ◌>>=◌,
}
use sockmon.Proc.Path.{store, store_all, text_of}

-- A text without a NUL.
unfoldable pub is_text : List ℕ → Bool
is_text [] = true
is_text (c ∷ s) = not (c == 0) && is_text s

both : (a b : Bool) → (a && b) ≡ true → (a ≡ true) × (b ≡ true)
both true true h = (refl, refl)
both true false h = (refl, h)
both false b h = absurd (cc)

pub store-middle :
    (a : List ℕ) (x v : ℕ) (b : List ℕ) → store (a ++ x ∷ b) (length a) v ≡ ok (a ++ v ∷ b)
unfolding store
store-middle a x v b =
    rw (lt→ltb (length a) (length (a ++ x ∷ b)) (omega (arith, length-append a (x ∷ b))))
      (ap ok (set-middle a))
  where
    set-middle : (a : List ℕ) → set (a ++ x ∷ b) (length a) v ≡ a ++ v ∷ b
    set-middle [] = refl
    set-middle (y ∷ a) = ap (λ l. y ∷ l) (set-middle a)

-- One character stored, and `a` grown by it.
store_all-step :
    (a : List ℕ) (c x : ℕ) (s b : List ℕ) {i : ℕ}
    → i ≡ length a
    → store_all i (c ∷ s) (a ++ x ∷ b) ≡ store_all (length (a ++ c ∷ [])) s ((a ++ c ∷ []) ++ b)
unfolding store_all
store_all-step a c x s b e =
    ap (λ j. store (a ++ x ∷ b) j c >>= store_all (j + 1) s) e
    ∙ ap (λ r. r >>= store_all (length a + 1) s) (store-middle a x c b)
    ∙ ap (λ j. store_all j s (a ++ c ∷ b)) (sym (length-append a (c ∷ [])) ∙ refl)
    ∙ ap (store_all (length (a ++ c ∷ [])) s) (sym (append_assoc a (c ∷ []) b))

-- A text that fits behind `a` replaces what stood there.
pub store_all-fits :
    (a s old rest : List ℕ) {i : ℕ}
    → i ≡ length a
    → length s ≡ length old
    → store_all i s (a ++ (old ++ rest)) ≡ ok (a ++ (s ++ rest))
unfolding store_all
store_all-fits a [] [] rest e f = refl
store_all-fits a [] (x ∷ old) rest e f = absurd (omega (arith, f))
store_all-fits a (c ∷ s) [] rest e f = absurd (omega (arith, f))
store_all-fits a (c ∷ s) (x ∷ old) rest e f =
    store_all-step a c x s (old ++ rest) e
    ∙ store_all-fits (a ++ c ∷ []) s old rest refl (omega (arith, f))
    ∙ ap ok (append_assoc a (c ∷ []) (s ++ rest))

-- One that does not fit is stored beyond the end.
pub store_all-beyond :
    (a s b : List ℕ) {i : ℕ}
    → i ≡ length a
    → length b < length s
    → store_all i s (a ++ b) ≡ fault out_of_bounds
unfolding store_all store
store_all-beyond a [] b e f = absurd (omega (arith, f))
store_all-beyond a (c ∷ s) [] {i} e f =
    let full : ltb i (length (a ++ [])) ≡ false = ground (arith, e, length-append a []) in rw full
store_all-beyond a (c ∷ s) (x ∷ b) e f =
    store_all-step a c x s b e ∙ store_all-beyond (a ++ c ∷ []) s b refl (omega (arith, f))

pub text_of-text : (s rest : List ℕ) → is_text s ≡ true → text_of (s ++ 0 ∷ rest) ≡ ok s
unfolding text_of is_text
text_of-text [] rest h = refl
text_of-text (c ∷ s) rest h =
    let (here, more) = both (not (c == 0)) (is_text s) h in
    let no : (c == 0) ≡ false = ground (arith, here) in rw (no, text_of-text s rest more)

-- The same with the room counted.
pub store_all-drop :
    (a s b : List ℕ) {i : ℕ}
    → i ≡ length a
    → length s ≤ length b
    → store_all i s (a ++ b) ≡ ok (a ++ (s ++ drop (length s) b))
store_all-drop a s b {i} e f =
    ap (λ l. store_all i s (a ++ l)) (sym (take-append-drop (length s) b))
    ∙ store_all-fits a s (take (length s) b) (drop (length s) b) e
        (omega (arith, length-take (length s) b))

pub is_text-append : (s t : List ℕ) → is_text s ≡ true → is_text t ≡ true → is_text (s ++ t) ≡ true
unfolding is_text
is_text-append [] t h k = k
is_text-append (c ∷ s) t h k =
    let (here, more) = both (not (c == 0)) (is_text s) h in rw (here, is_text-append s t more k)

pub at-middle : (a : List ℕ) (c : ℕ) (b : List ℕ) → at (a ++ c ∷ b) (length a) ≡ ok c
at-middle [] c b = refl
at-middle (x ∷ a) c b = at-middle a c b
