-- ===== src/ConnList/Place.antt =====
-- Insertion into an ordered list as the loop of `add_conn_info` in src/draw.c does it, over any
-- values.
use sockmon.Base.{
  ℕ, ◌≡◌, refl, arith, Bool, true, false, not, ◌||◌, Bool-cases, inl, inr, List, [], ◌∷◌, ◌++◌,
  if◌then◌else◌, ap,
}
use sockmon.ConnList.{stops}
use sockmon.Sort.Order.{lex, lex-antisym, lex_trans}

abbrev pub All {ℓ κ} : {A : Type ℓ} → (A → Type κ) → List A → Type κ
All P [] = Unit
All P (x ∷ xs) = P x × All P xs

pub All-append {ℓ κ} :
    {A : Type ℓ} (P : A → Type κ) (xs ys : List A) → All P xs → All P ys → All P (xs ++ ys)
All-append P [] ys h k = k
All-append P (x ∷ xs) ys h k = (h.0, All-append P xs ys h.1 k)

pub All-map {ℓ κ} :
    {A : Type ℓ} (P Q : A → Type κ) (xs : List A) → ((x : A) → P x → Q x) → All P xs → All Q xs
All-map P Q [] f h = h
All-map P Q (x ∷ xs) f h = (f x h.0, All-map P Q xs f h.1)

module _ {A : Type 0} (present : A → Bool) (value : A → List ℕ) (ascending : Bool) where
  -- `x` stands strictly before `y` in the order asked for.
  abbrev pub before : A → A → Bool
  before x y = stops ascending (lex (value x) (value y))

  unfoldable pub place : A → List A → List A
  place a [] = a ∷ []
  place a (x ∷ xs) = if not (present x) || before a x then a ∷ x ∷ xs else x ∷ place a xs

  -- The entries that have a value stand in order, and those without one behind them.
  abbrev pub IsOrdered : List A → Type 0
  IsOrdered [] = Unit
  IsOrdered (x ∷ xs) =
      (present x ≡ true → All (λ y. present y ≡ true → before y x ≡ false) xs)
      × (present x ≡ false → All (λ y. present y ≡ false) xs)
      × IsOrdered xs

  -- `a` came in between `front` and `back`: behind every entry that it does not stand before, and ahead
  -- of all others.
  pub record Inserted (a : A) (l r : List A) : Type 0 where
    pub front : List A
    pub back : List A
    pub was : l ≡ front ++ back
    pub is : r ≡ front ++ a ∷ back
    pub passed : All (λ x. (present x ≡ true) × (before a x ≡ false)) front
    pub ahead : All (λ y. present y ≡ true → before a y ≡ true) back

  before-asym : (x y : A) → before x y ≡ true → before y x ≡ false
  before-asym x y h =
      ground (arith, lex-antisym (value x) (value y), lex-antisym (value y) (value x))

  before_trans : (x y z : A) → before x y ≡ false → before y z ≡ false → before x z ≡ false
  before_trans x y z h k = ground (
    arith,
    lex-antisym (value x) (value y),
    lex-antisym (value y) (value z),
    lex-antisym (value x) (value z),
    lex_trans (value x) (value y) (value z),
    lex_trans (value z) (value y) (value x),
  )

  pub place-here :
      (a x : A) (xs : List A)
      → (not (present x) || before a x) ≡ true
      → place a (x ∷ xs) ≡ a ∷ x ∷ xs
  unfolding place
  place-here a x xs e = rw e

  pub place-next :
      (a x : A) (xs : List A)
      → (not (present x) || before a x) ≡ false
      → place a (x ∷ xs) ≡ x ∷ place a xs
  unfolding place
  place-next a x xs e = rw e

  pub All-place : (P : A → Type 0) (a : A) (l : List A) → P a → All P l → All P (place a l)
  unfolding place
  All-place P a [] h k = (h, tt)
  All-place P a (x ∷ xs) h k = elim (Bool-cases (not (present x) || before a x)) [
    | inl e ↦ rw e (h, k)
    | inr e ↦ rw e (k.0, All-place P a xs h k.1)
  ]

  behind_here :
      (a x : A) (xs : List A)
      → (present x ≡ true → All (λ y. present y ≡ true → before y x ≡ false) xs)
      → (present x ≡ false → All (λ y. present y ≡ false) xs)
      → (not (present x) || before a x) ≡ true
      → All (λ y. present y ≡ true → before y a ≡ false) (x ∷ xs)
  behind_here a x xs later absent e = elim (Bool-cases (present x)) [
    | inl has ↦
        let first : before a x ≡ true = ground arith in
        (
          (λ _. before-asym a x first),
          All-map _ _ xs (λ y h q. before_trans y x a (h q) (before-asym a x first)) (later has),
        )
    | inr lacks ↦ ((λ q. cc), All-map _ _ xs (λ y h q. cc) (absent lacks))
  ]

  -- Inserting an entry that has a value keeps the order.
  pub place-IsOrdered :
      (a : A) (l : List A) → present a ≡ true → IsOrdered l → IsOrdered (place a l)
  place-IsOrdered a [] p o = unfold place in ((λ _. tt), (λ _. tt), tt)
  place-IsOrdered a (x ∷ xs) p (later, absent, rest) =
      elim (Bool-cases (not (present x) || before a x)) [
        | inl e ↦
            rw (place-here a x xs e)
              ((λ _. behind_here a x xs later absent e), (λ q. cc), (later, absent, rest))
        | inr e ↦
            let has : present x ≡ true = ground arith in
            let after : before a x ≡ false = ground arith in
            rw (place-next a x xs e) (
              (λ _. All-place _ a xs (λ _. after) (later has)),
              (λ q. cc),
              place-IsOrdered a xs p rest,
            )
      ]

  ahead_here :
      (a x : A) (xs : List A)
      → IsOrdered (x ∷ xs)
      → (not (present x) || before a x) ≡ true
      → All (λ y. present y ≡ true → before a y ≡ true) (x ∷ xs)
  ahead_here a x xs (later, absent, rest) e = elim (Bool-cases (present x)) [
    | inl has ↦
        let first : before a x ≡ true = ground arith in
        (
          (λ _. first),
          All-map _ _ xs (λ y h q. ground (arith, first, before_trans a y x, h q)) (later has),
        )
    | inr lacks ↦ ((λ q. cc), All-map _ _ xs (λ y h q. cc) (absent lacks))
  ]

  pub place-Inserted : (a : A) (l : List A) → IsOrdered l → Inserted a l (place a l)
  place-Inserted a [] o =
      unfold place in
      (record { front = []; back = []; was = refl; is = refl; passed = tt; ahead = tt })
  place-Inserted a (x ∷ xs) o = elim (Bool-cases (not (present x) || before a x)) [
    | inl e ↦ record {
      front = [];
      back = x ∷ xs;
      was = refl;
      is = place-here a x xs e;
      passed = tt;
      ahead = ahead_here a x xs o e;
    }
    | inr e ↦
        let i = place-Inserted a xs o.2 in
        record {
          front = x ∷ i.front;
          back = i.back;
          was = ap (λ (l : List A). x ∷ l) i.was;
          is = rw (place-next a x xs e) (ap (λ (l : List A). x ∷ l) i.is);
          passed = (ground arith, i.passed);
          ahead = i.ahead;
        }
  ]

  -- An entry without a value goes to the end, and the order is kept.
  pub append-IsOrdered :
      (a : A) (l : List A) → present a ≡ false → IsOrdered l → IsOrdered (l ++ a ∷ [])
  append-IsOrdered a [] p o = ((λ _. tt), (λ _. tt), tt)
  append-IsOrdered a (x ∷ xs) p (later, absent, rest) = (
    (λ has. All-append _ xs (a ∷ []) (later has) ((λ q. cc), tt)),
    (λ lacks. All-append _ xs (a ∷ []) (absent lacks) (p, tt)),
    append-IsOrdered a xs p rest,
  )
