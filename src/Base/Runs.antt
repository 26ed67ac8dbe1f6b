-- ===== src/Base/Runs.antt =====
-- What a call of a C function does: it returns a value, it meets undefined behaviour, or it still
-- waits for a key.
use mathlib.Core.Path.{◌≡◌, refl}
use mathlib.Core.List.{List, [], ◌∷◌}
use native.Mathlib.Omega.{arith}
use Prim.Native.Nat.{ℕ, zero, suc, ◌<◌}
use sockmon.Base.Lists.{length, get_elem?}
use mathlib.Core.Option.{some}

-- The kinds of undefined behaviour that the modelled code can meet.
pub data Fault : Type 0 where
  out_of_bounds : Fault
  null_pointer : Fault
  bad_shift : Fault
  dangling : Fault

pub data Run {ℓ} (A : Type ℓ) : Type ℓ where
  ok : A → Run A
  fault : Fault → Run A
  waits : Run A

infixl 5 ◌>>=◌
abbrev pub ◌>>=◌ {ℓ κ} : {A : Type ℓ} {B : Type κ} → Run A → (A → Run B) → Run B
ok a >>= f = f a
fault e >>= f = fault e
waits >>= f = waits

pub ok-injective {ℓ} : {A : Type ℓ} {a b : A} → ok a ≡ ok b → a ≡ b
ok-injective e = cc

-- The read `xs[i]`.
abbrev pub at {ℓ} : {A : Type ℓ} → List A → ℕ → Run A
at [] i = fault out_of_bounds
at (x ∷ xs) zero = ok x
at (x ∷ xs) (suc i) = at xs i

pub at-get_elem? {ℓ} :
    {A : Type ℓ} (xs : List A) (i : ℕ) {x : A} → get_elem? xs i ≡ some x → at xs i ≡ ok x
at-get_elem? [] i h = ground arith
at-get_elem? (x ∷ xs) zero h = ground arith
at-get_elem? (x ∷ xs) (suc i) h = at-get_elem? xs i h

pub at-lt {ℓ} : {A : Type ℓ} (xs : List A) (i : ℕ) → i < length xs → (x : A) × (at xs i ≡ ok x)
at-lt [] i h = absurd (omega arith)
at-lt (x ∷ xs) zero h = (x, refl)
at-lt (x ∷ xs) (suc i) h = at-lt xs i (omega arith)

pub bind_assoc {ℓ κ μ} :
    {A : Type ℓ} {B : Type κ} {C : Type μ} (r : Run A) (g : A → Run B) (h : B → Run C)
    → (r >>= g >>= h) ≡ (r >>= λ a. g a >>= h)
bind_assoc (ok a) g h = refl
bind_assoc (fault e) g h = refl
bind_assoc waits g h = refl

pub bind_congr {ℓ κ} :
    {A : Type ℓ} {B : Type κ} (r : Run A) {g h : A → Run B}
    → ((a : A) → g a ≡ h a)
    → (r >>= g) ≡ (r >>= h)
bind_congr (ok a) e = e a
bind_congr (fault x) e = refl
bind_congr waits e = refl

-- What comes out of a chain came out of its first step.
pub >>=-ok {ℓ κ} :
    {A : Type ℓ} {B : Type κ} (first : Run A) (next : A → Run B) {out : B}
    → (first >>= next) ≡ ok out
    → (mid : A) × (first ≡ ok mid) × (next mid ≡ ok out)
>>=-ok waits next e = cc
>>=-ok (fault why) next e = cc
>>=-ok (ok mid) next e = (mid, refl, e)
