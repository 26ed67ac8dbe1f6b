-- ===== src/FieldScreen/Swap.antt =====
-- src/input.c: `swap_field`, as an exchange of two indices.
use mathlib.Core.Option
use mathlib.Core.Path.{fun_ext}
use sockmon.Base.{
  ℕ, zero, suc, ◌<◌, ◌≡◌, ◌∙◌, refl, ap, arith, Option, none, some, List, ◌==◌, ==_iff,
  if◌then◌else◌, length, length-set, set, get_elem?, get_elem?-set_self, get_elem?-set_ne, ok,
  at-get_elem?, ℕ_discrete, [], ◌∷◌,
}
use sockmon.Ctx.{Ctx}
use sockmon.FieldScreen.{swap_key, swap_field}

-- The index that takes the place of `j` when `a` and `b` change places.
abbrev pub exchange : ℕ → ℕ → ℕ → ℕ
exchange a b j = if j == a then b else (if j == b then a else j)

module _ {ℓ} {A : Type ℓ} where
  pub lookup_lt : (xs : List A) (i : ℕ) → i < length xs → (x : A) × (get_elem? xs i ≡ some x)
  lookup_lt [] i h = absurd (omega arith)
  lookup_lt (x ∷ xs) zero h = (x, refl)
  lookup_lt (x ∷ xs) (suc i) h = lookup_lt xs i (omega arith)

  get_elem?-set :
      (xs : List A) (i j : ℕ) (v : A)
      → i < length xs
      → get_elem? (set xs i v) j ≡ (if j == i then some v else get_elem? xs j)
  get_elem?-set xs i j v h = elim (ℕ_discrete i j) [
    | yes e ↦ rw (← e, (==_iff i i).1 refl) (get_elem?-set_self xs i v h)
    | no ne ↦ get_elem?-set_ne xs v ne ∙ ground arith
  ]

module _ {A : Type 0} where
  pub exchange_lem :
      (xs : List A) (a b : ℕ) {x y : A}
      → get_elem? xs a ≡ some x
      → get_elem? xs b ≡ some y
      → a < length xs
      → b < length xs
      → (j : ℕ) → get_elem? (set (set xs a y) b x) j ≡ get_elem? xs (exchange a b j)
  exchange_lem xs a b {x} {y} ea eb ha hb j =
      get_elem?-set (set xs a y) b j x (rw (length-set xs a y) hb)
      ∙ rw (get_elem?-set xs a j y ha) (ground arith)

-- `n'` is `n` with the entries of the table renumbered: entry `j` of `n'` was entry `from j`, the
-- sort key names the entry that it named, and nothing else differs.
pub record Renumbered (n n' : Ctx) (from : ℕ → ℕ) : Type 0 where
  pub entries : (j : ℕ) → get_elem? n'.tcp_fields j ≡ get_elem? n.tcp_fields (from j)
  pub key : n.sort_key ≡ Option.map from n'.sort_key
  pub rest : n' ≡ record n { tcp_fields = n'.tcp_fields; sort_key = n'.sort_key }
  pub size : length n'.tcp_fields ≡ length n.tcp_fields

swap_key-exchange : (a b : ℕ) (k : Option ℕ) → k ≡ Option.map (exchange a b) (swap_key a b k)
unfolding swap_key
swap_key-exchange a b none = refl
swap_key-exchange a b (some k) = ground arith

-- A swap within bounds.
pub swap_field-Renumbered :
    (n : Ctx) (a b : ℕ)
    → a < length n.tcp_fields
    → b < length n.tcp_fields
    → (n' : Ctx) × (swap_field n a b ≡ ok n') × Renumbered n n' (exchange a b)
unfolding swap_field
swap_field-Renumbered n a b ha hb =
    let (x, ea) = lookup_lt n.tcp_fields a ha in
    let (y, eb) = lookup_lt n.tcp_fields b hb in
    (
      record n { sort_key = swap_key a b n.sort_key; tcp_fields = set (set n.tcp_fields a y) b x },
      rw (at-get_elem? n.tcp_fields a ea, at-get_elem? n.tcp_fields b eb),
      record {
        entries = exchange_lem n.tcp_fields a b ea eb ha hb;
        key = swap_key-exchange a b n.sort_key;
        rest = refl;
        size = length-set (set n.tcp_fields a y) b x ∙ length-set n.tcp_fields a y;
      },
    )

map-compose :
    (f g : ℕ → ℕ) (o : Option ℕ) → Option.map f (Option.map g o) ≡ Option.map (λ j. f (g j)) o
map-compose f g none = refl
map-compose f g (some j) = refl

-- One renumbering after another.
pub Renumbered-trans :
    {n n₁ n₂ : Ctx} {f g : ℕ → ℕ}
    → Renumbered n n₁ f
    → Renumbered n₁ n₂ g
    → Renumbered n n₂ (λ j. f (g j))
Renumbered-trans {n} {n₁} {n₂} {f} {g} p q = record {
  entries = λ j. q.entries j ∙ p.entries (g j);
  key = p.key ∙ ap (Option.map f) q.key ∙ map-compose f g n₂.sort_key;
  rest =
      q.rest
      ∙ ap (λ (m : Ctx). record m { tcp_fields = n₂.tcp_fields; sort_key = n₂.sort_key }) p.rest;
  size = q.size ∙ p.size;
}

pub Renumbered-eq :
    {n n' : Ctx} {f g : ℕ → ℕ} → Renumbered n n' f → ((j : ℕ) → f j ≡ g j) → Renumbered n n' g
Renumbered-eq {n} {n'} p e = rw (fun_ext e) at p

pub Renumbered-refl : (n : Ctx) → Renumbered n n (λ j. j)
Renumbered-refl n = record {
  entries = λ j. refl;
  key = map_id n.sort_key;
  rest = refl;
  size = refl;
}
  where
    map_id : (o : Option ℕ) → o ≡ Option.map (λ j. j) o
    map_id none = refl
    map_id (some j) = refl
