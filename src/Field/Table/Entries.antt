-- ===== src/Field/Table/Entries.antt =====
-- src/draw.c: from the whole of `tcp_fields` to one entry of it.
use sockmon.Base.{ℕ, zero, suc, ◌≡◌, ◌∙◌, sym, ap, some, List, [], ◌∷◌, map, get_elem?}
use sockmon.Field.{Field}

of_some {ℓ} : {A : Type ℓ} {a b : A} → some a ≡ some b → a ≡ b
of_some e = cc

get_elem?-map {ℓ κ} :
    {A : Type ℓ} {B : Type κ} (g : A → B) (xs : List A) (i : ℕ) {x : A}
    → get_elem? xs i ≡ some x
    → get_elem? (map g xs) i ≡ some (g x)
get_elem?-map g [] i h = cc
get_elem?-map g (x ∷ xs) zero h = ap (λ y. some (g y)) (of_some h)
get_elem?-map g (x ∷ xs) (suc i) h = get_elem?-map g xs i h

-- Two functions that agree on the table agree on an entry.
pub at_entry {ℓ} :
    {B : Type ℓ} (g h : Field → B) (xs : List Field) (i : ℕ) {f : Field}
    → map g xs ≡ map h xs
    → get_elem? xs i ≡ some f
    → g f ≡ h f
at_entry g h xs i e at =
    of_some (sym (get_elem?-map g xs i at) ∙ ap (λ l. get_elem? l i) e ∙ get_elem?-map h xs i at)
