-- ===== src/ListHead/Ring.antt =====
-- src/list.h: what a ring of connections is, and the entries that it holds in order.
pub mod Insert
pub mod Remove
use sockmon.Base.{◌≡◌, ◌≢◌, refl, arith, Bool, true, false, ◌||◌, List, [], ◌∷◌, ◌++◌, ◌==◌, ok}
use sockmon.Conn.{Conn}
use sockmon.ListHead.{
  Ptr, Heap, update, set_next, set_prev, get_prev, list_add_between, list_add_tail,
}

-- What a ring stands for: the address and the connection of each entry, in order.
abbrev pub Entries : Type 0
Entries = List (Ptr × Conn)

abbrev pub conns : Entries → List Conn
conns [] = []
conns ((_, c) ∷ xs) = c ∷ conns xs

abbrev pub has : Ptr → Entries → Bool
has a [] = false
has a ((p, _) ∷ xs) = (a == p) || has a xs

abbrev pub first : Entries → Ptr → Ptr
first [] b = b
first ((p, _) ∷ _) b = p

abbrev pub Distinct : Entries → Type 0
Distinct [] = Unit
Distinct ((p, _) ∷ xs) = (has p xs ≡ false) × Distinct xs

-- From `a` the links lead through the entries to `b`, and back.
abbrev pub Chain : Heap → Ptr → Entries → Ptr → Type 0
Chain h a [] b = (h.next a ≡ b) × (h.prev b ≡ a)
Chain h a ((p, c) ∷ xs) b =
    (h.next a ≡ p) × (h.prev p ≡ a) × (h.conn p ≡ c) × (h.live p ≡ true) × Chain h p xs b

pub record IsRing (h : Heap) (head : Ptr) (xs : Entries) : Type 0 where
  pub chain : Chain h head xs head
  pub distinct : Distinct xs
  pub apart : has head xs ≡ false
  pub live : h.live head ≡ true

pub has-append : (a : Ptr) (xs ys : Entries) → has a (xs ++ ys) ≡ (has a xs || has a ys)
has-append a [] ys = refl
has-append a (x ∷ xs) ys = ground (arith, has-append a xs ys)

-- The link behind `a` leads to the first entry.
pub next-first :
    (h : Heap) {a b : Ptr} (xs : Entries)
    → Chain h a xs b
    → h.live b ≡ true
    → (h.next a ≡ first xs b) × (h.live (first xs b) ≡ true)
next-first h [] ch l = (ch.0, l)
next-first h ((p, c) ∷ xs) ch l = (ch.0, ch.3)
